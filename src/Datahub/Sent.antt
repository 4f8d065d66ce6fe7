-- ===== src/Datahub/Sent.antt =====
-- librcom/src/datahub.c: what a data hub sends to one link.
use rcom.Data.{Data, set_timestamp, vprintf, data_maxlen, c_string}
use rcom.Data.Bounds.{IsValid, vprintf-IsValid, set_data-IsValid}
use rcom.Data.Content.{content, content-vprintf, content-set_data}
use rcom.Datalink.{Wire, Datalink}
use rcom.Datalink.Delivery.{Arrives, stamped-Arrives, taken}
use rcom.Rlib.{Lists, Membuf, Terminated}
use rcom.Util.{escape_string}
use rcom.Util.Escape.{IsPrintable, read_string, read-escape_string}
use rcom.Datahub.{Hub, Link, datahub_send_locked, remove_pointer}
use rcom.Datahub.Broadcast.{IsApart}
use rcom.Datahub.Delivered.{after, broadcast_output_lem}
use rcom.Datahub.Texts.{
  Sender, send_output, when_printed, when_set, datahub_send_printed, datahub_send_f,
  datahub_send_bin, datahub_send_str, datahub_broadcast_bin, string_text, broadcast_output,
}
use rcom.Base.{
  Option, some, false, [], ◌≡◌, ◌∷◌, ◌++◌, ◌<◌, ◌≤◌, ◌^◌, ◌-◌, ◌∙◌, ap, refl, ℤ, pos, negsuc, ℕ,
  Bytes, length, take, take_all, arith, min, Bool-cases, inl, inr, subst, if◌then◌else◌, Bool,
}

module _ (W : Wire) (L : Lists Link) where
  -- whether `sendto` takes a datagram to the link
  abbrev goes : Link → Bytes → Hub → Bool
  goes l b hub = W.sendto ((l.addr, b) ∷ hub.sent)

  -- the sender after it sent the datagram `b` to a link
  abbrev pub after_send : Link → Bytes → Hub → Data → Sender
  after_send l b hub output = record {
    hub = record hub {
      links = if goes l b hub then hub.links else remove_pointer L l.pointer hub.links;
      sent = (l.addr, b) ∷ hub.sent;
    };
    output = output;
  }

  abbrev pub result : Link → Bytes → Hub → ℤ
  result l b hub = if goes l b hub then pos 0 else negsuc 0

  send_output_lem :
      (s : Sender) (l : Link) (time : ℕ)
      → IsValid s.output
      → time < 2 ^ 64
      → (b : Bytes) × (send_output W L (some l) time s
          ≡ some (result l b s.hub, after_send l b s.hub (set_timestamp s.output time)))
        × ((other : Datalink) → Arrives b (content s.output) time other)
  unfolding send_output datahub_send_locked
  send_output_lem s l time v late =
      let (b, d, r) = stamped-Arrives s.output time v late in
      let t = taken W s.hub.sent l.addr (set_timestamp s.output time) b d in
      (
        b,
        elim (Bool-cases (goes l b s.hub)) [
          | inl k ↦ rw (send_output, datahub_send_locked, t, k) refl
          | inr k ↦ rw (send_output, datahub_send_locked, t, k) refl
        ],
        r,
      )

  -- `datahub_send_f` of any text, also one that does not fit, sends the first `DATA_MAXLEN - 1` bytes of the
  -- text to the link, and returns 0 if `sendto` takes the datagram.
  pub send_f_lem :
      (s : Sender) (l : Link) (text : Bytes) (time : ℕ)
      → IsValid s.output
      → time < 2 ^ 64
      → (b : Bytes) × (out : Data) × (datahub_send_f W L s (some l) (some text) time
          ≡ some (result l b s.hub, after_send l b s.hub out))
        × ((other : Datalink) → Arrives b (take (data_maxlen - 1) text) time other)
  unfolding datahub_send_f
  send_f_lem s l text time v late =
      let out = (vprintf s.output (some text)).1 in
      let (b, e, r) =
        send_output_lem (record s { output = out }) l time (vprintf-IsValid text v) late in
      (
        b,
        set_timestamp out time,
        e,
        subst (λ t. (other : Datalink) → Arrives b t time other) (content-vprintf s.output text).0
            r,
      )

  -- A block of which at least `n` bytes are there is sent, cut at `DATA_MAXLEN` bytes.
  pub send_bin_lem :
      (s : Sender) (l : Link) (block : Bytes) (n time : ℕ)
      → n ≤ length block
      → IsValid s.output
      → time < 2 ^ 64
      → (b : Bytes) × (out : Data) × (datahub_send_bin W L s (some l) (some block) (pos n) time
          ≡ some (result l b s.hub, after_send l b s.hub out))
        × ((other : Datalink) → Arrives b (take (min n data_maxlen) block) time other)
  unfolding datahub_send_bin
  send_bin_lem s l block n time h v late =
      let (out, e, len, c) = content-set_data s.output block n h in
      let valid = set_data-IsValid (some block) (pos n) v e in
      let (b, k, r) = send_output_lem (record s { output = out }) l time valid late in
      (
        b,
        set_timestamp out time,
        ap (when_set (send_output W L (some l) time) s) e ∙ k,
        subst (λ t. (other : Datalink) → Arrives b t time other) c r,
      )

  -- The same for a block that is broadcast.
  pub broadcast_bin_lem :
      (s : Sender) (exclude : Option ℕ) (block : Bytes) (n time : ℕ)
      → n ≤ length block
      → IsValid s.output
      → IsApart s.hub.links
      → time < 2 ^ 64
      → (b : Bytes) × (out : Data) × (datahub_broadcast_bin W L s exclude (some block) (pos n) time
          ≡ some (pos 0, after W L exclude b s.hub out))
        × ((other : Datalink) → Arrives b (take (min n data_maxlen) block) time other)
  unfolding datahub_broadcast_bin
  broadcast_bin_lem s exclude block n time h v apart late =
      let (out, e, len, c) = content-set_data s.output block n h in
      let valid = set_data-IsValid (some block) (pos n) v e in
      let (b, k, r) =
        broadcast_output_lem W L (record s { output = out }) exclude time valid apart late in
      (
        b,
        set_timestamp out time,
        ap (when_set (broadcast_output W L exclude time) s) e ∙ k,
        subst (λ t. (other : Datalink) → Arrives b t time other) c r,
      )

  module _ (M : Membuf) (Z : Terminated M) where
    -- A string without control characters but tabs and line ends whose escaped text fits is sent to the link, and read back from the datagram.
    pub datahub_send_str-read :
        (s : Sender) (l : Link) (empty : M.Buf) (value : Bytes) (time : ℕ)
        → M.bytes empty ≡ []
        → IsPrintable (c_string value)
        → IsValid s.output
        → length (string_text M Z empty value) < data_maxlen
        → time < 2 ^ 64
        → (b : Bytes) × (out : Data) × (text : Bytes) × (datahub_send_str W L M Z s
              (some l)
              empty
              value
              time
            ≡ some (result l b s.hub, after_send l b s.hub out))
          × ((other : Datalink) → Arrives b (34 ∷ text) time other)
          × (read_string false text ≡ some (c_string value, []))
    unfolding datahub_send_str datahub_send_printed
    datahub_send_str-read s l empty value time e p v short late =
        let t = string_text M Z empty value in
        let out = (vprintf s.output (some t)).1 in
        let formats = content-vprintf s.output t in
        let (b, c, r) =
          send_output_lem (record s { output = out }) l time (vprintf-IsValid t v) late in
        (
          b,
          set_timestamp out time,
          c_string (M.bytes (escape_string M Z empty value)) ++ 34 ∷ [],
          ap (λ err. when_printed (send_output W L (some l) time) s (err, out)) (formats.1.1 short)
              ∙ c,
          subst (λ t'. (other : Datalink) → Arrives b t' time other)
              (formats.0 ∙ take_all (data_maxlen - 1) t (omega (arith, short))) r,
          read-escape_string M Z value [] empty e p,
        )
