-- ===== src/Datahub/Delivered.antt =====
-- librcom/src/datahub.c: what a data link reads of the texts that a data hub broadcasts.
use rcom.Util.{escape_string}
use rcom.Data.{Data, set_timestamp, vprintf, data_maxlen, c_string}
use rcom.Data.Bounds.{IsValid, vprintf-IsValid}
use rcom.Data.Content.{content, content-vprintf}
use rcom.Datalink.{Wire, Datalink}
use rcom.Datalink.Delivery.{Arrives, stamped-Arrives}
use rcom.Rlib.{Lists, Membuf, Terminated}
use rcom.Util.Escape.{IsPrintable, read_string, read-escape_string}
use rcom.Datahub.{Hub, Link}
use rcom.Datahub.Broadcast.{IsApart, survivors, all_sent, broadcast_locked_lem}
use rcom.Datahub.Texts.{
  when_printed, Sender, broadcast_output, datahub_broadcast_f, datahub_broadcast_str, string_text,
}
use rcom.Base.{
  subst, le→leb, Option, some, false, [], ◌≡◌, ◌∷◌, ◌++◌, ◌<◌, ◌≤◌, ◌^◌, ◌-◌, ◌∙◌, ap, refl, pos,
  negsuc, ℕ, Bytes, length, take, take_all, arith,
}

module _ (W : Wire) (L : Lists Link) where
  -- the sender after a broadcast of the datagram `b`
  abbrev pub after : Option ℕ → Bytes → Hub → Data → Sender
  after exclude b hub output = record {
    hub = record hub {
      links = survivors W exclude b hub.links hub.sent;
      sent = all_sent W exclude b hub.links hub.sent;
    };
    output = output;
  }

  pub broadcast_output_lem :
      (s : Sender) (exclude : Option ℕ) (time : ℕ)
      → IsValid s.output
      → IsApart s.hub.links
      → time < 2 ^ 64
      → (b : Bytes) × (broadcast_output W L exclude time s
          ≡ some (pos 0, after exclude b s.hub (set_timestamp s.output time)))
        × ((other : Datalink) → Arrives b (content s.output) time other)
  unfolding broadcast_output
  broadcast_output_lem s exclude time v apart late =
      let (b, d, r) = stamped-Arrives s.output time v late in
      (
        b,
        rw (broadcast_output, broadcast_locked_lem W exclude b L s.hub s.output (some time) d apart)
            refl,
        r,
      )

  -- `datahub_broadcast_f` of any text, also one that does not fit, returns 0 and sends the first
  -- `DATA_MAXLEN - 1` bytes of the text to the links.
  pub broadcast_f_lem :
      (s : Sender) (exclude : Option ℕ) (text : Bytes) (time : ℕ)
      → IsValid s.output
      → IsApart s.hub.links
      → time < 2 ^ 64
      → (b : Bytes) × (out : Data) × (datahub_broadcast_f W L s exclude (some text) time
          ≡ some (pos 0, after exclude b s.hub out))
        × ((other : Datalink) → Arrives b (take (data_maxlen - 1) text) time other)
  unfolding datahub_broadcast_f
  broadcast_f_lem s exclude text time v apart late =
      let out = (vprintf s.output (some text)).1 in
      let (b, e, r) =
        broadcast_output_lem (record s { output = out }) exclude time (vprintf-IsValid text v) apart
          late in
      (
        b,
        set_timestamp out time,
        e,
        subst (λ t. (other : Datalink) → Arrives b t time other) (content-vprintf s.output text).0
            r,
      )

  module _ (M : Membuf) (Z : Terminated M) where
    -- A string whose escaped text fits is broadcast as one datagram to each link but the excluded one, in
    -- the order of the links, and the links that `sendto` refused are gone. A link that reads this
    -- datagram, whatever it held before, has the time of the broadcast and a text: a quote, and then what
    -- a reader of JSON strings reads as the string, up to its first zero. The string has no control
    -- character but tabs and line ends, and no two links lie at the same place.
    pub datahub_broadcast_str-read :
        (s : Sender) (exclude : Option ℕ) (empty : M.Buf) (value : Bytes) (time : ℕ)
        → M.bytes empty ≡ []
        → IsPrintable (c_string value)
        → IsValid s.output
        → IsApart s.hub.links
        → length (string_text M Z empty value) < data_maxlen
        → time < 2 ^ 64
        → (b : Bytes) × (out : Data) × (text : Bytes) × (datahub_broadcast_str W L M Z s exclude
              empty value time
            ≡ some (pos 0, after exclude b s.hub out))
          × ((other : Datalink) → Arrives b (34 ∷ text) time other)
          × (read_string false text ≡ some (c_string value, []))
    unfolding datahub_broadcast_str
    datahub_broadcast_str-read s exclude empty value time e p v apart short late =
        let t = string_text M Z empty value in
        let out = (vprintf s.output (some t)).1 in
        let formats = content-vprintf s.output t in
        let (b, c, r) =
          broadcast_output_lem (record s { output = out }) exclude time (vprintf-IsValid t v) apart
            late in
        (
          b,
          set_timestamp out time,
          c_string (M.bytes (escape_string M Z empty value)) ++ 34 ∷ [],
          ap (λ err. when_printed (broadcast_output W L exclude time) s (err, out))
                (formats.1.1 short)
              ∙ c,
          subst (λ t'. (other : Datalink) → Arrives b t' time other)
              (formats.0 ∙ take_all (data_maxlen - 1) t (omega (arith, short))) r,
          read-escape_string M Z value [] empty e p,
        )

    -- A string whose escaped text does not fit is not broadcast: the call returns -1, and the links and
    -- what was sent stay.
    pub broadcast_str_long :
        (s : Sender) (exclude : Option ℕ) (empty : M.Buf) (value : Bytes) (time : ℕ)
        → data_maxlen ≤ length (string_text M Z empty value)
        → (out : Data) × (datahub_broadcast_str W L M Z s exclude empty value time
            ≡ some (negsuc 0, record s { output = out }))
    unfolding datahub_broadcast_str vprintf
    broadcast_str_long s exclude empty value time long = (
      (vprintf s.output (some (string_text M Z empty value))).1,
      rw (vprintf, le→leb data_maxlen (length (string_text M Z empty value)) long) refl,
    )
