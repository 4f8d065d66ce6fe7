-- ===== src/Datalink/Delivery.antt =====
-- librcom/src/datalink.c: from one end of a data link to the other.
use rcom.Data.Header.{timestamp-set_timestamp}
use rcom.Data.Datagram.{udp_read-datagram, datagram-content}
use rcom.Base.{
  arith, ◌∙◌, ◌-◌, ◌++◌, take_all, if◌then◌else◌, ◌↔◌, Bool, List, none, some, true, false, refl,
  ap, pos, negsuc, ◌≡◌, ◌∷◌, ◌<◌, ◌^◌, ℤ, ℕ, Bytes, length,
}
use rcom.Addr.{Addr}
use rcom.Data.{datagram, Data, data_maxlen, vprintf, set_timestamp, timestamp}
use rcom.Data.Bounds.{vprintf-IsValid, InRange, IsValid}
use rcom.Data.Content.{content-vprintf, content}
use rcom.Datalink.{
  with_sent, formatted, udp_socket_send, Datalink, Wire, wait_ok, datalink_send_f, datalink_read,
  datalink_send,
}

stamped-IsValid : (m : Data) (time : ℕ) → IsValid m → IsValid (set_timestamp m time)
unfolding set_timestamp
stamped-IsValid m time v = record {
  layout = record {
    seqnum_size = v.layout.seqnum_size;
    timestamp_size = refl;
    payload_size = v.layout.payload_size;
  };
  range = v.range;
}

stamped-content : (m : Data) (time : ℕ) → content (set_timestamp m time) ≡ content m
unfolding set_timestamp content
stamped-content m time = refl

range_pos : (len : ℤ) → InRange len → (n : ℕ) × (len ≡ pos n)
range_pos (pos n) v = (n, refl)
range_pos (negsuc n) v = absurd v

-- `udp_socket_send` of a valid packet
valid_datagram :
    {m : Data} → IsValid m → (n : ℕ) × (b : Bytes) × (m.len ≡ pos n) × (datagram m ≡ some b)
valid_datagram {m} v =
    let (n, e) = range_pos m.len v.range in
    (n, m.p.seqnum ++ (m.p.timestamp ++ content m), e, (datagram-content n v e).0)

success_iff : (b : Bool) → ((if b then pos 0 else negsuc 0) ≡ pos 0) ↔ (b ≡ true)
success_iff true = ((λ e. refl), (λ e. refl))
success_iff false = ((λ e. cc), (λ e. absurd (ground (arith, e))))

pub taken :
    (W : Wire) (sent : List (Addr × Bytes)) (addr : Addr) (m : Data) (b : Bytes)
    → datagram m ≡ some b
    → udp_socket_send W sent addr m
      ≡ some (if W.sendto ((addr, b) ∷ sent) then pos 0 else negsuc 0, (addr, b) ∷ sent)
unfolding udp_socket_send
taken W sent addr m b d = rw (udp_socket_send, d) refl

sent_lem :
    (W : Wire) (link : Datalink) (addr : Addr) (m : Data) (b : Bytes)
    → link.remote_addr ≡ some addr
    → datagram m ≡ some b
    → datalink_send W link m
      ≡ some (
        if W.sendto ((addr, b) ∷ link.sent) then pos 0 else negsuc 0,
        record link { sent = (addr, b) ∷ link.sent },
      )
unfolding datalink_send
sent_lem W link addr m b r d =
    ap
      (λ o. elim o [
        | none ↦ some (pos 0, link)
        | some a ↦ with_sent W link (udp_socket_send W link.sent a m)
      ])
      r
    ∙ ap (with_sent W link) (taken W link.sent addr m b d)

-- what a link that reads the datagram has
pub record Arrives (b text : Bytes) (time : ℕ) (other : Datalink) : Type 0 where
  pub returned : (datalink_read other (wait_ok (some b))).1 ≡ true
  pub whole : content (datalink_read other (wait_ok (some b))).0.input ≡ text
  pub timed : timestamp (datalink_read other (wait_ok (some b))).0.input ≡ time

pub stamped-Arrives :
    (m : Data) (time : ℕ)
    → IsValid m
    → time < 2 ^ 64
    → (b : Bytes) × (datagram (set_timestamp m time) ≡ some b)
      × ((other : Datalink) → Arrives b (content m) time other)
unfolding datalink_read
stamped-Arrives m time v late =
    let m' = set_timestamp m time in
    let valid = stamped-IsValid m time v in
    let (n, b, len, d) = valid_datagram valid in
    (
      b,
      d,
      (λ other.
          let (returned, sized, whole, numbered, timed) =
            udp_read-datagram other.input n b valid len d in
          record {
            returned = refl;
            whole = whole ∙ stamped-content m time;
            timed = timed ∙ (timestamp-set_timestamp m time late).0;
          }),
    )

-- A text of less than `DATA_MAXLEN` bytes that a link sends to its remote address goes out as one
-- datagram, and a link that reads this datagram has the text and the time of sending in its input,
-- whatever it held before. The result tells whether `sendto` took the datagram.
pub send_f-read :
    (W : Wire) (link other : Datalink) (addr : Addr) (text : Bytes) (time : ℕ)
    → IsValid link.out
    → link.remote_addr ≡ some addr
    → length text < data_maxlen
    → time < 2 ^ 64
    → (err : ℤ) × (link' : Datalink) × (b : Bytes) × (datalink_send_f W link (some text) time
        ≡ some (err, link'))
      × (link'.sent ≡ (addr, b) ∷ link.sent)
      × ((err ≡ pos 0) ↔ (W.sendto link'.sent ≡ true))
      × ((datalink_read other (wait_ok (some b))).1 ≡ true)
      × (content (datalink_read other (wait_ok (some b))).0.input ≡ text)
      × (timestamp (datalink_read other (wait_ok (some b))).0.input ≡ time)
unfolding datalink_send_f datalink_read
send_f-read W link other addr text time v r short late =
    let out = (vprintf link.out (some text)).1 in
    let formats = content-vprintf link.out text in
    let out' = set_timestamp out time in
    let (b, d, reads) = stamped-Arrives out time (vprintf-IsValid text v) late in
    let link' = record link { out = out' } in
    (
      if W.sendto ((addr, b) ∷ link.sent) then pos 0 else negsuc 0,
      record link' { sent = (addr, b) ∷ link.sent },
      b,
      ap (λ r. formatted W link time (r, out)) (formats.1.1 short)
          ∙ sent_lem W link' addr out' b r d,
      refl,
      success_iff (W.sendto ((addr, b) ∷ link.sent)),
      (reads other).returned,
      (reads other).whole ∙ formats.0 ∙ take_all (data_maxlen - 1) text (omega (arith, short)),
      (reads other).timed,
    )
