-- ===== src/Data/Datagram.antt =====
-- net.c: what `udp_socket_send` puts on the wire, `udp_socket_read` takes off it.
use rcom.Base.{
  ℕ, ◌+◌, ◌-◌, ◌≤◌, ◌≡◌, sym, ap, ◌∙◌, pos, some, ◌++◌, arith, le→ltb, le→leb, some-inj, length,
  take, drop, Bytes, length-append, length-take, take_all, take-append_le, take-append_ge,
  drop-append_ge, append_assoc, subst,
}
use rcom.Data.{
  Data, data_maxlen, packet_maxlen, packet_header, packet_bytes, packet_of, payload_len, set_len,
  datagram, datagram_of, udp_read, seqnum, timestamp,
}
use rcom.Data.Bounds.{InRange, IsValid}
use rcom.Data.Content.{content, content_of}

module _ (s t : Bytes) (hs : length s ≡ 4) (ht : length t ≡ 8) where
  take_header : (n : ℕ) (p : Bytes) → take (12 + n) (s ++ (t ++ p)) ≡ s ++ (t ++ take n p)
  take_header n p =
      let e : 12 + n ≡ length s + (length t + n) = omega (arith, hs, ht) in
      ap (λ k. take k (s ++ (t ++ p))) e
      ∙ take-append_ge (length t + n) s (t ++ p)
      ∙ ap (λ b. s ++ b) (take-append_ge n t p)

  packet_of_header :
      (p : Bytes) → packet_of (s ++ (t ++ p)) ≡ record { seqnum = s; timestamp = t; payload = p }
  packet_of_header p =
      let e4 : drop 4 (s ++ (t ++ p)) ≡ t ++ p =
        (let e : 4 ≡ length s + 0 = omega (arith, hs) in
          ap (λ k. drop k (s ++ (t ++ p))) e ∙ drop-append_ge 0 s (t ++ p)) in
      let e12 : drop 12 (s ++ (t ++ p)) ≡ p =
        (let e : 12 ≡ length s + (length t + 0) = omega (arith, hs, ht) in
          ap (λ k. drop k (s ++ (t ++ p))) e
          ∙ drop-append_ge (length t + 0) s (t ++ p)
          ∙ drop-append_ge 0 t p) in
      let es : take 4 (s ++ (t ++ p)) ≡ s =
        take-append_le 4 s (t ++ p) (omega (arith, hs)) ∙ take_all 4 s (omega (arith, hs)) in
      let et : take 8 (drop 4 (s ++ (t ++ p))) ≡ t =
        ap (take 8) e4
        ∙ take-append_le 8 t p (omega (arith, ht))
        ∙ take_all 8 t (omega (arith, ht)) in
      λ i. record { seqnum = es i; timestamp = et i; payload = e12 i }

-- The datagram of a valid packet is its two header fields and the bytes carried; it is as long as
-- the call of `sendto` says, and fits the receiver's buffer.
pub datagram-content :
    {m : Data} (n : ℕ)
    → IsValid m
    → m.len ≡ pos n
    → (datagram m ≡ some (m.p.seqnum ++ (m.p.timestamp ++ content m)))
      × (length (m.p.seqnum ++ (m.p.timestamp ++ content m)) ≡ packet_header + n)
      × (packet_header + n ≤ packet_maxlen)
unfolding datagram content datagram_of
datagram-content {m} n v e =
    let r : InRange (pos n) = subst InRange e v.range in
    let c : content m ≡ take n m.p.payload = ap (content_of m.p.payload) e in
    (
      ap (datagram_of m) e
          ∙ ap some (
              take_header m.p.seqnum m.p.timestamp v.layout.seqnum_size v.layout.timestamp_size n
                m.p.payload
              ∙ ap (λ b. m.p.seqnum ++ (m.p.timestamp ++ b)) (sym c)),
      omega (
        arith,
        v.layout,
        ap length c,
        length-take n m.p.payload,
        length-append m.p.seqnum (m.p.timestamp ++ content m),
        length-append m.p.timestamp (content m),
      ),
      omega arith,
    )

payload_len_lem : (k : ℕ) → payload_len (12 + k) ≡ pos k
payload_len_lem k =
    let e : 12 + k - 12 ≡ k = omega arith in rw (le→leb 12 (12 + k) (omega arith), e)

received :
    (m : Data) (s t c : Bytes)
    → length s ≡ 4
    → length t ≡ 8
    → length c ≤ data_maxlen
    → udp_read m (some (s ++ (t ++ c))) ≡ (
      pos 0,
      record {
        len = pos (length c);
        p = record {
          seqnum = s;
          timestamp = t;
          payload = c ++ drop (length (s ++ (t ++ c))) (packet_bytes m.p);
        };
      },
    )
unfolding udp_read set_len
received m s t c hs ht hc =
    let bytes = s ++ (t ++ c) in
    let rest = drop (length bytes) (packet_bytes m.p) in
    let size : length bytes ≡ 12 + length c =
      omega (arith, hs, ht, length-append s (t ++ c), length-append t c) in
    let whole : take packet_maxlen bytes ≡ bytes =
      take_all packet_maxlen bytes (omega (arith, size)) in
    let joined : bytes ++ rest ≡ s ++ (t ++ (c ++ rest)) =
      append_assoc s (t ++ c) rest ∙ ap (λ b. s ++ b) (append_assoc t c rest) in
    let fields = packet_of_header s t hs ht (c ++ rest) in
    let len_eq : payload_len (length bytes) ≡ pos (length c) =
      ap payload_len size ∙ payload_len_lem (length c) in
    let short = le→ltb data_maxlen (length c) hc in rw (whole, joined, fields, len_eq) (rw short)

-- Whatever packet the receiver held before, a datagram sent from a valid packet gives it the
-- sender's sequence number, timestamp, length and bytes.
pub udp_read-datagram :
    {m : Data} (m' : Data) (n : ℕ) (bytes : Bytes)
    → IsValid m
    → m.len ≡ pos n
    → datagram m ≡ some bytes
    → let (ret, got) = udp_read m' (some bytes) in
      (ret ≡ pos 0)
      × (got.len ≡ m.len)
      × (content got ≡ content m)
      × (seqnum got ≡ seqnum m)
      × (timestamp got ≡ timestamp m)
unfolding seqnum timestamp content
udp_read-datagram {m} m' n bytes v e d =
    let (sent, size, fits) = datagram-content n v e in
    let same : bytes ≡ m.p.seqnum ++ (m.p.timestamp ++ content m) = some-inj (sym d ∙ sent) in
    let l : length (content m) ≡ n = omega (
      arith,
      v.layout,
      size,
      length-append m.p.seqnum (m.p.timestamp ++ content m),
      length-append m.p.timestamp (content m),
    ) in
    let got = (udp_read m' (some bytes)).1 in
    let eq =
      ap (λ b. udp_read m' (some b)) same
      ∙ received m' m.p.seqnum m.p.timestamp (content m) v.layout.seqnum_size
          v.layout.timestamp_size (omega (arith, l)) in
    let front : (x : Bytes) → take (length (content m)) (content m ++ x) ≡ content m = (λ x.
      take-append_le (length (content m)) (content m) x (omega arith)
      ∙ take_all (length (content m)) (content m) (omega arith)) in
    (
      ap (λ q. q.0) eq,
      ap (λ q. q.1.len) eq ∙ ap pos l ∙ sym e,
      ap (λ q. content q.1) eq ∙ front _,
      ap (λ q. seqnum q.1) eq,
      ap (λ q. timestamp q.1) eq,
    )
