-- ===== src/Dump/Packets.antt =====
-- librcom/src/dump.c: the packets of a file, written and read back.
use rcom.Net.{octet}
use rcom.Data.{
  Data, datagram, datagram_of, udp_read, packet_bytes, packet_header, packet_maxlen, data_maxlen,
  seqnum, timestamp,
}
use rcom.Data.Bounds.{IsValid}
use rcom.Data.Content.{content}
use rcom.Data.Datagram.{datagram-content, udp_read-datagram}
use rcom.Dump.{read_data, big_endian, read_packet, dump_write_data}
use rcom.Base.{
  negsuc, ap, sym, false, ◌∙◌, drop-append_le, take-append_le, drop_all, take_all, length-append,
  drop, some-inj, le→ltb, lt→ltb, ltb, pos, ℕ, arith, some, ◌<◌, ◌≤◌, ◌^◌, ◌*◌, ◌+◌, ◌≡◌, ◌++◌,
  take, length, Bytes,
}

-- the length that the four bytes stand for
big_endian_value :
    (n : ℕ)
    → n < 2 ^ 32
    → octet n 24 * 2 ^ 24 + octet n 16 * 2 ^ 16 + octet n 8 * 2 ^ 8 + octet n 0 ≡ n
big_endian_value n h = omega arith

-- Storing the bytes is what `udp_socket_read` does with a datagram.
read_packet-udp_read :
    (m : Data) (bytes rest : Bytes)
    → length bytes ≤ data_maxlen
    → read_packet m (length bytes) (bytes ++ rest) ≡ (pos 0, (udp_read m (some bytes)).1, rest)
unfolding read_packet udp_read
read_packet-udp_read m bytes rest short =
    let fits : ltb data_maxlen (length bytes) ≡ false = le→ltb data_maxlen (length bytes) short in
    let present : ltb (length (bytes ++ rest)) (length bytes) ≡ false =
      le→ltb (length (bytes ++ rest)) (length bytes) (omega (arith, length-append bytes rest)) in
    let front : take (length bytes) (bytes ++ rest) ≡ bytes =
      take-append_le (length bytes) bytes rest (omega arith)
      ∙ take_all (length bytes) bytes (omega arith) in
    let back : drop (length bytes) (bytes ++ rest) ≡ rest =
      drop-append_le (length bytes) bytes rest (omega arith)
      ∙ ap (λ t. t ++ rest) (drop_all (length bytes) bytes (omega arith)) in
    let all : take packet_maxlen bytes ≡ bytes = take_all packet_maxlen bytes (omega arith) in
    rw (read_packet, fits) (rw present (rw (front, back, all)))

read_packet_long :
    (m : Data) (n : ℕ) (file : Bytes) → data_maxlen < n → read_packet m n file ≡ (negsuc 0, m, file)
unfolding read_packet
read_packet_long m n file h = rw (read_packet, lt→ltb data_maxlen n h)

-- what is written for a valid packet
write_data-datagram :
    (m : Data) (n : ℕ)
    → m.len ≡ pos n
    → (bytes : Bytes) × (dump_write_data m ≡ some (big_endian (packet_header + n) ++ bytes))
      × (datagram m ≡ some bytes)
unfolding dump_write_data datagram datagram_of
write_data-datagram m n e =
    (take (packet_header + n) (packet_bytes m.p), rw (dump_write_data, e), rw (datagram, e))

-- the file behind the four bytes of a length
read_data-big_endian :
    (m : Data) (n : ℕ) (file : Bytes)
    → n < 2 ^ 32
    → read_data m (big_endian n ++ file) ≡ read_packet m n file
unfolding read_data
read_data-big_endian m n file h = ap (λ k. read_packet m k file) (big_endian_value n h)

-- A valid packet of up to 1408 bytes that `dump_write_data` adds to a file is read back by
-- `dump_read_data`, into any packet, with its length, its bytes, its sequence number and its timestamp,
-- and what follows it stays in the file.
pub read_data-write_data :
    {m : Data} (m' : Data) (n : ℕ) (written rest : Bytes)
    → IsValid m
    → m.len ≡ pos n
    → packet_header + n ≤ data_maxlen
    → dump_write_data m ≡ some written
    → let (err, got, left) = read_data m' (written ++ rest) in
      (err ≡ pos 0)
      × (got.len ≡ m.len)
      × (content got ≡ content m)
      × (seqnum got ≡ seqnum m)
      × (timestamp got ≡ timestamp m)
      × (left ≡ rest)
read_data-write_data {m} m' n written rest v e short w =
    let (bytes, wrote, sent) = write_data-datagram m n e in
    let (shape, size, _) = datagram-content n v e in
    let size' : length bytes ≡ packet_header + n = ap length (some-inj (sym sent ∙ shape)) ∙ size in
    let same : written ≡ big_endian (packet_header + n) ++ bytes = some-inj (sym w ∙ wrote) in
    let run : read_data m' (written ++ rest) ≡ (pos 0, (udp_read m' (some bytes)).1, rest) =
      ap (λ t. read_data m' (t ++ rest)) same
      ∙ read_data-big_endian m' (packet_header + n) (bytes ++ rest) (omega arith)
      ∙ ap (λ k. read_packet m' k (bytes ++ rest)) (sym size')
      ∙ read_packet-udp_read m' bytes rest (omega (arith, size')) in
    let (_, l, c, s, t) = udp_read-datagram m' n bytes v e sent in
    (
      ap (λ r. r.0) run,
      ap (λ r. r.1.len) run ∙ l,
      ap (λ r. content r.1) run ∙ c,
      ap (λ r. seqnum r.1) run ∙ s,
      ap (λ r. timestamp r.1) run ∙ t,
      ap (λ r. r.2) run,
    )

-- A packet of 1409 to 1420 bytes, which is valid, is written and then refused by `dump_read_data`.
pub read_data_large :
    (m m' : Data) (n : ℕ) (rest : Bytes)
    → m.len ≡ pos n
    → data_maxlen < packet_header + n
    → n ≤ data_maxlen
    → (written : Bytes) × (dump_write_data m ≡ some written)
      × ((read_data m' (written ++ rest)).0 ≡ negsuc 0)
      × ((read_data m' (written ++ rest)).1 ≡ m')
read_data_large m m' n rest e long top =
    let (bytes, wrote, _) = write_data-datagram m n e in
    let refused : read_packet m' (packet_header + n) (bytes ++ rest)
        ≡ (negsuc 0, m', bytes ++ rest) =
      read_packet_long m' (packet_header + n) (bytes ++ rest) long in
    let run = read_data-big_endian m' (packet_header + n) (bytes ++ rest) (omega arith) ∙ refused in
    (big_endian (packet_header + n) ++ bytes, wrote, ap (λ r. r.0) run, ap (λ r. r.1) run)
