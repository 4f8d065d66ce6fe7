-- ===== src/Data/Tests.antt =====
-- Packets at concrete inputs.
use rcom.Data.Datagram.{datagram-content}
use rcom.Base.{
  ◌≤◌, ◌+◌, ◌<◌, length, ◌++◌, ◌↔◌, ◌≡◌, ◌-◌, ◌^◌, refl, pos, some, [], ◌∷◌, arith, take, replicate,
  Bytes, min,
}
use rcom.Data.{
  vprintf, datagram, packet_header, packet_maxlen, Data, data_maxlen, set_data, append_zero,
  set_seqnum, set_timestamp, clear_timestamp, seqnum, timestamp, udp_read,
}
use rcom.Data.Bounds.{
  vprintf-IsValid, IsValid, set_data-IsValid, append_zero-IsValid, udp_read-IsValid,
}
use rcom.Data.Header.{seqnum-set_seqnum, timestamp-set_timestamp}
use rcom.Data.Content.{content, content-set_data, content-vprintf}

abbrev hello : Bytes
hello = b'h' ∷ b'i' ∷ []

-- a packet that carries `hello`
abbrev greeting : Data
greeting = record {
  len = pos 2;
  p = record {
    seqnum = 0 ∷ 0 ∷ 1 ∷ 2 ∷ [];
    timestamp = replicate 8 7;
    payload = b'h' ∷ b'i' ∷ replicate 1418 0;
  };
}

greeting-IsValid : IsValid greeting
greeting-IsValid = record {
  layout = record { seqnum_size = refl; timestamp_size = refl; payload_size = refl };
  range = omega arith;
}

seqnum_greeting : seqnum greeting ≡ 258
unfolding seqnum
seqnum_greeting = refl

-- `greeting` with its first byte replaced
abbrev replaced : Data
replaced = record {
  len = pos 1;
  p = record {
    seqnum = 0 ∷ 0 ∷ 1 ∷ 2 ∷ [];
    timestamp = replicate 8 7;
    payload = b'x' ∷ b'i' ∷ replicate 1418 0;
  };
}

set_data-IsValid_example : IsValid replaced
unfolding set_data
set_data-IsValid_example = set_data-IsValid (some (b'x' ∷ [])) (pos 1) greeting-IsValid refl

append_zero-IsValid_example : (m : Data) × (append_zero greeting ≡ some m) × IsValid m
append_zero-IsValid_example = append_zero-IsValid greeting-IsValid

udp_read-IsValid_example : IsValid (udp_read greeting (some hello)).1
udp_read-IsValid_example = udp_read-IsValid (some hello) greeting-IsValid

seqnum-set_seqnum_example : seqnum (set_seqnum greeting 0xdeadbeef) ≡ 0xdeadbeef
seqnum-set_seqnum_example = seqnum-set_seqnum greeting 0xdeadbeef (omega arith)

timestamp-set_timestamp_example :
    (timestamp (set_timestamp greeting (2 ^ 64 - 2)) ≡ 2 ^ 64 - 2)
    × (timestamp (clear_timestamp (set_timestamp greeting (2 ^ 64 - 2))) ≡ 0)
timestamp-set_timestamp_example = timestamp-set_timestamp greeting (2 ^ 64 - 2) (omega arith)

content-set_data_example :
    (m : Data) × (set_data greeting (some hello) (pos 1) ≡ some m)
    × (m.len ≡ pos (min 1 data_maxlen))
    × (content m ≡ take (min 1 data_maxlen) hello)
content-set_data_example = content-set_data greeting hello 1 (omega arith)

content-vprintf_example :
    (content (vprintf greeting (some hello)).1 ≡ take (data_maxlen - 1) hello)
    × ((vprintf greeting (some hello)).0 ≡ pos 0 ↔ length hello < data_maxlen)
content-vprintf_example = content-vprintf greeting hello

vprintf-IsValid_example : IsValid (vprintf greeting (some hello)).1
vprintf-IsValid_example = vprintf-IsValid hello greeting-IsValid

abbrev sent : Bytes
sent = 0 ∷ 0 ∷ 1 ∷ 2 ∷ 7 ∷ 7 ∷ 7 ∷ 7 ∷ 7 ∷ 7 ∷ 7 ∷ 7 ∷ hello

datagram-content_example :
    (datagram greeting ≡ some (greeting.p.seqnum ++ (greeting.p.timestamp ++ content greeting)))
    × (length (greeting.p.seqnum ++ (greeting.p.timestamp ++ content greeting)) ≡ packet_header + 2)
    × (packet_header + 2 ≤ packet_maxlen)
datagram-content_example = datagram-content 2 greeting-IsValid refl
