-- ===== src/Data.antt =====
-- librcom/src/data.c and librcom/include/rcom/data.h: the packets of the data hubs and data links,
-- and the two functions of librcom/src/net.c that send and receive one. `data_t` is a length beside
-- a packed header and a block of `DATA_MAXLEN` bytes. `none` stands for undefined behaviour: a
-- `memcpy` of a negative size or past the source, or an index outside the block.
pub mod Bounds
pub mod Header
pub mod Content
pub mod Datagram
mod Tests
use Prim.Native.Nat.{bit_or}
use rcom.Base.{
  ℕ, zero, suc, ◌+◌, ◌-◌, ◌*◌, ◌/◌, ◌%◌, ◌^◌, ℤ, pos, negsuc, Option, none, some, [], ◌∷◌, ◌++◌,
  ltb, leb, ◌==◌, if◌then◌else◌, length, get_or, set, take, drop, replicate, Bytes,
}

abbrev pub packet_maxlen : ℕ
packet_maxlen = 1432

abbrev pub packet_header : ℕ
packet_header = 12

abbrev pub data_maxlen : ℕ
data_maxlen = 1420

-- `packet_t`: 4, 8 and `data_maxlen` bytes.
pub record Packet : Type 0 where
  pub seqnum : Bytes
  pub timestamp : Bytes
  pub payload : Bytes

-- `data_t`
pub record Data : Type 0 where
  pub len : ℤ
  pub p : Packet

-- `new_data`; `r_new` gives memory of zeros.
unfoldable pub new_data : Data
new_data = record {
  len = pos 0;
  p = record {
    seqnum = replicate 4 0;
    timestamp = replicate 8 0;
    payload = replicate data_maxlen 0;
  };
}

-- `data_set_data`; the source is absent for a null pointer.
pub set_data : Data → Option Bytes → ℤ → Option Data
set_data m none len = some m
set_data m (some s) (negsuc n) = none
set_data m (some s) (pos n) =
    let n' = (if ltb data_maxlen n then data_maxlen else n) in
    if ltb (length s) n'
    then none
    else some (record {
      len = pos n';
      p = record {
        seqnum = m.p.seqnum;
        timestamp = m.p.timestamp;
        payload = take n' s ++ drop n' m.p.payload;
      };
    })

-- `data_set_len`
unfoldable pub set_len : Data → ℤ → Data
set_len m (negsuc n) = record m { len = pos 0 }
set_len m (pos n) = record m { len = pos (if ltb data_maxlen n then data_maxlen else n) }

-- a write of one byte into the block
abbrev pub poke : Data → ℕ → ℕ → Packet
poke m i b = record {
  seqnum = m.p.seqnum;
  timestamp = m.p.timestamp;
  payload = set m.p.payload i b;
}

append_zero_at : Data → ℤ → Option Data
append_zero_at m (negsuc n) = none
append_zero_at m (pos n) =
    if leb n (data_maxlen - 1)
    then some (record { len = pos (n + 1); p = poke m n 0 })
    else some (record m { p = poke m (data_maxlen - 1) 0 })

-- `data_append_zero`
pub append_zero : Data → Option Data
unfolding append_zero_at
append_zero m = append_zero_at m m.len

-- `data_vprintf`, given the text that `vsnprintf` formats, or its failure, which returns -1 (the
-- block is then taken to be untouched). `vsnprintf` stores at most `DATA_MAXLEN - 1` bytes and a
-- zero, and returns the length of the whole text.
unfoldable pub vprintf : Data → Option Bytes → ℤ × Data
vprintf m none = (pos 0, record m { len = negsuc 0 })
vprintf m (some text) =
    let stored = take (data_maxlen - 1) text ++ (0 ∷ []) in
    let p : Packet = record {
      seqnum = m.p.seqnum;
      timestamp = m.p.timestamp;
      payload = stored ++ drop (length stored) m.p.payload;
    } in
    if leb data_maxlen (length text)
    then (negsuc 0, record { len = pos (data_maxlen - 1); p = p })
    else (pos 0, record { len = pos (length text); p = p })

-- A C string: the bytes before the first zero.
abbrev pub c_string : Bytes → Bytes
c_string [] = []
c_string (b ∷ bs) = if b == 0 then [] else b ∷ c_string bs

abbrev pub with_text : Option Data → Option (Data × Bytes)
with_text none = none
with_text (some m) = some (m, c_string m.p.payload)

-- `data_parse`, up to the call of the JSON parser: the new state, and the text that the parser is
-- given.
pub parse_text : Data → Option (Data × Bytes)
unfolding append_zero
parse_text m = with_text (append_zero m)

-- `(n & (0xff << k)) >> k`
abbrev pub byte_of : ℕ → ℕ → ℕ
byte_of n k = n / 2 ^ k % 256

-- `data_set_seqnum`
pub set_seqnum : Data → ℕ → Data
set_seqnum m n = record m {
  p = record {
    seqnum = byte_of n 24 ∷ byte_of n 16 ∷ byte_of n 8 ∷ byte_of n 0 ∷ [];
    timestamp = m.p.timestamp;
    payload = m.p.payload;
  };
}

-- `data_set_timestamp`, given what the clock returns.
unfoldable pub set_timestamp : Data → ℕ → Data
set_timestamp m t = record m {
  p = record {
    seqnum = m.p.seqnum;
    timestamp =
        byte_of t 56
        ∷ byte_of t 48
        ∷ byte_of t 40
        ∷ byte_of t 32
        ∷ byte_of t 24
        ∷ byte_of t 16
        ∷ byte_of t 8
        ∷ byte_of t 0
        ∷ [];
    payload = m.p.payload;
  };
}

-- `data_clear_timestamp`
pub clear_timestamp : Data → Data
clear_timestamp m = record m {
  p = record { seqnum = m.p.seqnum; timestamp = replicate 8 0; payload = m.p.payload };
}

-- `p[i] << k`
abbrev pub shifted : Bytes → ℕ → ℕ → ℕ
shifted p i k = get_or p i 0 * 2 ^ k

-- `data_seqnum`
pub seqnum : Data → ℕ
seqnum m =
    let p = m.p.seqnum in
    bit_or (bit_or (bit_or (shifted p 0 24) (shifted p 1 16)) (shifted p 2 8)) (get_or p 3 0)

-- `data_timestamp`
pub timestamp : Data → ℕ
timestamp m =
    let p = m.p.timestamp in
    let high =
      bit_or (bit_or (bit_or (shifted p 0 56) (shifted p 1 48)) (shifted p 2 40))
        (shifted p 3 32) in
    bit_or (bit_or (bit_or (bit_or high (shifted p 4 24)) (shifted p 5 16)) (shifted p 6 8))
      (get_or p 7 0)

-- `packet_t` as it lies in memory, without padding.
abbrev pub packet_bytes : Packet → Bytes
packet_bytes p = p.seqnum ++ (p.timestamp ++ p.payload)

unfoldable pub datagram_of : Data → ℤ → Option Bytes
datagram_of m (pos n) = some (take (packet_header + n) (packet_bytes m.p))
datagram_of m (negsuc n) =
    if ltb n packet_header then some (take (packet_header - n - 1) (packet_bytes m.p)) else none

-- The datagram that `udp_socket_send` hands to `sendto`.
unfoldable pub datagram : Data → Option Bytes
unfolding datagram_of
datagram m = datagram_of m m.len

-- `n - PACKET_HEADER`
abbrev pub payload_len : ℕ → ℤ
payload_len n =
    if leb packet_header n then pos (n - packet_header) else negsuc (packet_header - n - 1)

-- the packet's memory, split into its fields
abbrev pub packet_of : Bytes → Packet
packet_of block = record {
  seqnum = take 4 block;
  timestamp = take 8 (drop 4 block);
  payload = drop 12 block;
}

-- `udp_socket_read`, given the datagram or the failure of `recvfrom`, which stores what fits in
-- `PACKET_MAXLEN` bytes over the old packet and returns the number of bytes stored.
unfoldable pub udp_read : Data → Option Bytes → ℤ × Data
unfolding set_len
udp_read m none = (negsuc 0, m)
udp_read m (some bytes) =
    let got = take packet_maxlen bytes in
    let block = got ++ drop (length got) (packet_bytes m.p) in
    (pos 0, set_len (record m { p = packet_of block }) (payload_len (length got)))
