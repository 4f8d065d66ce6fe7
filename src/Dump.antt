-- ===== src/Dump.antt =====
-- librcom/src/dump.c: the files of recorded packets. A file is its bytes; `fopen` and `fwrite` succeed, and
-- memory does not run out. The functions on the directory, and on the identifier that is replayed, only
-- store a value.
pub mod Packets
pub mod Headers
mod Tests
use rcom.Rlib.{Strings}
use rcom.Net.{octet}
use rcom.Registry.{EntryType}
use rcom.Registry.Types.{registry_type_to_str, registry_str_to_type}
use rcom.Data.{Data, packet_bytes, packet_of, payload_len, set_len, packet_header, data_maxlen}
use rcom.Base.{
  negsuc, pos, ℕ, Option, none, some, suc, zero, [], ◌^◌, ◌*◌, ◌-◌, ◌+◌, ◌∷◌, ◌++◌, ℤ, drop, take,
  length, if◌then◌else◌, ◌==◌, ltb, Bytes, refl,
}

-- `fp` is what is left to read of the file, none where the field is NULL.
pub record Dump : Type 0 where
  pub fp : Option Bytes
  pub name : Bytes
  pub kind : EntryType
  pub topic : Bytes
  pub mimetype : Bytes

-- the text that `dump_create` prints
unfoldable pub dump_header : Bytes → EntryType → Bytes → Bytes → Bytes
dump_header name kind topic mimetype =
    name ++ 10 ∷ (registry_type_to_str kind ++ 10 ∷ (topic ++ 10 ∷ (mimetype ++ 10 ∷ [])))

abbrev pub after_char : ℕ → Option (Bytes × Bytes) → Bytes × Bytes
after_char c none = (c ∷ [], [])
after_char c (some (line, rest)) = (c ∷ line, rest)

-- `fgets` for a block of 128 bytes, at the end of the file none: the line without its line feed, as the
-- calls of `strchr` leave it, and the rest; `room` counts what still fits.
-- The lines have no zero byte, at which the C would cut them.
unfoldable pub fgets : ℕ → Bytes → Option (Bytes × Bytes)
fgets room [] = none
fgets zero (c ∷ s) = some ([], c ∷ s)
fgets (suc room) (c ∷ s) =
    let more = some (after_char c (fgets room s)) in if c == 10 then some ([], s) else more

infixl 5 ◌>>=◌
abbrev pub ◌>>=◌ : {A B : Type 0} → Option A → (A → Option B) → Option B
none >>= f = none
some a >>= f = f a

-- `dump_open` of a file. The file pointer stays in a local variable: the field is NULL.
unfoldable pub dump_open : Strings → Bytes → Option Dump
dump_open S file = do
  name ← fgets 127 file
  kind ← fgets 127 name.1
  topic ← fgets 127 kind.1
  mimetype ← fgets 127 topic.1
  some (record {
    fp = none;
    name = name.0;
    kind = registry_str_to_type S kind.0;
    topic = topic.0;
    mimetype = mimetype.0;
  })

-- `PACKET_HEADER + data_len(data)` where it is not negative
abbrev pub dump_length : ℤ → Option ℕ
dump_length (pos n) = some (packet_header + n)
dump_length (negsuc k) = if ltb k packet_header then some (packet_header - 1 - k) else none

-- the four bytes of a length, the high one first
abbrev pub big_endian : ℕ → Bytes
big_endian n = octet n 24 ∷ octet n 16 ∷ octet n 8 ∷ octet n 0 ∷ []

-- What `dump_write_data` adds to the file.
unfoldable pub dump_write_data : Data → Option Bytes
dump_write_data m = elim (dump_length m.len) [
  | none ↦ none
  | some n ↦ some (big_endian n ++ take n (packet_bytes m.p))
]

-- the packet with bytes read over its memory
abbrev pub overwritten : Data → Bytes → Data
overwritten m got = record m { p = packet_of (got ++ drop (length got) (packet_bytes m.p)) }

-- what follows the length in `dump_read_data`: its value, the packet and the rest of the file
unfoldable pub read_packet : Data → ℕ → Bytes → ℤ × Data × Bytes
read_packet m n file =
    if ltb data_maxlen n
    then (negsuc 0, m, file)
    else if ltb (length file) n
    then (negsuc 0, overwritten m file, [])
    else (pos 0, set_len (overwritten m (take n file)) (payload_len n), drop n file)

-- `dump_read_data` on a file; the bits of the four bytes do not overlap, so their sum is taken
unfoldable pub read_data : Data → Bytes → ℤ × Data × Bytes
unfolding read_packet
read_data m (a ∷ b ∷ c ∷ d ∷ file) = read_packet m (a * 2 ^ 24 + b * 2 ^ 16 + c * 2 ^ 8 + d) file
read_data m _ = (negsuc 0, m, [])

-- `dump_read_data`, none where it reads through a file pointer that is NULL
unfoldable pub dump_read_data : Dump → Data → Option (ℤ × Data × Dump)
unfolding read_data
dump_read_data dump m = elim dump.fp [
  | none ↦ none
  | some file ↦
      let (err, m', rest) = read_data m file in some (err, m', record dump { fp = some rest })
]
