-- ===== src/Dump/Tests.antt =====
-- librcom/src/dump.c: a packet that is recorded, the head of a file, and the theorems on them.
use rcom.Dump.Packets.{read_data-write_data, read_data_large}
use rcom.Dump.Headers.{open-header}
use rcom.Rlib.{list_strings}
use rcom.Registry.{type_datahub}
use rcom.Data.{Data, new_data, seqnum, timestamp}
use rcom.Data.Content.{content}
use rcom.Data.Bounds.{new-IsValid}
use rcom.Dump.{big_endian, dump_read_data, dump_header, read_data, dump_open, dump_write_data, Dump}
use rcom.Base.{
  negsuc, pos, ℕ, arith, List, none, some, [], ◌≡◌, ◌∷◌, ◌++◌, replicate, Bytes, refl, codes,
}

read_data-write_data_example :
    let (err, got, left) = read_data new_data ((big_endian 12 ++ replicate 12 0) ++ (7 ∷ [])) in
    (err ≡ pos 0)
    × (got.len ≡ new_data.len)
    × (content got ≡ content new_data)
    × (seqnum got ≡ seqnum new_data)
    × (timestamp got ≡ timestamp new_data)
    × (◌≡◌ {A = List ℕ} left (7 ∷ []))
unfolding dump_write_data new_data
read_data-write_data_example =
    read_data-write_data {m = new_data} new_data 0 (big_endian 12 ++ replicate 12 0) (7 ∷ [])
      new-IsValid refl (omega arith) refl

-- a packet of 1410 bytes
abbrev large : Data
large = record new_data { len = pos 1410 }

read_data_large_example :
    (written : Bytes) × (dump_write_data large ≡ some written)
    × ((read_data new_data (written ++ 7 ∷ [])).0 ≡ negsuc 0)
    × ((read_data new_data (written ++ 7 ∷ [])).1 ≡ new_data)
read_data_large_example =
    read_data_large large new_data 1410 (7 ∷ []) refl (omega arith) (omega arith)

open-header_example :
    (d : Dump) × (dump_open list_strings
        (dump_header (codes "cam") type_datahub (codes "video") (codes "image/jpeg") ++ [])
      ≡ some d)
    × (d.name ≡ codes "cam")
    × (d.kind ≡ type_datahub)
    × (d.topic ≡ codes "video")
    × (d.mimetype ≡ codes "image/jpeg")
    × (dump_read_data d new_data ≡ none)
open-header_example =
    open-header list_strings (codes "cam") (codes "video") (codes "image/jpeg") [] type_datahub
      new_data (ground arith, omega arith) (ground arith, omega arith) (ground arith, omega arith)
      refl
