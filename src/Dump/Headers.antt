-- ===== src/Dump/Headers.antt =====
-- librcom/src/dump.c: the head of a file, and what becomes of a file that is opened.
use rcom.Data.{Data}
use rcom.Registry.{
  EntryType, is_negative, type_none, type_any, type_datalink, type_datahub, type_messagelink,
  type_messagehub, type_service, type_streamer, type_streamerlink,
}
use rcom.Rlib.{Strings}
use rcom.Registry.Types.{registry_type_to_str, registry_str_to_type, str_to_type-type_to_str}
use rcom.Dump.{dump_read_data, dump_header, after_char, fgets, dump_open, Dump}
use rcom.Base.{
  ◌∙◌, append_assoc, ℕ, arith, ap, none, some, suc, zero, false, [], ◌<◌, ◌≡◌, ◌∷◌, ◌++◌, All,
  length, ◌==◌, Bytes, refl,
}

-- a text that is read as one line
abbrev pub IsField : Bytes → Type 0
IsField s = All (λ c. (c == 10) ≡ false) s × (length s < 127)

fgets-line :
    (room : ℕ) (s rest : Bytes)
    → All (λ c. (c == 10) ≡ false) s
    → length s < room
    → fgets room (s ++ 10 ∷ rest) ≡ some (s, rest)
unfolding fgets
fgets-line zero s rest v h = absurd (omega arith)
fgets-line (suc room) [] rest v h = refl
fgets-line (suc room) (c ∷ s) rest v h =
    rw v.0 (ap (λ x. some (after_char c x)) (fgets-line room s rest v.1 (omega arith)))

type-IsField : (kind : EntryType) → IsField (registry_type_to_str kind)
unfolding registry_type_to_str
type-IsField type_none = (ground arith, omega arith)
type-IsField type_any = (ground arith, omega arith)
type-IsField type_datalink = (ground arith, omega arith)
type-IsField type_datahub = (ground arith, omega arith)
type-IsField type_messagelink = (ground arith, omega arith)
type-IsField type_messagehub = (ground arith, omega arith)
type-IsField type_service = (ground arith, omega arith)
type-IsField type_streamer = (ground arith, omega arith)
type-IsField type_streamerlink = (ground arith, omega arith)

module _ (S : Strings) where
  open-lines :
      (a b c d rest : Bytes)
      → IsField a
      → IsField b
      → IsField c
      → IsField d
      → dump_open S (a ++ 10 ∷ (b ++ 10 ∷ (c ++ 10 ∷ (d ++ 10 ∷ rest))))
        ≡ some (record {
          fp = none;
          name = a;
          kind = registry_str_to_type S b;
          topic = c;
          mimetype = d;
        })
  unfolding dump_open
  open-lines a b c d rest p q r s = rw (
    dump_open,
    fgets-line 127 a (b ++ 10 ∷ (c ++ 10 ∷ (d ++ 10 ∷ rest))) p.0 p.1,
    fgets-line 127 b (c ++ 10 ∷ (d ++ 10 ∷ rest)) q.0 q.1,
    fgets-line 127 c (d ++ 10 ∷ rest) r.0 r.1,
    fgets-line 127 d rest s.0 s.1,
  )

  -- A file as `dump_create` begins it, with fields of fewer than 127 characters and no line feed, gives
  -- `dump_open` these fields back; but the dump that it returns cannot be read, since its file pointer is
  -- NULL: `dump_read_data` is undefined on it.
  pub open-header :
      (name topic mimetype rest : Bytes) (kind : EntryType) (m : Data)
      → IsField name
      → IsField topic
      → IsField mimetype
      → is_negative kind ≡ false
      → (d : Dump) × (dump_open S (dump_header name kind topic mimetype ++ rest) ≡ some d)
        × (d.name ≡ name)
        × (d.kind ≡ kind)
        × (d.topic ≡ topic)
        × (d.mimetype ≡ mimetype)
        × (dump_read_data d m ≡ none)
  unfolding dump_header dump_read_data
  open-header name topic mimetype rest kind m n t y known =
      let d : Dump = record {
        fp = none;
        name = name;
        kind = kind;
        topic = topic;
        mimetype = mimetype;
      } in
      let type_text = registry_type_to_str kind in
      let whole : dump_header name kind topic mimetype ++ rest
          ≡ name ++ 10 ∷ (type_text ++ 10 ∷ (topic ++ 10 ∷ (mimetype ++ 10 ∷ rest))) =
        simp append_assoc in
      let opened : dump_open S (dump_header name kind topic mimetype ++ rest) ≡ some d =
        ap (dump_open S) whole
        ∙ open-lines name type_text topic mimetype rest n (type-IsField kind) t y
        ∙ ap
            (λ (k : EntryType).
              some
                (record { fp = none; name = name; kind = k; topic = topic; mimetype = mimetype }))
            (str_to_type-type_to_str S kind known) in
      (d, opened, refl, refl, refl, refl, refl)
