-- ===== src/Registry/Types.antt =====
-- librcom/src/registry.c: the names of the types.
use rcom.Base.{
  inr, inl, arith, subst, sym, refl, false, [], ◌≡◌, ◌∷◌, Bool-cases, if◌then◌else◌, Bytes,
}
use rcom.Rlib.{same_bytes_same, same_bytes, Strings}
use rcom.Registry.{
  is_negative, EntryType, type_none, type_any, type_datalink, type_datahub, type_messagelink,
  type_messagehub, type_service, type_streamer, type_streamerlink,
}

abbrev text_datalink : Bytes
text_datalink = 100 ∷ 97 ∷ 116 ∷ 97 ∷ 108 ∷ 105 ∷ 110 ∷ 107 ∷ []

abbrev text_datahub : Bytes
text_datahub = 100 ∷ 97 ∷ 116 ∷ 97 ∷ 104 ∷ 117 ∷ 98 ∷ []

abbrev text_messagelink : Bytes
text_messagelink = 109 ∷ 101 ∷ 115 ∷ 115 ∷ 97 ∷ 103 ∷ 101 ∷ 108 ∷ 105 ∷ 110 ∷ 107 ∷ []

abbrev text_messagehub : Bytes
text_messagehub = 109 ∷ 101 ∷ 115 ∷ 115 ∷ 97 ∷ 103 ∷ 101 ∷ 104 ∷ 117 ∷ 98 ∷ []

abbrev text_service : Bytes
text_service = 115 ∷ 101 ∷ 114 ∷ 118 ∷ 105 ∷ 99 ∷ 101 ∷ []

abbrev text_streamer : Bytes
text_streamer = 115 ∷ 116 ∷ 114 ∷ 101 ∷ 97 ∷ 109 ∷ 101 ∷ 114 ∷ []

abbrev text_streamerlink : Bytes
text_streamerlink = 115 ∷ 116 ∷ 114 ∷ 101 ∷ 97 ∷ 109 ∷ 101 ∷ 114 ∷ 108 ∷ 105 ∷ 110 ∷ 107 ∷ []

-- `registry_type_to_str`
unfoldable pub registry_type_to_str : EntryType → Bytes
registry_type_to_str type_datalink = text_datalink
registry_type_to_str type_datahub = text_datahub
registry_type_to_str type_messagelink = text_messagelink
registry_type_to_str type_messagehub = text_messagehub
registry_type_to_str type_service = text_service
registry_type_to_str type_streamer = text_streamer
registry_type_to_str type_streamerlink = text_streamerlink
registry_type_to_str _ = 117 ∷ 110 ∷ 107 ∷ 110 ∷ 111 ∷ 119 ∷ 110 ∷ []

module _ (S : Strings) where
  -- `registry_str_to_type`
  pub registry_str_to_type : Bytes → EntryType
  registry_str_to_type str =
      if S.rstreq str text_datalink
      then type_datalink
      else if S.rstreq str text_datahub
      then type_datahub
      else if S.rstreq str text_messagelink
      then type_messagelink
      else if S.rstreq str text_messagehub
      then type_messagehub
      else if S.rstreq str text_service
      then type_service
      else if S.rstreq str text_streamer
      then type_streamer
      else if S.rstreq str text_streamerlink
      then type_streamerlink
      else type_none

  pub distinct : (s t : Bytes) → same_bytes s t ≡ false → S.rstreq s t ≡ false
  distinct s t d = elim (Bool-cases (S.rstreq s t)) [
    | inl u ↦ absurd (
        ground (
          arith,
          subst (λ r. same_bytes s r ≡ false) (sym (S.rstreq_true s t u)) d,
          same_bytes_same s,
        ))
    | inr u ↦ u
  ]

  -- A type that an entry can have is read back from its name.
  pub str_to_type-type_to_str :
      (kind : EntryType)
      → is_negative kind ≡ false
      → registry_str_to_type (registry_type_to_str kind) ≡ kind
  unfolding registry_str_to_type registry_type_to_str
  str_to_type-type_to_str type_none v = absurd (ground (arith, v))
  str_to_type-type_to_str type_any v = absurd (ground (arith, v))
  str_to_type-type_to_str type_datalink v = rw (S.rstreq_same text_datalink) refl
  str_to_type-type_to_str type_datahub v =
      rw (distinct text_datahub text_datalink refl, S.rstreq_same text_datahub) refl
  str_to_type-type_to_str type_messagelink v =
      rw
        (
          distinct text_messagelink text_datalink refl,
          distinct text_messagelink text_datahub refl,
          S.rstreq_same text_messagelink,
        )
        refl
  str_to_type-type_to_str type_messagehub v =
      rw
        (
          distinct text_messagehub text_datalink refl,
          distinct text_messagehub text_datahub refl,
          distinct text_messagehub text_messagelink refl,
          S.rstreq_same text_messagehub,
        )
        refl
  str_to_type-type_to_str type_service v =
      rw
        (
          distinct text_service text_datalink refl,
          distinct text_service text_datahub refl,
          distinct text_service text_messagelink refl,
          distinct text_service text_messagehub refl,
          S.rstreq_same text_service,
        )
        refl
  str_to_type-type_to_str type_streamer v =
      rw
        (
          distinct text_streamer text_datalink refl,
          distinct text_streamer text_datahub refl,
          distinct text_streamer text_messagelink refl,
          distinct text_streamer text_messagehub refl,
          distinct text_streamer text_service refl,
          S.rstreq_same text_streamer,
        )
        refl
  str_to_type-type_to_str type_streamerlink v =
      rw
        (
          distinct text_streamerlink text_datalink refl,
          distinct text_streamerlink text_datahub refl,
          distinct text_streamerlink text_messagelink refl,
          distinct text_streamerlink text_messagehub refl,
          distinct text_streamerlink text_service refl,
          distinct text_streamerlink text_streamer refl,
          S.rstreq_same text_streamerlink,
        )
        refl
