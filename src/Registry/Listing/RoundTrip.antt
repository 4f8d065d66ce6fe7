-- ===== src/Registry/Listing/RoundTrip.antt =====
-- librcom/src/registry.c: from the list of one registry to that of another.
use rcom.Registry.Parse.{
  entry_parse-entry_encode, EntryObject, registry_entry_encode, registry_entry_parse,
}
use rcom.Registry.Ids.{registry_valid_topic, registry_valid_name, registry_valid_id}
use rcom.Rlib.{Lists, Strings}
use rcom.Registry.Store.{clone_sound, AllSound, IsSound}
use rcom.Base.{
  All-onto, ap₂, All, pos, append-nil, sym, map, onto-onto, ap, refl, List, Option, none, some,
  false, true, [], ◌∙◌, ◌≡◌, ◌∷◌, onto, is_some,
}
use rcom.Addr.{Inet, Addr}
use rcom.Addr.RoundTrip.{IsValid}
use rcom.Registry.{everything, select_from, clone, is_negative, matches, registry_select_all, Entry}
use rcom.Registry.Listing.{encode_list, parse_list, parse_list_from}

-- An entry that passes the checks of `registry_entry_parse`.
pub record IsListable (e : Entry) : Type 0 where
  pub id_valid : registry_valid_id (some e.id) ≡ true
  pub name_valid : registry_valid_name (some e.name) ≡ true
  pub topic_valid : registry_valid_topic (some e.topic) ≡ true
  pub has_kind : is_negative e.kind ≡ false
  pub addr_valid : (a : Addr) × (e.addr ≡ some a) × IsValid a

abbrev pub AllListable : List Entry → Type 0
AllListable es = All IsListable es

-- an entry as another program sees it
abbrev pub remote : Entry → Entry
remote e = record e { endpoint = none }

pub IsListable-IsSound : {e : Entry} → IsListable e → IsSound e
IsListable-IsSound v = record { has_addr = ap is_some v.addr_valid.1; has_kind = v.has_kind }

pub AllListable-AllSound : (es : List Entry) → AllListable es → AllSound es
AllListable-AllSound [] v = tt
AllListable-AllSound (e ∷ es) v = (IsListable-IsSound v.0, AllListable-AllSound es v.1)

map-onto {ℓ κ} :
    {A : Type ℓ} {B : Type κ} (f : A → B) (acc xs : List A)
    → map f (onto acc xs) ≡ onto (map f acc) (map f xs)
map-onto f acc [] = refl
map-onto f acc (x ∷ xs) = map-onto f (x ∷ acc) xs

module _ (I : Inet) (S : Strings) where
  encode_list_lem :
      (es : List Entry) → encode_list I S (map some es) ≡ some (map (registry_entry_encode I S) es)
  unfolding encode_list
  encode_list_lem [] = refl
  encode_list_lem (e ∷ es) = rw (encode_list, encode_list_lem es) refl

  pub parse-encode :
      (e : Entry)
      → IsListable e
      → registry_entry_parse I S (registry_entry_encode I S e) ≡ some (pos 0, some (remote e))
  parse-encode e v =
      let (a, same, valid) = v.addr_valid in
      entry_parse-entry_encode I S e a v.id_valid v.name_valid v.topic_valid v.has_kind same valid

  module _ (L : Lists Entry) (R : Lists (Option Entry)) where
    parse_list_from_lem :
        (acc es : List Entry)
        → AllListable es
        → parse_list_from I S L acc (map (registry_entry_encode I S) es)
          ≡ some (onto acc (map remote es))
    unfolding parse_list_from
    parse_list_from_lem acc [] v = refl
    parse_list_from_lem acc (e ∷ es) v =
        rw (parse_list_from, parse-encode e v.0, L.prepend_lem acc (remote e))
          (parse_list_from_lem (remote e ∷ acc) es v.1)

    select_from-clone :
        (acc : List (Option Entry)) (es : List Entry)
        → select_from I S L R everything acc es ≡ some (onto acc (map clone es))
    unfolding select_from matches
    select_from-clone acc [] = refl
    select_from-clone acc (e ∷ es) =
        rw (select_from, R.prepend_lem acc (clone e)) (select_from-clone (clone e ∷ acc) es)

    -- Without conditions no address is read, and each entry is copied.
    pub select_all-clone :
        (es : List Entry) → registry_select_all I S L R es ≡ some (onto [] (map clone es))
    unfolding registry_select_all
    select_all-clone es = select_from-clone [] es

    map-clone : (es : List Entry) → AllSound es → map clone es ≡ map some es
    map-clone [] v = refl
    map-clone (e ∷ es) v = ap₂ (λ x l. x ∷ l) (clone_sound e v.0) (map-clone es v.1)

    pub select_all_lem :
        (es : List Entry)
        → AllSound es
        → registry_select_all I S L R es ≡ some (onto [] (map some es))
    select_all_lem es v = select_all-clone es ∙ ap (λ l. some (onto [] l)) (map-clone es v)

    -- A program that reads the list that another sends has the entries of that one's registry, in their
    -- order and without their endpoints, if they all pass the checks of `registry_entry_parse`.
    pub parse_list-encode_list :
        (es : List Entry)
        → AllListable es
        → (l : List (Option Entry)) × (a : List EntryObject) × (registry_select_all I S L R es
            ≡ some l)
          × (encode_list I S l ≡ some a)
          × (parse_list I S L a ≡ some (map remote es))
    unfolding parse_list
    parse_list-encode_list es v =
        let turned = onto [] es in
        (
          onto [] (map some es),
          map (registry_entry_encode I S) turned,
          select_all_lem es (AllListable-AllSound es v),
          ap (encode_list I S) (sym (map-onto some [] es)) ∙ encode_list_lem turned,
          parse_list_from_lem [] turned (All-onto IsListable [] es tt v)
              ∙ ap some (
                  sym (map-onto remote [] turned)
                  ∙ ap (map remote) (onto-onto [] [] es ∙ append-nil es)),
        )
