-- ===== src/Registry/Listing.antt =====
-- librcom/src/registry.c: `registry_entry_encode_list` and `registry_entry_parse_list`. An array is
-- the list of its objects. The empty list is C's NULL.
pub mod RoundTrip
use rcom.Rlib.{Lists, Strings}
use rcom.Base.{List, Option, none, some, [], ◌∷◌, ℕ}
use rcom.Addr.{Inet}
use rcom.Registry.{Entry}
use rcom.Registry.Parse.{registry_entry_parse, registry_entry_encode, EntryObject}

module _ (I : Inet) (S : Strings) where
  -- none for an element that is NULL, which `registry_entry_encode` would read
  unfoldable pub encode_list : List (Option Entry) → Option (List EntryObject)
  encode_list [] = some []
  encode_list (none ∷ l) = none
  encode_list (some e ∷ l) = elim (encode_list l) [
    | none ↦ none
    | some a ↦ some (registry_entry_encode I S e ∷ a)
  ]

  module _ (L : Lists Entry) where
    -- the loop of `registry_entry_parse_list`; an error drops what was parsed
    unfoldable pub parse_list_from : List Entry → List EntryObject → Option (List Entry)
    parse_list_from entries [] = some entries
    parse_list_from entries (obj ∷ a) = elim (registry_entry_parse I S obj) [
      | none ↦ none
      | some (err, none) ↦ some []
      | some (err, some e) ↦ parse_list_from (L.list_prepend entries e) a
    ]

    unfoldable pub parse_list : List EntryObject → Option (List Entry)
    unfolding parse_list_from
    parse_list a = parse_list_from [] a
