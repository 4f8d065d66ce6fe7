-- ===== src/Rcregistry/Faults.antt =====
-- librcom/src/rcregistry.c: a request with an invalid address, and the request for the list after
-- it.
use rcom.Registry.Parse.{EntryObject}
use rcom.Registry.Types.{distinct}
use rcom.Registry.Listing.RoundTrip.{select_all-clone}
use rcom.Registry.Store.{clone-refused, update_addr_invalid, IsAbsent}
use rcom.Registry.Listing.{encode_list}
use rcom.Rlib.{Lists, Strings}
use rcom.Base.{
  inr, inl, arith, ap, refl, Bool, List, Option, none, some, false, true, [], ◌||◌, ◌∙◌, ◌≡◌, ◌∷◌,
  ◌++◌, map, codes, onto, Option-cases, Bytes,
}
use rcom.Addr.{Inet, null, addr_parse}
use rcom.Registry.{registry_select_all, registry_update_addr, clone, Entry}
use rcom.Rcregistry.{
  listed, address_updated, answer, rcregistry_update_address, dispatch, failed,
  rcregistry_onmessage, rcregistry_send_list, Message, Outcome,
}

abbrev pub update_request : Bytes → Bytes → Message
update_request id addr = record {
  request = some (codes "update-address");
  id = some id;
  addr = some addr;
  entry = none;
}

abbrev pub list_request : Message
list_request = record { request = some (codes "list"); id = none; addr = none; entry = none }

abbrev has_null : List (Option Entry) → Bool
has_null [] = false
has_null (none ∷ l) = true
has_null (some e ∷ l) = has_null l

has_null-onto :
    (acc l : List (Option Entry))
    → (has_null acc || has_null l) ≡ true
    → has_null (onto acc l) ≡ true
has_null-onto acc [] v = ground (arith, v)
has_null-onto acc (none ∷ l) v = has_null-onto (none ∷ acc) l refl
has_null-onto acc (some e ∷ l) v = has_null-onto (some e ∷ acc) l v

has_null-map :
    (xs ys : List Entry) (e : Entry) → clone e ≡ none → has_null (map clone (xs ++ e ∷ ys)) ≡ true
has_null-map [] ys e n = rw n refl
has_null-map (x ∷ xs) ys e n = elim (Option-cases (clone x)) [
  | inl k ↦ rw k refl
  | inr (f, k) ↦ rw k (has_null-map xs ys e n)
]

module _ (I : Inet) (S : Strings) (L : Lists Entry) (R : Lists (Option Entry)) where
  encode_list-null : (l : List (Option Entry)) → has_null l ≡ true → encode_list I S l ≡ none
  unfolding encode_list
  encode_list-null [] v = absurd (ground (arith, v))
  encode_list-null (none ∷ l) v = refl
  encode_list-null (some e ∷ l) v = rw (encode_list, encode_list-null l v) refl

  pub send_list_lem :
      (es : List Entry) (l : List (Option Entry)) (a : List EntryObject)
      → registry_select_all I S L R es ≡ some l
      → encode_list I S l ≡ some a
      → rcregistry_send_list I S L R es ≡ some (answer es (listed a))
  unfolding rcregistry_send_list
  send_list_lem es l a q r = rw (rcregistry_send_list, q, r) refl

  send_list-null :
      (xs ys : List Entry) (e : Entry)
      → clone e ≡ none
      → rcregistry_send_list I S L R (xs ++ e ∷ ys) ≡ none
  unfolding rcregistry_send_list
  send_list-null xs ys e n =
      let es = xs ++ e ∷ ys in
      let nulls = has_null-onto [] (map clone es) (has_null-map xs ys e n) in
      rw
        (
          rcregistry_send_list,
          select_all-clone I S L R es,
          encode_list-null (onto [] (map clone es)) nulls,
        )
        refl

  pub onmessage-list :
      (es : List Entry)
      → rcregistry_onmessage I S L R es (some list_request) ≡ rcregistry_send_list I S L R es
  unfolding rcregistry_onmessage dispatch
  onmessage-list es =
      rw
        (
          distinct S (codes "list") (codes "register") refl,
          distinct S (codes "list") (codes "unregister") refl,
          S.rstreq_same (codes "list"),
        )
        refl

  onmessage-update :
      (es : List Entry) (id addr : Bytes)
      → rcregistry_onmessage I S L R es (some (update_request id addr))
        ≡ address_updated I S L R id addr (registry_update_addr I S L R id addr es)
  unfolding rcregistry_onmessage dispatch rcregistry_update_address
  onmessage-update es id addr =
      let text = codes "update-address" in
      rw
        (
          distinct S text (codes "register") refl,
          distinct S text (codes "unregister") refl,
          distinct S text (codes "list") refl,
          S.rstreq_same text,
        )
        refl

  -- A request to change the address of an entry to a text that `addr_parse` refuses is answered with
  -- "Internal error". The next request for the list reads a NULL entry, whatever else is registered.
  pub list_after_invalid_address :
      (addr : Bytes) (xs ys : List Entry) (e : Entry)
      → addr_parse I addr ≡ null
      → IsAbsent e.id xs
      → (o : Outcome) × (rcregistry_onmessage I S L R
            (xs ++ e ∷ ys)
            (some (update_request e.id addr))
          ≡ some o)
        × (o.reply ≡ some (failed (codes "update-address") (codes "Internal error")))
        × (rcregistry_onmessage I S L R o.entries (some list_request) ≡ none)
  list_after_invalid_address addr xs ys e p v =
      let e' = record e { addr = none } in
      let updated = (update_addr_invalid I S L R addr xs ys e p v).0 in
      (
        answer (xs ++ e' ∷ ys) (failed (codes "update-address") (codes "Internal error")),
        onmessage-update (xs ++ e ∷ ys) e.id addr ∙ ap (address_updated I S L R e.id addr) updated,
        refl,
        onmessage-list (xs ++ e' ∷ ys) ∙ send_list-null xs ys e' (clone-refused e' refl),
      )
