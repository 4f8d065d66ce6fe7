-- ===== src/Registry/Store.antt =====
-- librcom/src/registry.c: insertion, lookup, deletion and the change of an address.
use rcom.Rlib.{rstreq_false, Lists, Strings}
use rcom.Addr.{overflow, null, parsed, addr_parse, Inet, Addr}
use rcom.Base.{
  ◌⊎◌, All, is_some, ℤ, pos, negsuc, append-nil, inr, inl, arith, subst, ap, sym, refl, List,
  Option, none, some, not, false, true, [], ◌&&◌, ◌∙◌, ◌+◌, ◌≢◌, ◌≡◌, ◌∷◌, ◌++◌, length, Bool-cases,
  Bytes, ℕ,
}
use rcom.Registry.{
  readdress, EntryType, is_negative, place, new_registry_entry, clone, Entry, registry_get,
  registry_insert, registry_delete, registry_update_addr,
}

-- No entry of the list has the identifier.
abbrev pub IsAbsent : Bytes → List Entry → Type 0
IsAbsent id [] = Unit
IsAbsent id (e ∷ es) = (e.id ≢ id) × IsAbsent id es

-- An entry that `new_registry_entry` makes: its address is there and its type is not negative.
pub record IsSound (e : Entry) : Type 0 where
  pub has_addr : is_some e.addr ≡ true
  pub has_kind : is_negative e.kind ≡ false

abbrev pub AllSound : List Entry → Type 0
AllSound es = All IsSound es

addr-cases : (o : Option Addr) → is_some o ≡ true → (a : Addr) × (o ≡ some a)
addr-cases none s = absurd (ground (arith, s))
addr-cases (some a) s = (a, refl)

pub clone_sound : (e : Entry) → IsSound e → clone e ≡ some e
unfolding clone new_registry_entry
clone_sound e v =
    let found = addr-cases e.addr v.has_addr in
    subst
      (λ o.
        new_registry_entry e.id e.name e.topic e.kind o e.endpoint ≡ some (record e { addr = o }))
      (sym found.1) (rw v.has_kind refl)

refused_addr :
    (kind : EntryType) (o : Option Addr) (id name topic : Bytes) (endpoint : Option ℕ)
    → (is_some o && not (is_negative kind)) ≡ false
    → new_registry_entry id name topic kind o endpoint ≡ none
unfolding new_registry_entry
refused_addr kind none id name topic endpoint u = refl
refused_addr kind (some a) id name topic endpoint u = ground (arith, u)

pub clone-refused :
    (e : Entry) → (is_some e.addr && not (is_negative e.kind)) ≡ false → clone e ≡ none
unfolding clone
clone-refused e u = refused_addr e.kind e.addr e.id e.name e.topic e.endpoint u

module _ (I : Inet) (S : Strings) (L : Lists Entry) (R : Lists (Option Entry)) where
  place_absent :
      (id : Bytes) (i : ℕ) (es : List Entry) → IsAbsent id es → place I S L R id i es ≡ none
  place_absent id i [] v = refl
  place_absent id i (e ∷ es) v = rw (rstreq_false S e.id id v.0) (place_absent id (i + 1) es v.1)

  place_found :
      (i : ℕ) (xs ys : List Entry) (e : Entry)
      → IsAbsent e.id xs
      → place I S L R e.id i (xs ++ e ∷ ys) ≡ some (i + length xs)
  place_found i [] ys e v = rw (S.rstreq_same e.id) (ap some (omega arith))
  place_found i (x ∷ xs) ys e v =
      rw (rstreq_false S x.id e.id v.0) (place_found (i + 1) xs ys e v.1 ∙ ap some (omega arith))

  -- The first entry with an identifier, if there is one.
  pub find_entry :
      (id : Bytes) (es : List Entry)
      → IsAbsent id es
        ⊎ ((xs : List Entry) × (ys : List Entry) × (e : Entry) × (es ≡ xs ++ e ∷ ys)
            × (e.id ≡ id)
            × IsAbsent id xs)
  find_entry id [] = inl tt
  find_entry id (e ∷ es) = elim (Bool-cases (S.rstreq e.id id)) [
    | inl u ↦ inr ([], es, e, refl, S.rstreq_true e.id id u, tt)
    | inr u ↦
        let ne : e.id ≢ id = λ q. cc (S.rstreq_same id, ap (λ i. S.rstreq i id) q, u) in
        elim (find_entry id es) [
          | inl v ↦ inl (ne, v)
          | inr (xs, ys, f, q, r, v) ↦ inr (e ∷ xs, ys, f, ap (λ l. e ∷ l) q, r, (ne, v))
        ]
  ]

  -- Deletion takes the first entry with the identifier out, wherever it stands, and returns 0.
  pub registry_delete_found :
      (xs ys : List Entry) (e : Entry)
      → IsAbsent e.id xs
      → registry_delete I S L R e.id (xs ++ e ∷ ys) ≡ (pos 0, xs ++ ys)
  unfolding registry_delete
  registry_delete_found xs ys e v =
      rw (registry_delete, place_found 0 xs ys e v)
        (ap (λ l. (pos 0, l))
          (ap (L.list_remove (xs ++ e ∷ ys)) (omega arith) ∙ L.remove_lem xs ys e))

  -- Without such an entry it returns -1 and leaves the registry as it is.
  pub registry_delete_absent :
      (id : Bytes) (es : List Entry)
      → IsAbsent id es
      → registry_delete I S L R id es ≡ (negsuc 0, es)
  unfolding registry_delete
  registry_delete_absent id es v = rw (registry_delete, place_absent id 0 es v) refl

  pub get-found :
      (xs ys : List Entry) (e : Entry)
      → IsAbsent e.id xs
      → registry_get I S L R e.id (xs ++ e ∷ ys) ≡ clone e
  unfolding registry_get
  get-found [] ys e v = rw (S.rstreq_same e.id) refl
  get-found (x ∷ xs) ys e v = rw (rstreq_false S x.id e.id v.0) (get-found xs ys e v.1)

  pub inserted :
      (es : List Entry) (e : Entry)
      → IsSound e
      → registry_insert I S L R e es ≡ (pos 0, es ++ e ∷ [])
  unfolding registry_insert
  inserted es e s = rw (registry_insert, clone_sound e s, L.append_lem es e) refl

  -- An entry with an address and a type, whose identifier is new, goes in; then `registry_get` finds
  -- it, and its deletion brings the registry back.
  pub get-insert :
      (es : List Entry) (e : Entry)
      → IsSound e
      → IsAbsent e.id es
      → let r = registry_insert I S L R e es in
        (r.0 ≡ pos 0)
        × (registry_get I S L R e.id r.1 ≡ some e)
        × (registry_delete I S L R e.id r.1 ≡ (pos 0, es))
  get-insert es e s v = rw (inserted es e s) (
    refl,
    get-found es [] e v ∙ clone_sound e s,
    registry_delete_found es [] e v ∙ ap (λ l. (pos 0, l)) (append-nil es),
  )

  -- An entry without an address or with a negative type is refused: -1, and the registry is as it was.
  pub insert_refused :
      (es : List Entry) (e : Entry)
      → (is_some e.addr && not (is_negative e.kind)) ≡ false
      → registry_insert I S L R e es ≡ (negsuc 0, es)
  unfolding registry_insert
  insert_refused es e u = rw (registry_insert, clone-refused e u) refl

  update_found :
      (addr : Bytes) (xs ys : List Entry) (e e' : Entry) (err : ℤ)
      → IsAbsent e.id xs
      → ((zs : List Entry) → readdress I S L R (addr_parse I addr) e zs ≡ some (err, e' ∷ zs))
      → registry_update_addr I S L R e.id addr (xs ++ e ∷ ys) ≡ some (err, xs ++ e' ∷ ys)
  unfolding registry_update_addr
  update_found addr [] ys e e' err v r = rw (S.rstreq_same e.id) (r ys)
  update_found addr (x ∷ xs) ys e e' err v r =
      rw (rstreq_false S e.id x.id (λ q. v.0 (sym q)), update_found addr xs ys e e' err v.1 r) refl

  -- Where no entry has the identifier, the call returns 0 and changes nothing.
  pub update_addr_absent :
      (id addr : Bytes) (es : List Entry)
      → IsAbsent id es
      → registry_update_addr I S L R id addr es ≡ some (pos 0, es)
  unfolding registry_update_addr
  update_addr_absent id addr [] v = refl
  update_addr_absent id addr (e ∷ es) v =
      rw (rstreq_false S id e.id (λ q. v.0 (sym q)), update_addr_absent id addr es v.1) refl

  pub update_addr_overflow :
      (addr : Bytes) (xs ys : List Entry) (e : Entry)
      → addr_parse I addr ≡ overflow
      → IsAbsent e.id xs
      → registry_update_addr I S L R e.id addr (xs ++ e ∷ ys) ≡ none
  unfolding registry_update_addr
  update_addr_overflow addr [] ys e p v = rw (S.rstreq_same e.id, p) refl
  update_addr_overflow addr (x ∷ xs) ys e p v =
      rw (rstreq_false S e.id x.id (λ q. v.0 (sym q)), update_addr_overflow addr xs ys e p v.1) refl

  -- An address that `addr_parse` accepts is stored in the first entry with the identifier, and the call
  -- returns 0. The rest of the registry stays as it is.
  pub update_addr_stores :
      (addr : Bytes) (a : Addr) (xs ys : List Entry) (e : Entry)
      → addr_parse I addr ≡ parsed a
      → IsAbsent e.id xs
      → registry_update_addr I S L R e.id addr (xs ++ e ∷ ys)
        ≡ some (pos 0, xs ++ record e { addr = some a } ∷ ys)
  update_addr_stores addr a xs ys e p v =
      update_found addr xs ys e (record e { addr = some a }) (pos 0) v (λ zs. rw p refl)

  -- An address that it refuses: the call returns -1, but the entry loses the address that it had, and
  -- from then on `registry_get` returns NULL for its identifier.
  pub update_addr_invalid :
      (addr : Bytes) (xs ys : List Entry) (e : Entry)
      → addr_parse I addr ≡ null
      → IsAbsent e.id xs
      → let after = xs ++ record e { addr = none } ∷ ys in
        (registry_update_addr I S L R e.id addr (xs ++ e ∷ ys) ≡ some (negsuc 0, after))
        × (registry_get I S L R e.id after ≡ none)
  update_addr_invalid addr xs ys e p v =
      let e' = record e { addr = none } in
      (
        update_found addr xs ys e e' (negsuc 0) v (λ zs. rw p refl),
        get-found xs ys e' v ∙ clone-refused e' refl,
      )
