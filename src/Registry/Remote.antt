-- ===== src/Registry/Remote.antt =====
-- librcom/src/registry.c: what the operations do to the entries as other programs see them, which is
-- all that two registries can agree on.
use rcom.Registry.Store.{
  update_addr_absent, update_addr_stores, registry_delete_found, registry_delete_absent, find_entry,
  IsAbsent,
}
use rcom.Rlib.{Lists, Strings}
use rcom.Base.{
  is_some, Bool-cases, inl, inr, arith, refl, ap, sym, pos, map, List, Option, none, some, [], ◌∷◌,
  ◌++◌, ◌≡◌, ◌∙◌, ℤ, Bytes,
}
use rcom.Addr.{Addr, Inet, Parsed, null, overflow, parsed, addr_parse}
use rcom.Registry.{behind_entry, Entry, registry_update_addr, registry_delete, readdress}
use rcom.Registry.Listing.RoundTrip.{AllListable, remote}

pub map-append {ℓ κ} :
    {A : Type ℓ} {B : Type κ} (f : A → B) (xs ys : List A) → map f (xs ++ ys) ≡ map f xs ++ map f ys
map-append f [] ys = refl
map-append f (x ∷ xs) ys = ap (λ l. f x ∷ l) (map-append f xs ys)

abbrev pub remote_result : ℤ × List Entry → ℤ × List Entry
remote_result (err, es) = (err, map remote es)

abbrev pub remote_results : Option (ℤ × List Entry) → Option (ℤ × List Entry)
remote_results none = none
remote_results (some r) = some (remote_result r)

IsAbsent-remote : (id : Bytes) (es : List Entry) → IsAbsent id es → IsAbsent id (map remote es)
IsAbsent-remote id [] v = tt
IsAbsent-remote id (e ∷ es) v = (v.0, IsAbsent-remote id es v.1)

pub AllListable-remote : (es : List Entry) → AllListable es → AllListable (map remote es)
AllListable-remote [] v = tt
AllListable-remote (e ∷ es) v = (
  record {
    id_valid = v.0.id_valid;
    name_valid = v.0.name_valid;
    topic_valid = v.0.topic_valid;
    has_kind = v.0.has_kind;
    addr_valid = v.0.addr_valid;
  },
  AllListable-remote es v.1,
)

pub remote-AllListable : (es : List Entry) → AllListable (map remote es) → AllListable es
remote-AllListable [] v = tt
remote-AllListable (e ∷ es) v = (
  record {
    id_valid = v.0.id_valid;
    name_valid = v.0.name_valid;
    topic_valid = v.0.topic_valid;
    has_kind = v.0.has_kind;
    addr_valid = v.0.addr_valid;
  },
  remote-AllListable es v.1,
)

module _ (I : Inet) (S : Strings) (L : Lists Entry) (R : Lists (Option Entry)) where
  delete-remote :
      (id : Bytes) (es : List Entry)
      → registry_delete I S L R id (map remote es) ≡ remote_result (registry_delete I S L R id es)
  delete-remote id es = elim (find_entry I S L R id es) [
    | inl v ↦
        registry_delete_absent I S L R id (map remote es) (IsAbsent-remote id es v)
        ∙ ap remote_result (sym (registry_delete_absent I S L R id es v))
    | inr (xs, ys, e, q, r, v) ↦
        let absent : IsAbsent e.id xs = rw r v in
        let gone : registry_delete I S L R id es ≡ (pos 0, xs ++ ys) =
          rw (q, ← r) (registry_delete_found I S L R xs ys e absent) in
        let gone' : registry_delete I S L R id (map remote es)
            ≡ (pos 0, map remote xs ++ map remote ys) =
          rw (q, map-append remote xs (e ∷ ys), ← r)
            (registry_delete_found I S L R (map remote xs) (map remote ys) (remote e)
              (IsAbsent-remote e.id xs absent)) in
        gone' ∙ ap (λ l. (pos 0, l)) (sym (map-append remote xs ys)) ∙ ap remote_result (sym gone)
  ]

  readdress-remote :
      (a : Parsed) (e : Entry) (es : List Entry)
      → readdress I S L R a (remote e) (map remote es) ≡ remote_results (readdress I S L R a e es)
  readdress-remote null e es = refl
  readdress-remote overflow e es = refl
  readdress-remote (parsed a) e es = refl

  behind_entry-remote :
      (e : Entry) (r : Option (ℤ × List Entry))
      → behind_entry I S L R (remote e) (remote_results r)
        ≡ remote_results (behind_entry I S L R e r)
  behind_entry-remote e none = refl
  behind_entry-remote e (some r) = refl

  update_addr-remote :
      (id addr : Bytes) (es : List Entry)
      → registry_update_addr I S L R id addr (map remote es)
        ≡ remote_results (registry_update_addr I S L R id addr es)
  unfolding registry_update_addr
  update_addr-remote id addr [] = refl
  update_addr-remote id addr (e ∷ es) = elim (Bool-cases (S.rstreq id e.id)) [
    | inl u ↦ rw u (readdress-remote (addr_parse I addr) e es)
    | inr u ↦
        rw (u, update_addr-remote id addr es)
          (behind_entry-remote e (registry_update_addr I S L R id addr es))
  ]

  -- Two registries with the same entries, but for the endpoints, delete with the same result.
  pub delete_agrees :
      (id : Bytes) (es fs : List Entry)
      → map remote fs ≡ map remote es
      → ((registry_delete I S L R id fs).0 ≡ (registry_delete I S L R id es).0)
        × (map remote (registry_delete I S L R id fs).1
            ≡ map remote (registry_delete I S L R id es).1)
  delete_agrees id es fs q =
      let same : remote_result (registry_delete I S L R id fs)
          ≡ remote_result (registry_delete I S L R id es) =
        sym (delete-remote id fs) ∙ ap (registry_delete I S L R id) q ∙ delete-remote id es in
      (ap (λ r. r.0) same, ap (λ r. r.1) same)

  results-inverse :
      (o : Option (ℤ × List Entry)) (err : ℤ) (zs : List Entry)
      → remote_results o ≡ some (err, zs)
      → (fs : List Entry) × (o ≡ some (err, fs)) × (map remote fs ≡ zs)
  results-inverse none err zs q = absurd (ground (arith, ap is_some q))
  results-inverse (some (r, fs)) err zs q =
      let same : ◌≡◌ {A = ℤ × List Entry} (r, map remote fs) (err, zs) = cc q in
      (fs, ap (λ e. some (e, fs)) (ap (λ t. t.0) same), ap (λ t. t.1) same)

  -- They change an address with the same result.
  pub update_addr_agrees :
      (id addr : Bytes) (es fs es' : List Entry) (err : ℤ)
      → map remote fs ≡ map remote es
      → registry_update_addr I S L R id addr es ≡ some (err, es')
      → (fs' : List Entry) × (registry_update_addr I S L R id addr fs ≡ some (err, fs'))
        × (map remote fs' ≡ map remote es')
  update_addr_agrees id addr es fs es' err q r =
      results-inverse (registry_update_addr I S L R id addr fs) err (map remote es') (
        sym (update_addr-remote id addr fs)
        ∙ ap (registry_update_addr I S L R id addr) q
        ∙ update_addr-remote id addr es
        ∙ ap remote_results r)

  -- An address that `addr_parse` accepts gives no error.
  pub update_addr_accepts :
      (id addr : Bytes) (a : Addr) (es : List Entry)
      → addr_parse I addr ≡ parsed a
      → (es' : List Entry) × (registry_update_addr I S L R id addr es ≡ some (pos 0, es'))
  update_addr_accepts id addr a es p = elim (find_entry I S L R id es) [
    | inl absent ↦ (es, update_addr_absent I S L R id addr es absent)
    | inr (xs, ys, e, here, r, absent) ↦ (
      xs ++ record e { addr = some a } ∷ ys,
      rw (here, ← r) (update_addr_stores I S L R addr a xs ys e p (rw r absent)),
    )
  ]
