-- ===== src/Service/Routes.antt =====
-- librcom/src/service.c and librcom/src/export.c: which export a name leads to.
use rcom.Rlib.{rstreq_false, Lists, Strings}
use rcom.Service.{
  pick, service_export, service_get_export, reset, new_export, first, is_wildcard, export_matches,
  replace, behind_slash, Export,
}
use rcom.Base.{
  ap₂, ℕ, Option, none, if◌then◌else◌, inr, inl, arith, ap, sym, Bool, List, some, false, true, [],
  ◌⊎◌, ◌∙◌, ◌≢◌, ◌≡◌, ◌∷◌, codes, Bool-cases, Bytes, refl,
}

-- No export can be meant by both names: they differ, and neither is the other behind a slash.
pub record IsFar (n m : Bytes) : Type 0 where
  pub differ : n ≢ m
  pub unlike : behind_slash n ≢ some m
  pub unlike_back : behind_slash m ≢ some n

-- the name does not mean the wildcard
pub record IsPlain (m : Bytes) : Type 0 where
  pub not_star : m ≢ codes "*"
  pub not_slash_star : behind_slash m ≢ some (codes "*")

slash_same : (m n x : Bytes) → behind_slash m ≡ some x → behind_slash n ≡ some x → m ≡ n
slash_same [] n x e f = absurd (cc)
slash_same (c ∷ s) [] x e f = absurd (cc)
slash_same (c ∷ s) (d ∷ t) x e f = ground (arith, e, f)

module _ (S : Strings) where
  slash-name :
      (name : Bytes) (b : Option Bytes)
      → (elim b [ none ↦ false | some s ↦ S.rstreq s name ]) ≡ true
      → b ≡ some name
  slash-name name none h = absurd (cc)
  slash-name name (some s) h = ap some (S.rstreq_true s name h)

  matches-name :
      (e : Export) (m : Bytes)
      → export_matches S e m ≡ true
      → (m ≡ e.name) ⊎ (behind_slash m ≡ some e.name)
  unfolding export_matches
  matches-name e m h = elim (Bool-cases (S.rstreq m e.name)) [
    | inl same ↦ inl (S.rstreq_true m e.name same)
    | inr other ↦ inr (slash-name e.name (behind_slash m) (rw other at h))
  ]

  far-matches :
      (e : Export) (n m : Bytes)
      → IsFar n m
      → export_matches S e m ≡ true
      → export_matches S e n ≡ false
  far-matches e n m far h = elim (Bool-cases (export_matches S e n)) [
    | inr out ↦ out
    | inl also ↦ elim (matches-name e m h) [
      | inl p ↦ elim (matches-name e n also) [
        | inl q ↦ absurd (far.differ (q ∙ sym p))
        | inr q ↦ absurd (far.unlike (q ∙ ap some (sym p)))
      ]
      | inr p ↦ elim (matches-name e n also) [
        | inl q ↦ absurd (far.unlike_back (p ∙ ap some (sym q)))
        | inr q ↦ absurd (far.differ (slash_same n m e.name q p))
      ]
    ]
  ]

  plain-wildcard :
      (e : Export) (m : Bytes) → IsPlain m → export_matches S e m ≡ true → is_wildcard S e ≡ false
  plain-wildcard e m plain h = elim (matches-name e m h) [
    | inl p ↦ rstreq_false S (codes "*") e.name (λ q. plain.not_star (p ∙ sym q))
    | inr p ↦ rstreq_false S (codes "*") e.name (λ q. plain.not_slash_star (p ∙ ap some (sym q)))
  ]

  module _ (test : Export → Bool) (f : Export → Export)
      (kept : (e : Export) → test (f e) ≡ test e) where
    replace_next :
        (e : Export) (x : Option (List Export)) {es' : List Export}
        → (elim x [ none ↦ none | some rs ↦ some (e ∷ rs) ]) ≡ some es'
        → (rs : List Export) × (x ≡ some rs) × (es' ≡ e ∷ rs)
    replace_next e none h = absurd (cc)
    replace_next e (some rs) h = (rs, refl, (cc))

    -- the first match is the one that is set anew
    first-replace :
        (es : List Export) {es' : List Export}
        → replace S test f es ≡ some es'
        → (e : Export) × (first S test es' ≡ some (f e))
    first-replace [] h = absurd (cc)
    first-replace (e ∷ es) {es'} h = elim (Bool-cases (test e)) [
      | inl hit ↦
          let set : es' ≡ f e ∷ es = ground (arith, hit) in
          (e, ap (first S test) set ∙ ground (arith, kept e, hit))
      | inr miss ↦
          let (rs, found, shape) = replace_next e (replace S test f es) (rw miss at h) in
          let (e1, hit) = first-replace es found in (e1, ap (first S test) shape ∙ rw miss hit)
    ]

    first-replace_other :
        (other : Export → Bool)
        → ((e : Export) → test e ≡ true → (other e ≡ false) × (other (f e) ≡ false))
        → (es : List Export) {es' : List Export} → replace S test f es ≡ some es'
        → first S other es' ≡ first S other es
    first-replace_other other out [] h = absurd (cc)
    first-replace_other other out (e ∷ es) {es'} h = elim (Bool-cases (test e)) [
      | inl hit ↦
          let set : es' ≡ f e ∷ es = ground (arith, hit) in
          rw set (rw ((out e hit).0, (out e hit).1))
      | inr miss ↦
          let (rs, found, shape) = replace_next e (replace S test f es) (rw miss at h) in
          rw shape
            (ap (λ t. if other e then some e else t) (first-replace_other other out es found))
    ]

  module _ (L : Lists Export) (m : Bytes) (mimetype_in mimetype_out : Option Bytes) (userdata : ℕ)
      (onrequest : Option ℕ) where
    abbrev set : Export → Export
    set e = reset e mimetype_in mimetype_out userdata onrequest

    abbrev fresh : Export
    fresh = new_export m mimetype_in mimetype_out userdata onrequest

    -- what `service_export` was given
    abbrev pub Holds : Export → Type 0
    Holds e =
        (e.mimetype_in ≡ mimetype_in)
        × (e.mimetype_out ≡ mimetype_out)
        × (e.userdata ≡ userdata)
        × (e.onrequest ≡ onrequest)

    abbrev named : Export → Bool
    named e = export_matches S e m

    set-named : (e : Export) → named (set e) ≡ named e
    unfolding export_matches
    set-named e = refl

    fresh-named : named fresh ≡ true
    unfolding export_matches
    fresh-named = rw (S.rstreq_same m)

    abbrev exported : Option (List Export) → List Export → List Export
    exported x es = elim x [ some es' ↦ es' | none ↦ L.list_prepend es fresh ]

    first-exported :
        (es : List Export) (x : Option (List Export))
        → replace S named set es ≡ x
        → (e : Export) × (first S named (exported x es) ≡ some e) × Holds e
    first-exported es none h =
        (fresh, rw (L.prepend_lem es fresh) (rw fresh-named), (refl, refl, refl, refl))
    first-exported es (some es') h =
        let (e, found) = first-replace named set set-named es h in
        (set e, found, (refl, refl, refl, refl))

    -- After `service_export` of a name, whatever was exported before, `service_get_export` of this name
    -- finds an export with the types, the callback and the data that were given.
    pub get-export :
        (es : List Export)
        → (e : Export) × (service_get_export S m
              (service_export S L m mimetype_in mimetype_out userdata onrequest es)
            ≡ some e)
          × Holds e
    unfolding service_get_export service_export
    get-export es =
        let (e, found, holds) = first-exported es (replace S named set es) refl in
        let wildcard = first S (is_wildcard S) (exported (replace S named set es) es) in
        (e, ap (λ x. pick S x wildcard) found, holds)

    first-exported_other :
        (other : Export → Bool)
        → ((e : Export) → named e ≡ true → (other e ≡ false) × (other (set e) ≡ false))
        → (es : List Export) (x : Option (List Export)) → replace S named set es ≡ x
        → first S other (exported x es) ≡ first S other es
    first-exported_other other out es none h =
        rw (L.prepend_lem es fresh) (rw (out fresh fresh-named).0)
    first-exported_other other out es (some es') h =
        first-replace_other named set set-named other out es h

    -- It finds for every other name what it found before, unless one is the other behind a slash, or
    -- the name that is exported means the wildcard.
    pub get-export_other :
        (n : Bytes) (es : List Export)
        → IsFar n m
        → IsPlain m
        → service_get_export S n
            (service_export S L m mimetype_in mimetype_out userdata onrequest es)
          ≡ service_get_export S n es
    unfolding service_get_export service_export
    get-export_other n es far plain =
        ap₂ (pick S)
          (first-exported_other (λ e. export_matches S e n)
            (λ e h. (far-matches e n m far h, far-matches (set e) n m far (set-named e ∙ h))) es
            (replace S named set es) refl)
          (first-exported_other (is_wildcard S)
            (λ e h. (plain-wildcard e m plain h, plain-wildcard (set e) m plain (set-named e ∙ h)))
            es (replace S named set es) refl)
