-- ===== src/Http/Headers.antt =====
-- librcom/src/http.c and request.c: a header that is set and looked up.
use rcom.Rlib.{rstreq_false, Lists, Strings}
use rcom.Base.{
  sym, is_some, some-inj, if◌then◌else◌, inl, inr, arith, refl, ap, List, some, false, [], ◌∷◌, ◌≡◌,
  ◌≢◌, ◌∙◌, Bytes, Bool-cases, Option-cases,
}
use rcom.Http.{Header, get_header, set_header, replace_value}

module _ (S : Strings) (L : Lists Header) where
  get-replace :
      (key value : Bytes) (hs : List Header) (h : Header)
      → get_header S L key hs ≡ some h
      → get_header S L key (replace_value S L key value hs)
        ≡ some (record { name = h.name; value = value })
  unfolding get_header
  get-replace key value [] h q = absurd (ground (arith, ap is_some q))
  get-replace key value (g ∷ hs) h q = elim (Bool-cases (S.rstreq key g.name)) [
    | inl u ↦
        let same : g ≡ h = some-inj (rw u at q) in
        rw (u, u) (ap (λ k. some (record { name = k.name; value = value })) same)
    | inr u ↦ rw (u, u) (get-replace key value hs h (rw u at q))
  ]

  get_name :
      (key : Bytes) (hs : List Header) (h : Header) → get_header S L key hs ≡ some h → h.name ≡ key
  unfolding get_header
  get_name key [] h q = absurd (ground (arith, ap is_some q))
  get_name key (g ∷ hs) h q = elim (Bool-cases (S.rstreq key g.name)) [
    | inl u ↦
        let same : g ≡ h = some-inj (rw u at q) in
        sym (S.rstreq_true key g.name u ∙ ap (λ k. k.name) same)
    | inr u ↦ get_name key hs h (rw u at q)
  ]

  get-replace_other :
      (key other value : Bytes) (hs : List Header)
      → other ≢ key
      → get_header S L other (replace_value S L key value hs) ≡ get_header S L other hs
  unfolding get_header
  get-replace_other key other value [] n = refl
  get-replace_other key other value (g ∷ hs) n = elim (Bool-cases (S.rstreq key g.name)) [
    | inl u ↦
        let differs : S.rstreq other g.name ≡ false =
          rstreq_false S other g.name (λ q. n (q ∙ sym (S.rstreq_true key g.name u))) in
        rw (u, differs) refl
    | inr u ↦ rw u (
        ap (λ o. if S.rstreq other g.name then some g else o)
          (get-replace_other key other value hs n))
  ]

  pub get-set_same :
      (key value : Bytes) (hs : List Header)
      → get_header S L key (set_header S L key value hs)
        ≡ some (record { name = key; value = value })
  unfolding set_header get_header
  get-set_same key value hs = elim (Option-cases (get_header S L key hs)) [
    | inl q ↦
        rw (set_header, q, L.prepend_lem hs (record { name = key; value = value }))
          (rw (S.rstreq_same key) refl)
    | inr (h, q) ↦
        rw (set_header, q)
          (get-replace key value hs h q
            ∙ ap (λ k. some (record { name = k; value = value })) (get_name key hs h q))
  ]

  pub get-set_other :
      (key other value : Bytes) (hs : List Header)
      → other ≢ key
      → get_header S L other (set_header S L key value hs) ≡ get_header S L other hs
  unfolding set_header get_header
  get-set_other key other value hs n = elim (Option-cases (get_header S L key hs)) [
    | inl q ↦
        rw (set_header, q, L.prepend_lem hs (record { name = key; value = value }))
          (rw (rstreq_false S other key n) refl)
    | inr (h, q) ↦ rw (set_header, q) (get-replace_other key other value hs n)
  ]

  -- A header that is set is found under its name with the new value, whether it was there before or not;
  -- what is found under any other name stays.
  pub get-set_header :
      (key other value : Bytes) (hs : List Header)
      → other ≢ key
      → (get_header S L key (set_header S L key value hs)
          ≡ some (record { name = key; value = value }))
        × (get_header S L other (set_header S L key value hs) ≡ get_header S L other hs)
  get-set_header key other value hs n =
      (get-set_same key value hs, get-set_other key other value hs n)
