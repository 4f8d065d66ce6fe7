-- ===== src/Datahub/Links.antt =====
-- librcom/src/datahub.c: the links that are added and removed.
use rcom.Addr.RoundTrip.{addr_eq_same}
use rcom.Base.{
  append-nil, arith, is_some, ==_true, ◌==◌, List, none, some, false, inl, inr, refl, ap, sym, [],
  ◌≡◌, ◌∷◌, ◌++◌, ◌∙◌, ◌+◌, ℕ, Bool-cases, length,
}
use rcom.Addr.{Addr, Inet, addr_eq}
use rcom.Rlib.{Lists, Strings}
use rcom.Datahub.{
  Link, Hub, datahub_find, datahub_add_link, datahub_remove_link, place, remove_pointer,
}

-- no link lies there
abbrev pub IsFree : ℕ → List Link → Type 0
IsFree p [] = Unit
IsFree p (l ∷ ls) = ((l.pointer == p) ≡ false) × IsFree p ls

module _ (I : Inet) (S : Strings) where
  find-append :
      (addr : Addr) (ls ms : List Link)
      → datahub_find I S addr ls ≡ none
      → datahub_find I S addr (ls ++ ms) ≡ datahub_find I S addr ms
  unfolding datahub_find
  find-append addr [] ms q = refl
  find-append addr (l ∷ ls) ms q = elim (Bool-cases (addr_eq I S addr l.addr)) [
    | inl u ↦ absurd (let clash : some l ≡ none = rw u at q in ground (arith, ap is_some clash))
    | inr u ↦ rw u (find-append addr ls ms (rw u at q))
  ]

  find_new :
      (p : ℕ) (addr : Addr)
      → datahub_find I S addr (record { pointer = p; addr = addr } ∷ [])
        ≡ some (record { pointer = p; addr = addr })
  unfolding datahub_find
  find_new p addr = rw (addr_eq_same I S addr) refl

  module _ (L : Lists Link) where
    added :
        (p : ℕ) (hub : Hub) (addr : Addr)
        → datahub_find I S addr hub.links ≡ none
        → datahub_add_link I S L p hub addr
          ≡ record hub { links = hub.links ++ record { pointer = p; addr = addr } ∷ [] }
    unfolding datahub_add_link
    added p hub addr q =
        ap
          (λ o. elim o [
            | some a ↦ hub
            | none ↦ record hub {
              links = L.list_append hub.links (record { pointer = p; addr = addr });
            }
          ])
          q
        ∙ ap (λ ls. record hub { links = ls })
            (L.append_lem hub.links (record { pointer = p; addr = addr }))

    place_free :
        (p i : ℕ) (ls : List Link) (l : Link)
        → IsFree p ls
        → l.pointer ≡ p
        → place p i (ls ++ l ∷ []) ≡ some (i + length ls)
    place_free p i [] l v q = rw (==_true l.pointer p q) (ap some (omega arith))
    place_free p i (m ∷ ls) l v q = rw v.0 (place_free p (i + 1) ls l v.1 q ∙ ap some (omega arith))

    removed :
        (p : ℕ) (ls : List Link) (addr : Addr)
        → IsFree p ls
        → remove_pointer L p (ls ++ record { pointer = p; addr = addr } ∷ []) ≡ ls
    removed p ls addr v =
        let l : Link = record { pointer = p; addr = addr } in
        rw (remove_pointer, place_free p 0 ls l v refl)
          (ap (L.list_remove (ls ++ l ∷ [])) (omega arith) ∙ L.remove_lem ls [] l ∙ append-nil ls)

    readded :
        (r : ℕ) (hub : Hub) (addr : Addr) (l : Link)
        → datahub_find I S addr hub.links ≡ some l
        → datahub_add_link I S L r hub addr ≡ hub
    unfolding datahub_add_link
    readded r hub addr l q =
        ap
          (λ o. elim o [
            | some a ↦ hub
            | none ↦ record hub {
              links = L.list_append hub.links (record { pointer = r; addr = addr });
            }
          ])
          q

    taken_out :
        (hub : Hub) (addr : Addr) (l : Link)
        → datahub_find I S addr hub.links ≡ some l
        → datahub_remove_link I S L hub addr
          ≡ record hub { links = remove_pointer L l.pointer hub.links }
    unfolding datahub_remove_link
    taken_out hub addr l q =
        ap
          (λ o. elim o [
            | none ↦ hub
            | some a ↦ record hub { links = remove_pointer L a.pointer hub.links }
          ])
          q

    -- A link is added once: a second call with the address leaves the hub as it is, whatever memory it
    -- would take. If the hub did not have the address before, to remove it then brings the links back.
    pub add_link_once :
        (p r : ℕ) (hub : Hub) (addr : Addr)
        → datahub_find I S addr hub.links ≡ none
        → IsFree p hub.links
        → let hub' = datahub_add_link I S L p hub addr in
          (datahub_add_link I S L r hub' addr ≡ hub') × (datahub_remove_link I S L hub' addr ≡ hub)
    add_link_once p r hub addr q v =
        let l : Link = record { pointer = p; addr = addr } in
        let after : Hub = record hub { links = hub.links ++ l ∷ [] } in
        let put : datahub_add_link I S L p hub addr ≡ after = added p hub addr q in
        let found : datahub_find I S addr after.links ≡ some l =
          find-append addr hub.links (l ∷ []) q ∙ find_new p addr in
        (
          ap (λ h. datahub_add_link I S L r h addr) put ∙ readded r after addr l found ∙ sym put,
          ap (λ h. datahub_remove_link I S L h addr) put
              ∙ taken_out after addr l found
              ∙ ap (λ ls. record hub { links = ls }) (removed p hub.links addr v),
        )
