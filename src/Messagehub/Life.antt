-- ===== src/Messagehub/Life.antt =====
-- librcom/src/messagehub.c: the links of a hub from their start to their deletion.
use rcom.Rlib.{Lists}
use rcom.Base.{
  inr, inl, Bool-cases, if◌then◌else◌, append_assoc, append-nil, subst, ap₂, sym, suc, All-append,
  All, ==_true, arith, refl, ap, List, some, false, [], ◌∷◌, ◌++◌, ◌≡◌, ◌∙◌, ◌==◌, ◌+◌, length, ℕ,
}
use rcom.Messagehub.{
  Member, Hub, pointers, place, remove_member, messagehub_add_link, messagehub_remove_link,
  messagehub_delete_closed_links,
}

-- no link lies there
abbrev pub IsFree : ℕ → List ℕ → Type 0
IsFree p qs = All (λ q. (q == p) ≡ false) qs

-- the places are different
abbrev pub IsApart : List ℕ → Type 0
IsApart [] = Unit
IsApart (p ∷ ps) = IsFree p ps × IsApart ps

-- all links of the hub, open or closed
abbrev pub places : Hub → List ℕ
places hub = pointers hub.links ++ pointers hub.closed_links

-- a hub, and the places of the links that were deleted and that `malloc` has not given out again
pub record Memory : Type 0 where
  pub hub : Hub
  pub freed : List ℕ

abbrev pub all_places : Memory → List ℕ
all_places w = places w.hub ++ w.freed

-- the places but for one
abbrev pub without : ℕ → List ℕ → List ℕ
without p [] = []
without p (q ∷ qs) = let rest = without p qs in if q == p then rest else q ∷ rest

without-IsFree : (p : ℕ) (qs : List ℕ) → IsFree p (without p qs)
without-IsFree p [] = tt
without-IsFree p (q ∷ qs) = elim (Bool-cases (q == p)) [
  | inl same ↦ rw same (without-IsFree p qs)
  | inr other ↦ rw other (other, without-IsFree p qs)
]

IsFree-without : (r p : ℕ) (qs : List ℕ) → IsFree r qs → IsFree r (without p qs)
IsFree-without r p [] v = tt
IsFree-without r p (q ∷ qs) v = elim (Bool-cases (q == p)) [
  | inl same ↦ rw same (IsFree-without r p qs v.1)
  | inr other ↦ rw other (v.0, IsFree-without r p qs v.1)
]

flipped : (p : ℕ) (qs : List ℕ) (q : ℕ) → IsFree p (q ∷ []) → IsFree q (p ∷ [])
flipped p qs q v = let w = v.0 in (ground (arith, w), tt)

free-split : (p : ℕ) (xs ys : List ℕ) → IsFree p (xs ++ ys) → IsFree p xs × IsFree p ys
free-split p [] ys v = (tt, v)
free-split p (x ∷ xs) ys v = let r = free-split p xs ys v.1 in ((v.0, r.0), r.1)

IsApart-without : (p : ℕ) (xs qs : List ℕ) → IsApart (xs ++ qs) → IsApart (xs ++ without p qs)
IsApart-without p [] [] v = tt
IsApart-without p [] (q ∷ qs) v = elim (Bool-cases (q == p)) [
  | inl same ↦ rw same (IsApart-without p [] qs v.1)
  | inr other ↦ rw other (IsFree-without q p qs v.0, IsApart-without p [] qs v.1)
]
IsApart-without p (x ∷ xs) qs v =
    let (a, b) = free-split x xs qs v.0 in
    (
      All-append (λ q. (q == x) ≡ false) xs (without p qs) a (IsFree-without x p qs b),
      IsApart-without p xs qs v.1,
    )

-- a place in the middle, taken out and put in
IsApart-out :
    (xs ys : List ℕ) (p : ℕ)
    → IsApart (xs ++ p ∷ ys)
    → IsFree p xs × IsFree p ys × IsApart (xs ++ ys)
IsApart-out [] ys p v = (tt, v.0, v.1)
IsApart-out (x ∷ xs) ys p v =
    let (f, g, w) = IsApart-out xs ys p v.1 in
    let (a, b) = free-split x xs (p ∷ ys) v.0 in
    (((flipped x [] p (b.0, tt)).0, f), g, (All-append (λ q. (q == x) ≡ false) xs ys a b.1, w))

IsApart-in :
    (xs ys : List ℕ) (p : ℕ)
    → IsFree p xs
    → IsFree p ys
    → IsApart (xs ++ ys)
    → IsApart (xs ++ p ∷ ys)
IsApart-in [] ys p f g w = (g, w)
IsApart-in (x ∷ xs) ys p f g w =
    let (a, b) = free-split x xs ys w.0 in
    (
      All-append (λ q. (q == x) ≡ false) xs (p ∷ ys) a ((flipped p [] x (f.0, tt)).0, b),
      IsApart-in xs ys p f.1 g w.1,
    )

place-middle :
    (i : ℕ) (xs ys : List ℕ) (p : ℕ) → IsFree p xs → place p i (xs ++ p ∷ ys) ≡ some (i + length xs)
place-middle i [] ys p v = rw (==_true p p refl) (ap some (omega arith))
place-middle i (x ∷ xs) ys p v = rw v.0 (place-middle (i + 1) xs ys p v.1 ∙ ap some (omega arith))

pointers-append : (xs ys : List Member) → pointers (xs ++ ys) ≡ pointers xs ++ pointers ys
pointers-append [] ys = refl
pointers-append (x ∷ xs) ys = ap (λ l. x.pointer ∷ l) (pointers-append xs ys)

length-pointers : (xs : List Member) → length (pointers xs) ≡ length xs
length-pointers [] = refl
length-pointers (x ∷ xs) = ap suc (length-pointers xs)

module _ (L : Lists Member) where
  remove-middle :
      (xs ys : List Member) (m : Member)
      → IsFree m.pointer (pointers xs)
      → remove_member L m.pointer (xs ++ m ∷ ys) ≡ xs ++ ys
  remove-middle xs ys m v =
      rw
        (
          remove_member,
          pointers-append xs (m ∷ ys),
          place-middle 0 (pointers xs) (pointers ys) m.pointer v,
        )
        (ap (L.list_remove (xs ++ m ∷ ys)) (omega (arith, length-pointers xs))
          ∙ L.remove_lem xs ys m)

  -- What happens to a hub: a link opens at a place where the hub has none, a link that is open is
  -- removed, or the closed ones are deleted.
  pub data Step : Memory → Memory → Type 0 where
    opens :
        (w : Memory) (m : Member)
        → IsFree m.pointer (places w.hub)
        → Step w (record { hub = messagehub_add_link L w.hub m; freed = without m.pointer w.freed })
    closes :
        (w : Memory) (xs ys : List Member) (m : Member)
        → w.hub.links ≡ xs ++ m ∷ ys
        → Step w (record w { hub = messagehub_remove_link L w.hub m })
    cleans :
        (w : Memory)
        → Step w (record {
          hub = (messagehub_delete_closed_links w.hub).0;
          freed = pointers (messagehub_delete_closed_links w.hub).1 ++ w.freed;
        })

  pub data Steps : Memory → Memory → Type 0 where
    stays : (w : Memory) → Steps w w
    moves : (a b c : Memory) → Step a b → Steps b c → Steps a c

  add-IsApart :
      (w : Memory) (m : Member)
      → IsFree m.pointer (places w.hub)
      → IsApart (all_places w)
      → IsApart (places (messagehub_add_link L w.hub m) ++ without m.pointer w.freed)
  unfolding messagehub_add_link
  add-IsApart w m f v =
      let hub = w.hub in
      let ps = pointers hub.links in
      let cs = pointers hub.closed_links in
      let fs = without m.pointer w.freed in
      let (a, b) = free-split m.pointer ps cs f in
      let after : places (messagehub_add_link L hub m) ++ fs ≡ ps ++ m.pointer ∷ (cs ++ fs) =
        ap (λ ms. (pointers ms ++ cs) ++ fs) (L.append_lem hub.links m)
        ∙ ap (λ l. (l ++ cs) ++ fs) (pointers-append hub.links (m ∷ []))
        ∙ ap (λ l. l ++ fs) (append_assoc ps (m.pointer ∷ []) cs)
        ∙ append_assoc ps (m.pointer ∷ cs) fs in
      let before : IsApart (ps ++ (cs ++ fs)) =
        subst IsApart (append_assoc ps cs fs) (IsApart-without m.pointer (places hub) w.freed v) in
      subst IsApart (sym after) (
        IsApart-in ps (cs ++ fs) m.pointer a
          (All-append (λ q. (q == m.pointer) ≡ false) cs fs b (without-IsFree m.pointer w.freed))
          before)

  remove-IsApart :
      (w : Memory) (xs ys : List Member) (m : Member)
      → w.hub.links ≡ xs ++ m ∷ ys
      → IsApart (all_places w)
      → IsApart (places (messagehub_remove_link L w.hub m) ++ w.freed)
  unfolding messagehub_remove_link
  remove-IsApart w xs ys m q v =
      let hub = w.hub in
      let ps = pointers xs in
      let qs = pointers ys in
      let cs = pointers hub.closed_links in
      let fs = w.freed in
      let before : all_places w ≡ ps ++ m.pointer ∷ (qs ++ (cs ++ fs)) =
        ap (λ ms. (pointers ms ++ cs) ++ fs) q
        ∙ ap (λ l. (l ++ cs) ++ fs) (pointers-append xs (m ∷ ys))
        ∙ append_assoc (ps ++ m.pointer ∷ qs) cs fs
        ∙ append_assoc ps (m.pointer ∷ qs) (cs ++ fs) in
      let (a, b, u) = IsApart-out ps (qs ++ (cs ++ fs)) m.pointer (subst IsApart before v) in
      let (b1, b2) = free-split m.pointer qs (cs ++ fs) b in
      let left : remove_member L m.pointer hub.links ≡ xs ++ ys =
        ap (remove_member L m.pointer) q ∙ remove-middle xs ys m a in
      let after : places (messagehub_remove_link L hub m) ++ fs
          ≡ (ps ++ qs) ++ m.pointer ∷ (cs ++ fs) =
        ap₂ (λ ms ns. (pointers ms ++ pointers ns) ++ fs) left (L.prepend_lem hub.closed_links m)
        ∙ ap (λ l. (l ++ m.pointer ∷ cs) ++ fs) (pointers-append xs ys)
        ∙ append_assoc (ps ++ qs) (m.pointer ∷ cs) fs in
      subst IsApart (sym after) (
        IsApart-in (ps ++ qs) (cs ++ fs) m.pointer
          (All-append (λ q. (q == m.pointer) ≡ false) ps qs a b1) b2
          (subst IsApart (sym (append_assoc ps qs (cs ++ fs))) u))

  clean-IsApart :
      (w : Memory)
      → IsApart (all_places w)
      → IsApart (
          places (messagehub_delete_closed_links w.hub).0
          ++ (pointers (messagehub_delete_closed_links w.hub).1 ++ w.freed))
  unfolding messagehub_delete_closed_links
  clean-IsApart w v =
      let ps = pointers w.hub.links in
      let cs = pointers w.hub.closed_links in
      subst IsApart
        (append_assoc ps cs w.freed ∙ ap (λ l. l ++ (cs ++ w.freed)) (sym (append-nil ps))) v

  step-IsApart : (a b : Memory) → Step a b → IsApart (all_places a) → IsApart (all_places b)
  step-IsApart a b (opens w m f) v = add-IsApart w m f v
  step-IsApart a b (closes w xs ys m q) v = remove-IsApart w xs ys m q v
  step-IsApart a b (cleans w) v = clean-IsApart w v

  -- Through any sequence of links that open at places where the hub has none, links that are open and
  -- are removed, and deletions of the closed ones, no link is twice among the links that are open, the
  -- closed ones, and those that were deleted and whose place is not in use again: none is deleted while
  -- the hub still has it, and none is deleted twice.
  pub Steps-IsApart : (a b : Memory) → Steps a b → IsApart (all_places a) → IsApart (all_places b)
  Steps-IsApart a b (stays w) v = v
  Steps-IsApart a b (moves c d e s t) v = Steps-IsApart d e t (step-IsApart c d s v)
