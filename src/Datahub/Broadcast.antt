-- ===== src/Datahub/Broadcast.antt =====
-- librcom/src/datahub.c: the two loops of a broadcast, and one pass over the links.
use rcom.Datalink.Delivery.{taken}
use rcom.Base.{
  none, true, append_assoc, arith, not, ◌&&◌, All, ==_true, ◌==◌, Bool, List, Option, some, false,
  inl, inr, refl, ap, sym, [], ◌≡◌, ◌∷◌, ◌++◌, ◌∙◌, ◌+◌, ℕ, Bytes, Bool-cases, length,
  if◌then◌else◌, onto,
}
use rcom.Addr.{Addr}
use rcom.Rlib.{Lists}
use rcom.Data.{Data, datagram}
use rcom.Datalink.{Wire}
use rcom.Datahub.{
  Link, Hub, place, remove_pointer, remove_all, broadcast_to, datahub_broadcast_locked, is_excluded,
  stamped,
}
use rcom.Datahub.Links.{IsFree}

-- No two links lie at the same place.
abbrev pub IsApart : List Link → Type 0
IsApart [] = Unit
IsApart (l ∷ ls) = IsFree l.pointer ls × IsApart ls

-- whether the link lies elsewhere than what is to be left out
abbrev pub is_target : Option ℕ → Link → Bool
is_target none l = true
is_target (some p) l = not (p == l.pointer)

excluded-target :
    (exclude : Option ℕ) (l : Link) → is_excluded exclude l ≡ not (is_target exclude l)
excluded-target none l = refl
excluded-target (some p) l = ground arith

module _ (W : Wire) (exclude : Option ℕ) (b : Bytes) where
  -- what was sent after a broadcast of the datagram `b` to the links
  abbrev pub all_sent : List Link → List (Addr × Bytes) → List (Addr × Bytes)
  all_sent [] sent = sent
  all_sent (l ∷ ls) sent = all_sent ls (if is_target exclude l then (l.addr, b) ∷ sent else sent)

  -- whether `sendto` refuses the datagram to a link, with what was sent before
  abbrev refused : Link → List (Addr × Bytes) → Bool
  refused l sent = is_target exclude l && not (W.sendto ((l.addr, b) ∷ sent))

  abbrev next : Link → List (Addr × Bytes) → List (Addr × Bytes)
  next l sent = if is_target exclude l then (l.addr, b) ∷ sent else sent

  -- the links that stay, and those that go
  abbrev pub survivors : List Link → List (Addr × Bytes) → List Link
  survivors [] sent = []
  survivors (l ∷ ls) sent =
      let rest = survivors ls (next l sent) in if refused l sent then rest else l ∷ rest

  abbrev failures : List Link → List (Addr × Bytes) → List Link
  failures [] sent = []
  failures (l ∷ ls) sent =
      let rest = failures ls (next l sent) in if refused l sent then l ∷ rest else rest

  free-append : (p : ℕ) (xs ys : List Link) → IsFree p xs → IsFree p ys → IsFree p (xs ++ ys)
  free-append p [] ys v w = w
  free-append p (x ∷ xs) ys v w = (v.0, free-append p xs ys v.1 w)

  moved :
      (xs : List Link) (l : Link) (ls : List Link)
      → All (λ m. IsFree m.pointer xs) ls
      → IsFree l.pointer ls
      → All (λ m. IsFree m.pointer (xs ++ l ∷ [])) ls
  moved xs l [] v w = tt
  moved xs l (m ∷ ls) v w =
      let q = w.0 in
      let flipped : (l.pointer == m.pointer) ≡ false = ground (arith, q) in
      (free-append m.pointer xs (l ∷ []) v.0 (flipped, tt), moved xs l ls v.1 w.1)

  module _ (L : Lists Link) where
    place-middle :
        (i : ℕ) (xs ys : List Link) (l : Link)
        → IsFree l.pointer xs
        → place l.pointer i (xs ++ l ∷ ys) ≡ some (i + length xs)
    place-middle i [] ys l v = rw (==_true l.pointer l.pointer refl) (ap some (omega arith))
    place-middle i (x ∷ xs) ys l v =
        rw v.0 (place-middle (i + 1) xs ys l v.1 ∙ ap some (omega arith))

    remove-middle :
        (xs ys : List Link) (l : Link)
        → IsFree l.pointer xs
        → remove_pointer L l.pointer (xs ++ l ∷ ys) ≡ xs ++ ys
    remove-middle xs ys l v =
        rw (remove_pointer, place-middle 0 xs ys l v)
          (ap (L.list_remove (xs ++ l ∷ ys)) (omega arith) ∙ L.remove_lem xs ys l)

    remove_all-failures :
        (rm xs ls : List Link) (sent : List (Addr × Bytes))
        → All (λ m. IsFree m.pointer xs) ls
        → IsApart ls
        → remove_all W L (onto rm (failures ls sent)) (xs ++ ls)
          ≡ remove_all W L rm (xs ++ survivors ls sent)
    unfolding remove_all
    remove_all-failures rm xs [] sent v w = refl
    remove_all-failures rm xs (l ∷ ls) sent v w =
        let onward = moved xs l ls v.1 w.0 in
        let shift : (ys : List Link) → xs ++ l ∷ ys ≡ (xs ++ l ∷ []) ++ ys =
          (λ ys. sym (append_assoc xs (l ∷ []) ys)) in
        elim (Bool-cases (refused l sent)) [
          | inl u ↦ rw u (
              ap (remove_all W L (onto (l ∷ rm) (failures ls (next l sent)))) (shift ls)
              ∙ remove_all-failures (l ∷ rm) (xs ++ l ∷ []) ls (next l sent) onward w.1
              ∙ ap (remove_all W L (l ∷ rm)) (sym (shift (survivors ls (next l sent))))
              ∙ ap (remove_all W L rm) (remove-middle xs (survivors ls (next l sent)) l v.0))
          | inr u ↦ rw u (
              ap (remove_all W L (onto rm (failures ls (next l sent)))) (shift ls)
              ∙ remove_all-failures rm (xs ++ l ∷ []) ls (next l sent) onward w.1
              ∙ ap (remove_all W L rm) (sym (shift (survivors ls (next l sent)))))
        ]

    broadcast_to_lem :
        (packet : Data) (ls rm : List Link) (sent : List (Addr × Bytes))
        → datagram packet ≡ some b
        → broadcast_to W L exclude packet ls rm sent
          ≡ some (onto rm (failures ls sent), all_sent ls sent)
    unfolding broadcast_to
    broadcast_to_lem packet [] rm sent d = refl
    broadcast_to_lem packet (l ∷ ls) rm sent d = elim (Bool-cases (is_target exclude l)) [
      | inr u ↦
          rw (broadcast_to, excluded-target exclude l, u) (broadcast_to_lem packet ls rm sent d)
      | inl u ↦ elim (Bool-cases (W.sendto ((l.addr, b) ∷ sent))) [
        | inl k ↦
            rw (broadcast_to, excluded-target exclude l, u, taken W sent l.addr packet b d, k)
              (broadcast_to_lem packet ls rm ((l.addr, b) ∷ sent) d)
        | inr k ↦
            rw
              (
                broadcast_to,
                excluded-target exclude l,
                u,
                taken W sent l.addr packet b d,
                k,
                L.prepend_lem rm l,
              )
              (broadcast_to_lem packet ls (l ∷ rm) ((l.addr, b) ∷ sent) d)
      ]
    ]

    all-free : (ls : List Link) → All (λ m. IsFree m.pointer []) ls
    all-free [] = tt
    all-free (l ∷ ls) = (tt, all-free ls)

    -- A broadcast of a packet sends its datagram once to each link but the excluded one, in the order of
    -- the links, also behind a link that fails; the links that `sendto` refused are gone, and the others
    -- stay in their order. No two links lie at the same place.
    pub broadcast_locked_lem :
        (hub : Hub) (packet : Data) (time : Option ℕ)
        → datagram (stamped time packet) ≡ some b
        → IsApart hub.links
        → datahub_broadcast_locked W L hub exclude packet time
          ≡ some (record hub {
            links = survivors hub.links hub.sent;
            sent = all_sent hub.links hub.sent;
          })
    unfolding datahub_broadcast_locked
    broadcast_locked_lem hub packet time d v =
        rw
          (datahub_broadcast_locked, broadcast_to_lem (stamped time packet) hub.links [] hub.sent d)
          (ap (λ ls. some (record hub { links = ls; sent = all_sent hub.links hub.sent }))
            (remove_all-failures [] [] hub.links hub.sent (all-free hub.links) v))
