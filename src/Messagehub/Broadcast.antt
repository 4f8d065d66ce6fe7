-- ===== src/Messagehub/Broadcast.antt =====
-- librcom/src/messagehub.c: a broadcast, link by link.
use rcom.Link.Texts.{can_send, works, after_text, send_text_lem}
use rcom.Base.{
  ◌∙◌, arith, none, some, not, ◌==◌, if_both, inl, inr, refl, ap, Bool, List, Option, true, [], ◌∷◌,
  ◌&&◌, ◌||◌, ◌≡◌, ℤ, pos, negsuc, if◌then◌else◌, map, Bytes, ℕ, Bool-cases,
}
use rcom.Messagehub.{Member, Hub, is_excluded, broadcast_from, messagehub_broadcast_text}

-- whether the link lies elsewhere than what is to be left out
abbrev pub is_target : Option ℕ → Member → Bool
is_target none m = true
is_target (some p) m = not (p == m.pointer)

excluded-target :
    (exclude : Option ℕ) (m : Member) → is_excluded exclude m ≡ not (is_target exclude m)
excluded-target none m = refl
excluded-target (some p) m = ground arith

module _ (exclude : Option ℕ) (text : Bytes) where
  -- a link after the broadcast: the text is behind what was sent on it if it is to have it, is open, and
  -- its socket works
  abbrev pub served : Member → Member
  served m =
      if is_target exclude m && can_send m.link
      then record m { link = after_text text m.link }
      else m

  -- whether a link has the text if it is to have it
  abbrev pub is_served : Member → Bool
  is_served m = not (is_target exclude m) || (can_send m.link && works m.link.sends)

  abbrev pub all_served : List Member → Bool
  all_served [] = true
  all_served (m ∷ ms) = is_served m && all_served ms

  one_link :
      (err : ℤ) (m : Member) (ms : List Member)
      → broadcast_from exclude text err (m ∷ ms) ≡ (
          let rest = broadcast_from exclude text (if is_served m then err else negsuc 0) ms in
          (rest.0, served m ∷ rest.1))
  unfolding broadcast_from
  one_link err m ms = elim (Bool-cases (is_target exclude m)) [
    | inr u ↦ rw (broadcast_from, excluded-target exclude m, u) refl
    | inl u ↦ elim (Bool-cases (can_send m.link)) [
      | inr k ↦ rw (broadcast_from, excluded-target exclude m, u, send_text_lem m.link text, k) refl
      | inl k ↦ elim (Bool-cases (works m.link.sends)) [
        | inr w ↦
            rw (broadcast_from, excluded-target exclude m, u, send_text_lem m.link text, k, w) refl
        | inl w ↦
            rw (broadcast_from, excluded-target exclude m, u, send_text_lem m.link text, k, w) refl
      ]
    ]
  ]

  broadcast_from_lem :
      (err : ℤ) (ms : List Member)
      → broadcast_from exclude text err ms
        ≡ (if all_served ms then err else negsuc 0, map served ms)
  unfolding broadcast_from
  broadcast_from_lem err [] = refl
  broadcast_from_lem err (m ∷ ms) = elim (Bool-cases (is_served m)) [
    | inl u ↦ one_link err m ms ∙ rw (u, broadcast_from_lem err ms) refl
    | inr u ↦
        one_link err m ms
        ∙ rw (u, broadcast_from_lem (negsuc 0) ms)
            (if_both {A = ℤ}
              (λ e.
                ◌≡◌ {A = ℤ × List Member} (e, map served (m ∷ ms)) (negsuc 0, map served (m ∷ ms)))
              (all_served ms) refl refl)
  ]

  -- A broadcast appends the text, as a text message, to what was sent on each link that lies elsewhere
  -- than the excluded one, is open, and whose socket works, whatever happens on the links before; the
  -- others keep what was sent on them, and the links stay in their order. It returns 0 if each link
  -- that lies elsewhere than the excluded one has the text, and -1 otherwise.
  pub broadcast_text_lem :
      (hub : Hub)
      → messagehub_broadcast_text hub exclude text ≡ (
        if all_served hub.links then pos 0 else negsuc 0,
        record hub { links = map served hub.links },
      )
  unfolding messagehub_broadcast_text
  broadcast_text_lem hub =
      ap (λ r. (r.0, record hub { links = r.1 })) (broadcast_from_lem (pos 0) hub.links)
