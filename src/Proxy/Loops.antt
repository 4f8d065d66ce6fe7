-- ===== src/Proxy/Loops.antt =====
-- librcom/src/proxy.c: the loops over selected entries.
use rcom.Base.{
  Bool, ◌⊎◌, Bool-cases, some-inj, is_some, Option-cases, inl, inr, arith, refl, ap, All, List,
  Option, none, some, false, true, [], ◌∷◌, ◌≡◌, ◌≢◌, ◌∙◌, ℕ,
}
use rcom.Registry.{
  Entry, EntryType, type_none, type_any, type_datalink, type_datahub, type_messagelink,
  type_messagehub, type_service, type_streamer, type_streamerlink,
}
use rcom.Proxy.{Proxy, each_local, first_local}

-- A call that gives a proxy with the same entries.
abbrev pub Kept : Proxy → Option Proxy → Type 0
Kept p r = (p' : Proxy) × (r ≡ some p') × (p'.entries ≡ p.entries)

-- No element is NULL, and each has the property.
abbrev pub Present : (Entry → Type 0) → List (Option Entry) → Type 0
Present P l = All (λ o. (e : Entry) × (o ≡ some e) × P e) l

each_local_step :
    (step : Entry → ℕ → Proxy → Option Proxy) (e : Entry) (link : ℕ) (l : List (Option Entry))
    (p p' : Proxy)
    → e.endpoint ≡ some link
    → step e link p ≡ some p'
    → each_local step (some e ∷ l) p ≡ each_local step l p'
unfolding each_local
each_local_step step e link l p p' n q = rw (each_local, n, q) refl

first_local_step :
    (step : Entry → ℕ → Proxy → Option Proxy) (e : Entry) (link : ℕ) (l : List (Option Entry))
    (p : Proxy)
    → e.endpoint ≡ some link
    → first_local step (some e ∷ l) p ≡ step e link p
unfolding first_local
first_local_step step e link l p n = ap (λ o. elim o [ none ↦ some p | some hub ↦ step e hub p ]) n

pub each_local-Kept :
    (step : Entry → ℕ → Proxy → Option Proxy) (P : Entry → Type 0) (l : List (Option Entry))
    (p : Proxy)
    → ((e : Entry) (link : ℕ) (q : Proxy) → Kept q (step e link q))
    → Present P l
    → Kept p (each_local step l p)
unfolding each_local
each_local-Kept step P [] p k v = (p, refl, refl)
each_local-Kept step P (none ∷ l) p k v =
    absurd (let (e, q, w) = v.0 in ground (arith, ap is_some q))
each_local-Kept step P (some e ∷ l) p k v = elim (Option-cases e.endpoint) [
  | inl n ↦ rw (each_local, n) (each_local-Kept step P l p k v.1)
  | inr (link, n) ↦
      let (p1, q1, r1) = k e link p in
      let (p2, q2, r2) = each_local-Kept step P l p1 k v.1 in
      (p2, each_local_step step e link l p p1 n q1 ∙ q2, r2 ∙ r1)
]

pub first_local-Kept :
    (step : Entry → ℕ → Proxy → Option Proxy) (P : Entry → Type 0) (l : List (Option Entry))
    (p : Proxy)
    → ((e : Entry) (link : ℕ) (q : Proxy) → Kept q (step e link q))
    → Present P l
    → Kept p (first_local step l p)
unfolding first_local
first_local-Kept step P [] p k v = (p, refl, refl)
first_local-Kept step P (none ∷ l) p k v =
    absurd (let (e, q, w) = v.0 in ground (arith, ap is_some q))
first_local-Kept step P (some e ∷ l) p k v = elim (Option-cases e.endpoint) [
  | inl n ↦ (p, rw (first_local, n) refl, refl)
  | inr (link, n) ↦
      let (p1, q1, r1) = k e link p in (p1, first_local_step step e link l p n ∙ q1, r1)
]

-- Entries of other programs only.
abbrev pub IsRemote : Entry → Type 0
IsRemote e = e.endpoint ≡ none

pub each_local-remote :
    (step : Entry → ℕ → Proxy → Option Proxy) (l : List (Option Entry)) (p : Proxy)
    → Present IsRemote l
    → Kept p (each_local step l p)
unfolding each_local
each_local-remote step [] p v = (p, refl, refl)
each_local-remote step (none ∷ l) p v = absurd (let (e, q, w) = v.0 in ground (arith, ap is_some q))
each_local-remote step (some e ∷ l) p v =
    let (f, q, w) = v.0 in
    let same : some e ≡ some f = q in
    let here : e.endpoint ≡ none = cc (some-inj same, w) in
    rw (each_local, here) (each_local-remote step l p v.1)

is_hub : EntryType → Bool
is_hub type_messagehub = true
is_hub _ = false

not_hub : (kind : EntryType) → is_hub kind ≡ false → kind ≢ type_messagehub
unfolding is_hub
not_hub kind v e = let clash : is_hub kind ≡ true = ap is_hub e in ground (arith, v, clash)

hub_true : (kind : EntryType) → is_hub kind ≡ true → kind ≡ type_messagehub
unfolding is_hub
hub_true type_messagehub v = refl
hub_true type_none v = absurd (ground (arith, v))
hub_true type_any v = absurd (ground (arith, v))
hub_true type_datalink v = absurd (ground (arith, v))
hub_true type_datahub v = absurd (ground (arith, v))
hub_true type_messagelink v = absurd (ground (arith, v))
hub_true type_service v = absurd (ground (arith, v))
hub_true type_streamer v = absurd (ground (arith, v))
hub_true type_streamerlink v = absurd (ground (arith, v))

pub hub-cases : (kind : EntryType) → (kind ≡ type_messagehub) ⊎ (kind ≢ type_messagehub)
hub-cases kind = elim (Bool-cases (is_hub kind)) [
  | inl u ↦ inl (hub_true kind u)
  | inr u ↦ inr (not_hub kind u)
]
