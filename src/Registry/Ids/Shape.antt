-- ===== src/Registry/Ids/Shape.antt =====
-- librcom/src/registry.c: `registry_valid_id` against the form of an identifier, character by character.
use rcom.Base.{
  ℕ_discrete, arith, subst, ap, sym, ◌*◌, ◌+◌, length, is_some, ==_false, ==_true, inr, inl, refl,
  Bool, List, Option, none, some, suc, zero, false, true, [], ◌&&◌, ◌∙◌, ◌≡◌, ◌∷◌, Bool-cases, ◌==◌,
  Bytes, ℕ,
}
use rcom.Registry.Ids.{registry_valid_id, is_in, hex_digits, hex_run, dash, groups, then_run}

-- The form 8-4-4-4-12: true where a dash stands.
abbrev pub uuid_form : List Bool
uuid_form =
    false ∷ false ∷ false ∷ false ∷ false ∷ false ∷ false ∷ false ∷ true ∷ false ∷ false ∷ false
    ∷ false ∷ true ∷ false ∷ false ∷ false ∷ false ∷ true ∷ false ∷ false ∷ false ∷ false ∷ true
    ∷ false ∷ false ∷ false ∷ false ∷ false ∷ false ∷ false ∷ false ∷ false ∷ false ∷ false ∷ false
    ∷ []

abbrev pub fits : List Bool → Bytes → Bool
fits [] [] = true
fits [] (c ∷ s) = false
fits (d ∷ form) [] = false
fits (true ∷ form) (c ∷ s) = (c == 45) && fits form s
fits (false ∷ form) (c ∷ s) = is_in hex_digits c && fits form s

-- `n` places for digits in front of a form
abbrev pub run_form : ℕ → List Bool → List Bool
run_form zero form = form
run_form (suc n) form = false ∷ run_form n form

-- what is left of a text has the form
abbrev pub rest_fits : List Bool → Option Bytes → Bool
rest_fits form none = false
rest_fits form (some s) = fits form s

fits-hex_run :
    (n : ℕ) (form : List Bool) (s : Bytes) → fits (run_form n form) s ≡ rest_fits form (hex_run n s)
unfolding hex_run
fits-hex_run zero form s = refl
fits-hex_run (suc n) form [] = refl
fits-hex_run (suc n) form (c ∷ s) = elim (Bool-cases (is_in hex_digits c)) [
  | inl h ↦ rw h (fits-hex_run n form s)
  | inr h ↦ rw h refl
]

rest_fits-dash :
    (form : List Bool) (o : Option Bytes) → rest_fits (true ∷ form) o ≡ rest_fits form (dash o)
rest_fits-dash form none = refl
rest_fits-dash form (some []) = refl
rest_fits-dash form (some (c ∷ s)) = elim (Bool-cases (c == 45)) [
  | inl h ↦ rw h refl
  | inr h ↦ rw h refl
]

-- three times four digits and a dash
abbrev pub group_form : ℕ → List Bool → List Bool
group_form zero form = form
group_form (suc n) form = run_form 4 (true ∷ group_form n form)

rest_fits-groups :
    (n : ℕ) (form : List Bool) (o : Option Bytes)
    → rest_fits (group_form n form) o ≡ rest_fits form (groups n o)
unfolding groups
rest_fits-groups n form none = refl
rest_fits-groups zero form (some s) = refl
rest_fits-groups (suc n) form (some s) =
    fits-hex_run 4 (true ∷ group_form n form) s
    ∙ rest_fits-dash (group_form n form) (hex_run 4 s)
    ∙ rest_fits-groups n form (dash (hex_run 4 s))

rest_fits-then_run :
    (n : ℕ) (form : List Bool) (o : Option Bytes)
    → rest_fits (run_form n form) o ≡ rest_fits form (then_run n o)
rest_fits-then_run n form none = refl
rest_fits-then_run n form (some s) = fits-hex_run n form s

fits-uuid :
    (s : Bytes) → fits uuid_form s ≡ rest_fits [] (then_run 12 (groups 3 (dash (hex_run 8 s))))
fits-uuid s =
    fits-hex_run 8 (true ∷ group_form 3 (run_form 12 [])) s
    ∙ rest_fits-dash (group_form 3 (run_form 12 [])) (hex_run 8 s)
    ∙ rest_fits-groups 3 (run_form 12 []) (dash (hex_run 8 s))
    ∙ rest_fits-then_run 12 [] (groups 3 (dash (hex_run 8 s)))

-- `k` characters of 36 are behind the rest
abbrev Behind : ℕ → Option Bytes → Type 0
Behind k none = Unit
Behind k (some s) = k + length s ≡ 36

hex_run-Behind : (n k : ℕ) (s : Bytes) → k + length s ≡ 36 → Behind (k + n) (hex_run n s)
unfolding hex_run
hex_run-Behind zero k s e = omega (arith, e)
hex_run-Behind (suc n) k [] e = tt
hex_run-Behind (suc n) k (c ∷ s) e = elim (Bool-cases (is_in hex_digits c)) [
  | inl h ↦
      let rest = hex_run-Behind n (k + 1) s (omega (arith, e)) in
      let same : k + 1 + n ≡ k + suc n = omega arith in
      rw h (subst (λ m. Behind m (hex_run n s)) same rest)
  | inr h ↦ rw h tt
]

dash-Behind : (k : ℕ) (o : Option Bytes) → Behind k o → Behind (k + 1) (dash o)
dash-Behind k none e = tt
dash-Behind k (some []) e = tt
dash-Behind k (some (c ∷ s)) e = elim (Bool-cases (c == 45)) [
  | inl h ↦ rw h (omega (arith, e))
  | inr h ↦ rw h tt
]

groups-Behind : (n k : ℕ) (o : Option Bytes) → Behind k o → Behind (k + 5 * n) (groups n o)
unfolding groups
groups-Behind n k none e = tt
groups-Behind zero k (some s) e = omega (arith, e)
groups-Behind (suc n) k (some s) e =
    let group = dash-Behind (k + 4) (hex_run 4 s) (hex_run-Behind 4 k s e) in
    let same : k + 4 + 1 + 5 * n ≡ k + 5 * suc n = omega arith in
    subst (λ m. Behind m (groups n (dash (hex_run 4 s)))) same
      (groups-Behind n (k + 4 + 1) (dash (hex_run 4 s)) group)

then_run-Behind : (n k : ℕ) (o : Option Bytes) → Behind k o → Behind (k + n) (then_run n o)
then_run-Behind n k none e = tt
then_run-Behind n k (some s) e = hex_run-Behind n k s e

nothing_left : (o : Option Bytes) → Behind 36 o → rest_fits [] o ≡ is_some o
nothing_left none e = refl
nothing_left (some []) e = refl
nothing_left (some (c ∷ s)) e = absurd (omega (arith, e))

length-fits : (form : List Bool) (s : Bytes) → fits form s ≡ true → length s ≡ length form
length-fits [] [] e = refl
length-fits [] (c ∷ s) e = absurd (ground (arith, e))
length-fits (d ∷ form) [] e = absurd (ground (arith, e))
length-fits (true ∷ form) (c ∷ s) e = elim (Bool-cases (c == 45)) [
  | inl h ↦ ap suc (length-fits form s (rw h at e))
  | inr h ↦ absurd (ground (arith, e, h))
]
length-fits (false ∷ form) (c ∷ s) e = elim (Bool-cases (is_in hex_digits c)) [
  | inl h ↦ ap suc (length-fits form s (rw h at e))
  | inr h ↦ absurd (ground (arith, e, h))
]

-- `registry_valid_id` accepts just the texts of the form 8-4-4-4-12: 36 characters, a dash at the places
-- 8, 13, 18 and 23, and digits 0 to 9 or a to f at the others.
pub registry_valid_id-fits : (s : Bytes) → registry_valid_id (some s) ≡ fits uuid_form s
unfolding registry_valid_id
registry_valid_id-fits s = elim (ℕ_discrete (length s) 36) [
  | yes e ↦
      let first = dash-Behind 8 (hex_run 8 s) (hex_run-Behind 8 0 s (omega (arith, e))) in
      let last = groups-Behind 3 9 (dash (hex_run 8 s)) first in
      let whole =
        nothing_left (then_run 12 (groups 3 (dash (hex_run 8 s))))
          (then_run-Behind 12 24 (groups 3 (dash (hex_run 8 s))) last) in
      rw (==_true (length s) 36 e) (sym (fits-uuid s ∙ whole))
  | no ne ↦ elim (Bool-cases (fits uuid_form s)) [
    | inl f ↦ absurd (ne (length-fits uuid_form s f))
    | inr f ↦ rw (==_false (length s) 36 ne) (sym f)
  ]
]
