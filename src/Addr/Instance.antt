-- ===== src/Addr/Instance.antt =====
-- An instance of the interface of librcom/src/addr.c, which writes an address or a number as one
-- character.
use rcom.Base.{
  ◌<◌, ◌^◌, ◌%◌, some-inj, arith, ap, refl, Option, none, some, [], ◌-◌, ◌+◌, ◌≡◌, ◌∷◌, ℤ, ==_false,
  Bytes, ℕ,
}
use rcom.Addr.{pos, Inet, split_at}

abbrev pub one_character : Bytes → ℤ × Bytes
one_character (c ∷ s) = (pos c, s)
one_character [] = (pos 0, [])

abbrev pub aton_one : Bytes → Option ℕ
aton_one (c ∷ s) = some ((c - 59) % 2 ^ 32)
aton_one [] = none

pub one_plain : (a : ℕ) (s : Bytes) → split_at 58 ((a + 59) ∷ 58 ∷ s) ≡ some ((a + 59) ∷ [], s)
unfolding split_at
one_plain a s = rw (==_false (a + 59) 58 (λ e. omega arith)) refl

pub aton_one_bound : (s : Bytes) (a : ℕ) → aton_one s ≡ some a → a < 2 ^ 32
aton_one_bound [] a e = absurd (ground (arith, e))
aton_one_bound (c ∷ s) a e = omega (arith, some-inj e)

abbrev pub one_inet : Inet
one_inet = record {
  inet_aton = aton_one;
  inet_ntoa = λ a. (a + 59) ∷ [];
  strtol = one_character;
  decimal = λ n. n ∷ [];
  aton_bound = aton_one_bound;
  aton-ntoa = λ a l. ap some (omega arith);
  ntoa_short = λ a l. omega arith;
  ntoa_plain = λ a s l. one_plain a s;
  strtol-decimal = λ n l. refl;
  decimal_length = λ n l. (omega arith, omega arith);
}
