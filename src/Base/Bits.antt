-- ===== src/Base/Bits.antt =====
-- Laws of `^` and `|` on numbers at variables, from the recursion on binary digits.
use Prim.Native.Nat.{
  ℕ, zero, suc, ◌+◌, ◌*◌, ◌/◌, ◌%◌, ◌^◌, ◌≤◌, ◌<◌, max, bit_or, bit_xor, differ, digits,
  bit_or-bitwise, bit_xor-bitwise,
}
use mathlib.Core.Path.{◌≡◌, refl}
use native.Mathlib.Omega.{arith}
use native.Mathlib.Nat.{pow-suc}

-- The value does not depend on the fuel, once this is as large as the first number.
module _ (low : ℕ → ℕ) (bit : ℕ → ℕ → ℕ) where
  digits_fuel : (x y k l : ℕ) → x ≤ l → x ≤ k → digits low bit k x y ≡ digits low bit l x y
  digits_fuel (suc x) y zero l h i = absurd (omega (arith, i))
  digits_fuel (suc x) y (suc k) zero h i = absurd (omega (arith, h))
  digits_fuel (suc x) y (suc k) (suc l) h i =
      let rest = digits_fuel (suc x / 2) (y / 2) k l (omega (arith, h)) (omega (arith, i)) in
      omega (arith, rest)
  digits_fuel zero y zero zero h i = refl
  digits_fuel zero y zero (suc l) h i = refl
  digits_fuel zero y (suc k) zero h i = refl
  digits_fuel zero y (suc k) (suc l) h i = refl

zero-bit_xor : (b : ℕ) → bit_xor 0 b ≡ b
zero-bit_xor b = bit_xor-bitwise 0 b

zero-bit_or : (b : ℕ) → bit_or 0 b ≡ b
zero-bit_or b = bit_or-bitwise 0 b

differ_lem : (a b : ℕ) → a < 2 → b < 2 → differ a b ≡ (a + b) % 2
differ_lem zero zero p q = refl
differ_lem zero (suc zero) p q = refl
differ_lem zero (suc (suc b)) p q = absurd (omega arith)
differ_lem (suc zero) zero p q = refl
differ_lem (suc zero) (suc zero) p q = refl
differ_lem (suc zero) (suc (suc b)) p q = absurd (omega arith)
differ_lem (suc (suc a)) b p q = absurd (omega arith)

bit_xor_step : (a b : ℕ) → bit_xor a b ≡ bit_xor (a / 2) (b / 2) * 2 + (a % 2 + b % 2) % 2
bit_xor_step zero b = omega (arith, zero-bit_xor b, zero-bit_xor (b / 2))
bit_xor_step (suc a) b = omega (
  arith,
  bit_xor-bitwise (suc a) b,
  bit_xor-bitwise (suc a / 2) (b / 2),
  differ_lem (suc a % 2) (b % 2) (omega arith) (omega arith),
  digits_fuel (λ t. t) differ (suc a / 2) (b / 2) a (suc a / 2) (omega arith) (omega arith),
)

bit_or_step : (a b : ℕ) → bit_or a b ≡ bit_or (a / 2) (b / 2) * 2 + max (a % 2) (b % 2)
bit_or_step zero b = omega (arith, zero-bit_or b, zero-bit_or (b / 2))
bit_or_step (suc a) b = omega (
  arith,
  bit_or-bitwise (suc a) b,
  bit_or-bitwise (suc a / 2) (b / 2),
  digits_fuel (λ t. t) max (suc a / 2) (b / 2) a (suc a / 2) (omega arith) (omega arith),
)

bit_xor_twice_fuel : (n a b : ℕ) → a ≤ n → b ≤ n → bit_xor (bit_xor a b) b ≡ a
bit_xor_twice_fuel zero zero zero p q = refl
bit_xor_twice_fuel zero zero (suc b) p q = elim q [ ]
bit_xor_twice_fuel zero (suc a) b p q = elim p [ ]
bit_xor_twice_fuel (suc n) a b p q =
    let x = bit_xor a b in
    let half : x / 2 ≡ bit_xor (a / 2) (b / 2) = omega (arith, bit_xor_step a b) in
    let ih : bit_xor (x / 2) (b / 2) ≡ a / 2 =
      rw half (bit_xor_twice_fuel n (a / 2) (b / 2) (omega arith) (omega arith)) in
    omega (arith, bit_xor_step a b, bit_xor_step (bit_xor a b) b, ih)

-- Masking a number twice by the same mask gives it back.
pub bit_xor_twice : (a b : ℕ) → bit_xor (bit_xor a b) b ≡ a
bit_xor_twice a b = bit_xor_twice_fuel (a + b) a b (omega arith) (omega arith)

pub bit_xor-lt : (k a b : ℕ) → a < 2 ^ k → b < 2 ^ k → bit_xor a b < 2 ^ k
bit_xor-lt zero zero zero p q = omega arith
bit_xor-lt zero zero (suc b) p q = absurd (omega arith)
bit_xor-lt zero (suc a) b p q = absurd (omega arith)
bit_xor-lt (suc k) a b p q =
    let e : 2 ^ suc k ≡ 2 * 2 ^ k = omega (arith, pow-suc 2 k) in
    omega (arith, e, bit_xor_step a b, bit_xor-lt k (a / 2) (b / 2) (omega arith) (omega arith))

bit_or-zero_fuel : (n a : ℕ) → a ≤ n → bit_or a 0 ≡ a
bit_or-zero_fuel n zero h = refl
bit_or-zero_fuel zero (suc a) h = elim h [ ]
bit_or-zero_fuel (suc n) (suc a) h =
    omega (arith, bit_or_step (suc a) 0, bit_or-zero_fuel n (suc a / 2) (omega arith))

-- `a << k | b` is a sum where `b` has no more than `k` bits.
pub bit_or_shift : (k a b : ℕ) → b < 2 ^ k → bit_or (a * 2 ^ k) b ≡ a * 2 ^ k + b
bit_or_shift zero a zero p =
    let e : a * 1 ≡ a = omega arith in rw (e, bit_or-zero_fuel a a (omega arith)) (omega arith)
bit_or_shift zero a (suc b) p = absurd (omega arith)
bit_or_shift (suc k) a b p =
    let e : 2 ^ suc k ≡ 2 * 2 ^ k = omega (arith, pow-suc 2 k) in
    let c : a * 2 ^ suc k ≡ a * 2 ^ k * 2 = rw e (omega arith) in
    let h : a * 2 ^ suc k / 2 ≡ a * 2 ^ k = omega arith in
    let ih : bit_or (a * 2 ^ suc k / 2) (b / 2) ≡ a * 2 ^ k + b / 2 =
      rw h (bit_or_shift k a (b / 2) (omega arith)) in
    omega (arith, bit_or_step (a * 2 ^ suc k) b, ih, c)
