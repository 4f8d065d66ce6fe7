-- ===== src/Data/Header.antt =====
-- data.c: the sequence number and the timestamp are read back as they were set.
use Prim.Native.Nat.{bit_or}
use native.Mathlib.Nat.{pow-suc}
use native.Mathlib.Numerals.{towards_suc}
use rcom.Base.{ℕ, zero, suc, ◌+◌, ◌*◌, ◌/◌, ◌%◌, ◌^◌, ◌<◌, ◌≡◌, refl, ap, ◌∙◌, arith}
use rcom.Base.Bits.{bit_or_shift}
use rcom.Data.{Data, byte_of, set_seqnum, set_timestamp, clear_timestamp, seqnum, timestamp}

pow_pos : (k : ℕ) → 0 < 2 ^ k
pow_pos zero = omega arith
pow_pos (suc k) = let e : 2 ^ suc k ≡ 2 ^ k * 2 = pow-suc 2 k in omega (arith, e, pow_pos k)

-- One more byte joined below those that are shifted up already.
join_byte : (k x : ℕ) → bit_or (x / 256 * 2 ^ (k + 8)) (x % 256 * 2 ^ k) ≡ x * 2 ^ k
join_byte k x =
    let q = 2 ^ k in
    let e : 2 ^ (k + 8) ≡ 256 * q = simp towards_suc (omega arith) in
    let small : x % 256 * q < 2 ^ (k + 8) = rw e (grind (arith, pow_pos k)) in
    let whole : x ≡ x / 256 * 256 + x % 256 = omega arith in
    bit_or_shift (k + 8) (x / 256) (x % 256 * q) small
    ∙ rw e (omega (arith, ap (λ (t : ℕ). t * q) whole))

join :
    (k n acc : ℕ)
    → acc ≡ n / 2 ^ (k + 8) * 2 ^ (k + 8)
    → n / 2 ^ (k + 8) ≡ n / 2 ^ k / 256
    → bit_or acc (byte_of n k * 2 ^ k) ≡ n / 2 ^ k * 2 ^ k
join k n acc e d = rw (e, d) (join_byte k (n / 2 ^ k))

-- The low byte.
join_last : (n acc : ℕ) → acc ≡ n / 2 ^ 8 * 2 ^ 8 → bit_or acc (byte_of n 0) ≡ n
join_last n acc e =
    let b : byte_of n 0 ≡ n % 256 * 2 ^ 0 = omega arith in rw (e, b) (join_byte 0 n ∙ omega arith)

-- `data_seqnum` returns any 32-bit number given to `data_set_seqnum`.
pub seqnum-set_seqnum : (m : Data) (n : ℕ) → n < 2 ^ 32 → seqnum (set_seqnum m n) ≡ n
unfolding seqnum set_seqnum
seqnum-set_seqnum m n h =
    join_last n _ (join 8 n _ (join 16 n _ (omega arith) (omega arith)) (omega arith))

-- `data_timestamp` returns any 64-bit time given to `data_set_timestamp`, and zero once it is
-- cleared.
pub timestamp-set_timestamp :
    (m : Data) (t : ℕ)
    → t < 2 ^ 64
    → (timestamp (set_timestamp m t) ≡ t) × (timestamp (clear_timestamp (set_timestamp m t)) ≡ 0)
unfolding timestamp set_timestamp clear_timestamp
timestamp-set_timestamp m t h = (
  join_last t _ (
      join 8 t _
        (join 16 t _
          (join 24 t _
            (join 32 t _ (join 40 t _ (join 48 t _ (omega arith) (omega arith)) (omega arith))
              (omega arith))
            (omega arith))
          (omega arith))
        (omega arith)),
  refl,
)

-- The header fields do not disturb each other, the length or the bytes.
pub set_header_frame :
    (m : Data) (n t : ℕ)
    → (seqnum (set_timestamp m t) ≡ seqnum m)
      × (timestamp (set_seqnum m n) ≡ timestamp m)
      × ((set_seqnum (set_timestamp m t) n).len ≡ m.len)
      × ((set_seqnum (set_timestamp m t) n).p.payload ≡ m.p.payload)
unfolding seqnum timestamp set_seqnum set_timestamp
set_header_frame m n t = (refl, refl, refl, refl)
