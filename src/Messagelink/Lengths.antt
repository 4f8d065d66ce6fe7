-- ===== src/Messagelink/Lengths.antt =====
-- messagelink.c: the number that `frame_make_header` writes is the number that
-- `messagelink_read_message` reads.
use rcom.Base.{ℕ, arith, ap, [], ◌∙◌, ◌<◌, ◌^◌, ◌%◌, ◌/◌, ◌*◌, ◌≡◌, ◌∷◌, Bytes}
use rcom.Base.Bits.{bit_or_shift}
use rcom.Net.{octet, swap16, swap32}
use rcom.Messagelink.{swap64, le16, le64}

pub le16-swap16 :
    (n : ℕ)
    → n < 2 ^ 16
    → let s = swap16 (n % 2 ^ 16) in swap16 (le16 (octet s 0 ∷ octet s 8 ∷ [])) ≡ n
le16-swap16 n h = omega arith

swap32_twice : (n : ℕ) → n < 2 ^ 32 → swap32 (swap32 n) ≡ n
swap32_twice n h = omega arith

swap32-lt : (n : ℕ) → swap32 n < 2 ^ 32
swap32-lt n = omega arith

swap64_low : (n : ℕ) → n < 2 ^ 32 → swap64 n ≡ swap32 n * 2 ^ 32
swap64_low n h =
    let e : n % 2 ^ 32 ≡ n = omega arith in
    let z : n / 2 ^ 32 % 2 ^ 32 ≡ 0 = omega arith in
    rw (e, z) (bit_or_shift 32 (swap32 n) 0 (omega arith) ∙ omega arith)

swap64_high : (w : ℕ) → w < 2 ^ 32 → swap64 (w * 2 ^ 32) ≡ swap32 w
swap64_high w h =
    let e : w * 2 ^ 32 % 2 ^ 32 ≡ 0 = omega arith in
    let z : w * 2 ^ 32 / 2 ^ 32 % 2 ^ 32 ≡ w = omega arith in
    rw (e, z) (bit_or_shift 32 0 (swap32 w) (swap32-lt w) ∙ omega arith)

abbrev pub octets64 : ℕ → Bytes
octets64 s =
    octet s 0
    ∷ octet s 8
    ∷ octet s 16
    ∷ octet s 24
    ∷ octet s 32
    ∷ octet s 40
    ∷ octet s 48
    ∷ octet s 56
    ∷ []

le64-octets64 : (s : ℕ) → s < 2 ^ 64 → le64 (octets64 s) ≡ s
le64-octets64 s h = omega arith

pub le64-swap64 : (n : ℕ) → n < 2 ^ 32 → swap64 (le64 (octets64 (swap64 n))) ≡ n
le64-swap64 n h =
    let l = swap32-lt n in
    rw (swap64_low n h) (
      ap swap64 (le64-octets64 (swap32 n * 2 ^ 32) (omega arith))
      ∙ swap64_high (swap32 n) l
      ∙ swap32_twice n h)
