-- ===== src/Util/Base64.antt =====
-- librcom/src/util.c: base 64 against a decoder that is written from RFC 4648.
use rcom.Base.{
  Option, none, some, ==_true, lt→ltb, ltb, ap₂, ap, sym, ◌^◌, ==_iff, arith, refl, Bool, suc, zero,
  not, false, true, [], ◌&&◌, ◌<◌, ◌%◌, ◌/◌, ◌*◌, ◌-◌, ◌+◌, ◌≡◌, ◌∷◌, length, if◌then◌else◌, ◌==◌,
  leb, Bytes, ℕ,
}
use rcom.Util.{encode_base64, sextet, entry, base64_table}

-- The value of a character of the alphabet of RFC 4648, and 64 of any other character.
abbrev pub value : ℕ → ℕ
value c =
    if c == 43
    then 62
    else if c == 47
    then 63
    else if leb 48 c && leb c 57
    then c + 4
    else if leb 65 c && leb c 90
    then c - 65
    else if leb 97 c && leb c 122
    then c - 71
    else 64

abbrev is_letter : ℕ → Bool
is_letter c = ltb (value c) 64

abbrev put : ℕ → Option Bytes → Option Bytes
put b none = none
put b (some bs) = some (b ∷ bs)

-- the last group, behind which nothing may stand
abbrev last_group : Bytes → Bytes → Option Bytes
last_group [] bs = some bs
last_group (c ∷ s) bs = none

-- A decoder of groups of four characters of the alphabet. Only the last group may have padding: `==`
-- behind the two characters of one byte, and `=` behind the three characters of two, in which the bits
-- that are left over are zero.
unfoldable pub decode_base64 : Bytes → Option Bytes
decode_base64 [] = some []
decode_base64 (w ∷ x ∷ y ∷ z ∷ s) =
    let rest = decode_base64 s in
    let a = value w * 4 + value x / 16 in
    let b = value x % 16 * 16 + value y / 4 in
    let c = value y % 4 * 64 + value z in
    if not (is_letter w && is_letter x)
    then none
    else if y == 61
    then (if z == 61 && value x % 16 == 0 then last_group s (a ∷ []) else none)
    else if not (is_letter y)
    then none
    else if z == 61
    then (if value y % 4 == 0 then last_group s (a ∷ b ∷ []) else none)
    else if not (is_letter z)
    then none
    else put a (put b (put c rest))
decode_base64 _ = none

-- a list of bytes
abbrev pub IsBytes : Bytes → Type 0
IsBytes [] = Unit
IsBytes (b ∷ bs) = (b < 256) × IsBytes bs

-- the characters have the values from `k` on, and are not the padding
abbrev tabulates : ℕ → Bytes → Bool
tabulates k [] = true
tabulates k (c ∷ cs) = (value c == k) && not (c == 61) && tabulates (k + 1) cs

both_true : (a b c : Bool) → (a && not b && c) ≡ true → (a ≡ true) × (b ≡ false) × (c ≡ true)
both_true true false true e = (refl, refl, refl)
both_true true false false e = (refl, refl, e)
both_true true true c e = (refl, sym e, ground (arith, e))
both_true false b c e = (e, ground (arith, e), ground (arith, e))

value-entry :
    (cs : Bytes) (k n : ℕ)
    → tabulates k cs ≡ true
    → n < length cs
    → (value (entry cs n) ≡ k + n) × ((entry cs n == 61) ≡ false)
value-entry [] k n t l = absurd (omega arith)
value-entry (c ∷ cs) k zero t l =
    let parts = both_true (value c == k) (c == 61) (tabulates (k + 1) cs) t in
    let same : value c ≡ k = (==_iff (value c) k).0 parts.0 in (omega (arith, same), parts.1)
value-entry (c ∷ cs) k (suc n) t l =
    let parts = both_true (value c == k) (c == 61) (tabulates (k + 1) cs) t in
    let rest = value-entry cs (k + 1) n parts.2 (omega arith) in (omega (arith, rest.0), rest.1)

value-sextet :
    (n : ℕ)
    → (value (sextet n) ≡ n % 64) × ((sextet n == 61) ≡ false) × (is_letter (sextet n) ≡ true)
unfolding sextet
value-sextet n =
    let found = value-entry base64_table 0 (n % 64) refl (omega arith) in
    let same : value (sextet n) ≡ n % 64 = omega (arith, found.0) in
    (same, found.1, lt→ltb (value (sextet n)) 64 (omega (arith, same)))

-- The decoder takes what `encode_base64` makes of a list of bytes, and gives back these bytes.
pub decode_base64-encode_base64 : (s : Bytes) → IsBytes s → decode_base64 (encode_base64 s) ≡ some s
unfolding decode_base64 encode_base64
decode_base64-encode_base64 [] v = refl
decode_base64-encode_base64 (a ∷ []) v =
    let p = a * 2 ^ 16 in
    let (w, _, wl) = value-sextet (p / 2 ^ 18) in
    let (x, _, xl) = value-sextet (p / 2 ^ 12) in
    let whole : p / 2 ^ 18 % 64 * 4 + p / 2 ^ 12 % 64 / 16 ≡ a = omega (arith, v.0) in
    let none_left : (p / 2 ^ 12 % 64 % 16 == 0) ≡ true =
      ==_true (p / 2 ^ 12 % 64 % 16) 0 (omega arith) in
    rw (wl, xl, w, x, none_left) (ap (λ n. some (n ∷ [])) whole)
decode_base64-encode_base64 (a ∷ b ∷ []) v =
    let p = a * 2 ^ 16 + b * 2 ^ 8 in
    let (w, _, wl) = value-sextet (p / 2 ^ 18) in
    let (x, _, xl) = value-sextet (p / 2 ^ 12) in
    let (y, yp, yl) = value-sextet (p / 2 ^ 6) in
    let first : p / 2 ^ 18 % 64 * 4 + p / 2 ^ 12 % 64 / 16 ≡ a = omega (arith, v.0, v.1.0) in
    let second : p / 2 ^ 12 % 64 % 16 * 16 + p / 2 ^ 6 % 64 / 4 ≡ b = omega (arith, v.0, v.1.0) in
    let none_left : (p / 2 ^ 6 % 64 % 4 == 0) ≡ true =
      ==_true (p / 2 ^ 6 % 64 % 4) 0 (omega arith) in
    rw (wl, xl, yp, yl, w, x, y, none_left) (ap₂ (λ n m. some (n ∷ m ∷ [])) first second)
decode_base64-encode_base64 (a ∷ b ∷ c ∷ s) v =
    let p = a * 2 ^ 16 + b * 2 ^ 8 + c in
    let (w, _, wl) = value-sextet (p / 2 ^ 18) in
    let (x, _, xl) = value-sextet (p / 2 ^ 12) in
    let (y, yp, yl) = value-sextet (p / 2 ^ 6) in
    let (z, zp, zl) = value-sextet p in
    let first : p / 2 ^ 18 % 64 * 4 + p / 2 ^ 12 % 64 / 16 ≡ a = omega (arith, v) in
    let second : p / 2 ^ 12 % 64 % 16 * 16 + p / 2 ^ 6 % 64 / 4 ≡ b = omega (arith, v) in
    let third : p / 2 ^ 6 % 64 % 4 * 64 + p % 64 ≡ c = omega (arith, v) in
    rw (wl, xl, yp, yl, zp, zl, w, x, y, z, decode_base64-encode_base64 s v.1.1.1)
      (ap some (ap₂ (λ n t. n ∷ t) first (ap₂ (λ n t. n ∷ t) second (ap (λ n. n ∷ s) third))))

-- The length is four characters for each group of up to three bytes, as `encode_base64` allocates.
pub length-encode_base64 : (s : Bytes) → length (encode_base64 s) ≡ 4 * ((length s + 2) / 3)
unfolding encode_base64
length-encode_base64 [] = refl
length-encode_base64 (a ∷ []) = refl
length-encode_base64 (a ∷ b ∷ []) = refl
length-encode_base64 (a ∷ b ∷ c ∷ s) = omega (arith, length-encode_base64 s)
