-- ===== src/Handshake/Keys.antt =====
-- librcom/src/messagelink.c and request.c: the key of a client, and the server's test.
use rcom.Data.{c_string}
use rcom.Util.{encode_base64, sextet, entry, base64_table}
use rcom.Base.{
  ◌*◌, ◌+◌, take-append_le, take_all, length-append, take, get_or, All, arith, refl, ap, false,
  true, [], ◌∷◌, ◌++◌, ◌≡◌, ◌∙◌, ◌<◌, ◌%◌, ◌/◌, ◌^◌, ◌==◌, Bytes, ℕ, zero, suc, length,
}
use rcom.Handshake.{is_key_char, all_key_chars, valid_websocket_key}

entry_key :
    (cs : Bytes) (n : ℕ) → all_key_chars cs ≡ true → n < length cs → is_key_char (entry cs n) ≡ true
entry_key [] n v l = absurd (omega arith)
entry_key (c ∷ cs) zero v l = ground (arith, v)
entry_key (c ∷ cs) (suc n) v l = entry_key cs n (ground (arith, v)) (omega arith)

sextet_key : (n : ℕ) → is_key_char (sextet n) ≡ true
unfolding sextet
sextet_key n = entry_key base64_table (n % 64) refl (omega arith)

-- a character that is not the end of a string
abbrev pub IsPlain : Bytes → Type 0
IsPlain s = All (λ c. (c == 0) ≡ false) s

pub c_string_plain : (s : Bytes) → IsPlain s → c_string s ≡ s
c_string_plain [] v = refl
c_string_plain (c ∷ s) v = rw v.0 (ap (λ t. c ∷ t) (c_string_plain s v.1))

key_plain : (c : ℕ) → is_key_char c ≡ true → (c == 0) ≡ false
key_plain c v = ground (arith, v)

sextet_plain : (n : ℕ) → (sextet n == 0) ≡ false
sextet_plain n = key_plain (sextet n) (sextet_key n)

pub encode_base64-IsPlain : (s : Bytes) → IsPlain (encode_base64 s)
unfolding encode_base64
encode_base64-IsPlain [] = tt
encode_base64-IsPlain (a ∷ []) =
    let p = a * 2 ^ 16 in
    (sextet_plain (p / 2 ^ 18), (sextet_plain (p / 2 ^ 12), (refl, (refl, tt))))
encode_base64-IsPlain (a ∷ b ∷ []) =
    let p = a * 2 ^ 16 + b * 2 ^ 8 in
    (sextet_plain (p / 2 ^ 18), (sextet_plain (p / 2 ^ 12), (sextet_plain (p / 2 ^ 6), (refl, tt))))
encode_base64-IsPlain (a ∷ b ∷ c ∷ s) =
    let p = a * 2 ^ 16 + b * 2 ^ 8 + c in
    (
      sextet_plain (p / 2 ^ 18),
      (
        sextet_plain (p / 2 ^ 12),
        (sextet_plain (p / 2 ^ 6), (sextet_plain p, encode_base64-IsPlain s)),
      ),
    )

-- the text of one byte more than a multiple of three
abbrev IsPadded : ℕ → Bytes → Type 0
IsPadded n t =
    (body : Bytes) × (t ≡ body ++ 61 ∷ 61 ∷ [])
    × (length body ≡ 4 * n + 2)
    × (all_key_chars body ≡ true)

two_keys :
    (x y : ℕ) (s : Bytes) → all_key_chars s ≡ true → all_key_chars (sextet x ∷ sextet y ∷ s) ≡ true
two_keys x y s w = rw (sextet_key x, sextet_key y) w

encode_base64-IsPadded : (n : ℕ) (s : Bytes) → length s ≡ 3 * n + 1 → IsPadded n (encode_base64 s)
unfolding encode_base64
encode_base64-IsPadded n [] l = absurd (omega (arith, l))
encode_base64-IsPadded zero (a ∷ []) l =
    let p = a * 2 ^ 16 in
    let x = p / 2 ^ 18 in
    let y = p / 2 ^ 12 in (sextet x ∷ sextet y ∷ [], refl, omega arith, two_keys x y [] refl)
encode_base64-IsPadded (suc n) (a ∷ []) l = absurd (omega (arith, l))
encode_base64-IsPadded n (a ∷ b ∷ []) l = absurd (omega (arith, l))
encode_base64-IsPadded zero (a ∷ b ∷ c ∷ s) l = absurd (omega (arith, l))
encode_base64-IsPadded (suc n) (a ∷ b ∷ c ∷ s) l =
    let (body, q, size, keys) = encode_base64-IsPadded n s (omega (arith, l)) in
    let p = a * 2 ^ 16 + b * 2 ^ 8 + c in
    let x = p / 2 ^ 18 in
    let y = p / 2 ^ 12 in
    let z = p / 2 ^ 6 in
    (
      sextet x ∷ sextet y ∷ sextet z ∷ sextet p ∷ body,
      ap (λ t. sextet x ∷ sextet y ∷ sextet z ∷ sextet p ∷ t) q,
      omega (arith, size),
      two_keys x y (sextet z ∷ sextet p ∷ body) (two_keys z p body keys),
    )

get_or-append : (xs ys : Bytes) (i : ℕ) → get_or (xs ++ ys) (length xs + i) 0 ≡ get_or ys i 0
get_or-append [] ys i = let e : 0 + i ≡ i = omega arith in rw e refl
get_or-append (x ∷ xs) ys i =
    let e : suc (length xs) + i ≡ suc (length xs + i) = omega arith in rw e (get_or-append xs ys i)

padded-valid :
    (body : Bytes)
    → length body ≡ 22
    → all_key_chars body ≡ true
    → valid_websocket_key (body ++ 61 ∷ 61 ∷ []) ≡ true
unfolding valid_websocket_key
padded-valid body size keys =
    let key = body ++ 61 ∷ 61 ∷ [] in
    let whole : length key ≡ 24 = omega (arith, size, length-append body (61 ∷ 61 ∷ [])) in
    let first : get_or key 22 0 ≡ 61 =
      (let e : 22 ≡ length body + 0 = omega (arith, size) in
        ap (λ i. get_or key i 0) e ∙ get_or-append body (61 ∷ 61 ∷ []) 0) in
    let second : get_or key 23 0 ≡ 61 =
      (let e : 23 ≡ length body + 1 = omega (arith, size) in
        ap (λ i. get_or key i 0) e ∙ get_or-append body (61 ∷ 61 ∷ []) 1) in
    let front : take 22 key ≡ body =
      take-append_le 22 body (61 ∷ 61 ∷ []) (omega (arith, size))
      ∙ take_all 22 body (omega (arith, size)) in
    rw (whole, first, second, front) keys

-- The key that a client makes of 16 random bytes passes the server's test.
pub valid_websocket_key-encode_base64 :
    (bytes : Bytes) → length bytes ≡ 16 → valid_websocket_key (encode_base64 bytes) ≡ true
valid_websocket_key-encode_base64 bytes l =
    let (body, q, size, keys) = encode_base64-IsPadded 5 bytes (omega (arith, l)) in
    rw q (padded-valid body (omega (arith, size)) keys)
