-- ===== src/Util.antt =====
-- librcom/src/util.c: URL encoding, base 64 and the escapes of JSON strings.
pub mod Url
pub mod Escape
pub mod Base64
mod Tests
use rcom.Data.{c_string}
use rcom.Base.{
  suc, zero, ◌^◌, negsuc, pos, Bool, Option, none, some, false, true, [], ◌||◌, ◌&&◌, ◌%◌, ◌/◌, ◌*◌,
  ◌-◌, ◌+◌, ◌∷◌, ℤ, if◌then◌else◌, ◌==◌, leb, ltb, Bytes, ℕ,
}
use rcom.Rlib.{Strings, Terminated, Membuf}

-- `0-9a-zA-Z-_.~`
pub is_unreserved : ℕ → Bool
is_unreserved c =
    (leb 48 c && leb c 57)
    || (leb 97 c && leb c 122)
    || (leb 65 c && leb c 90)
    || c == 45
    || c == 95
    || c == 46
    || c == 126

-- a digit of the format `%02X`
pub hex_digit : ℕ → ℕ
hex_digit n = if ltb n 10 then 48 + n else 55 + n

-- what `urlencode` appends for a character
pub escaped : ℕ → Bytes
unfolding is_unreserved hex_digit
escaped c = if is_unreserved c then c ∷ [] else 37 ∷ hex_digit (c / 16) ∷ hex_digit (c % 16) ∷ []

-- `hex2c`, with none for -1
pub hex2c : ℕ → Option ℕ
hex2c c =
    if leb 48 c && leb c 57
    then some (c - 48)
    else if leb 97 c && leb c 102
    then some (10 + c - 97)
    else if leb 65 c && leb c 70
    then some (10 + c - 65)
    else none

-- the table of `encode_base64`
abbrev pub base64_table : Bytes
base64_table =
    65 ∷ 66 ∷ 67 ∷ 68 ∷ 69 ∷ 70 ∷ 71 ∷ 72 ∷ 73 ∷ 74 ∷ 75 ∷ 76 ∷ 77 ∷ 78 ∷ 79 ∷ 80 ∷ 81 ∷ 82 ∷ 83
    ∷ 84 ∷ 85 ∷ 86 ∷ 87 ∷ 88 ∷ 89 ∷ 90 ∷ 97 ∷ 98 ∷ 99 ∷ 100 ∷ 101 ∷ 102 ∷ 103 ∷ 104 ∷ 105 ∷ 106
    ∷ 107 ∷ 108 ∷ 109 ∷ 110 ∷ 111 ∷ 112 ∷ 113 ∷ 114 ∷ 115 ∷ 116 ∷ 117 ∷ 118 ∷ 119 ∷ 120 ∷ 121 ∷ 122
    ∷ 48 ∷ 49 ∷ 50 ∷ 51 ∷ 52 ∷ 53 ∷ 54 ∷ 55 ∷ 56 ∷ 57 ∷ 43 ∷ 47 ∷ []

-- `table[n]`, with 0 outside the table
abbrev pub entry : Bytes → ℕ → ℕ
entry [] n = 0
entry (c ∷ cs) zero = c
entry (c ∷ cs) (suc n) = entry cs n

unfoldable pub sextet : ℕ → ℕ
sextet n = entry base64_table (n % 64)

-- `encode_base64` on the bytes from `s[i]` on, without the final zero.
unfoldable pub encode_base64 : Bytes → Bytes
unfolding sextet
encode_base64 [] = []
encode_base64 (a ∷ []) =
    let p = a * 2 ^ 16 in sextet (p / 2 ^ 18) ∷ sextet (p / 2 ^ 12) ∷ 61 ∷ 61 ∷ []
encode_base64 (a ∷ b ∷ []) =
    let p = a * 2 ^ 16 + b * 2 ^ 8 in
    sextet (p / 2 ^ 18) ∷ sextet (p / 2 ^ 12) ∷ sextet (p / 2 ^ 6) ∷ 61 ∷ []
encode_base64 (a ∷ b ∷ c ∷ s) =
    let p = a * 2 ^ 16 + b * 2 ^ 8 + c in
    sextet (p / 2 ^ 18) ∷ sextet (p / 2 ^ 12) ∷ sextet (p / 2 ^ 6) ∷ sextet p ∷ encode_base64 s

module _ (M : Membuf) (Z : Terminated M) where
  -- the loop of `urlencode` from `s` on
  pub urlencode_from : Bytes → M.Buf → ℤ × M.Buf
  unfolding escaped
  urlencode_from [] buf = (pos 0, Z.append_zero buf)
  urlencode_from (c ∷ s) buf =
      let rest = urlencode_from s (M.append buf (escaped c)) in
      if ltb c 32 || leb 127 c then (negsuc 0, Z.append_zero buf) else rest

  pub urlencode : Bytes → M.Buf → ℤ × M.Buf
  unfolding urlencode_from
  urlencode s buf = urlencode_from s (M.clear buf)

  -- the loop of `urldecode`, on the characters from `s[i]` to the `len`th
  pub urldecode_from : Bytes → M.Buf → ℤ × M.Buf
  unfolding hex2c
  urldecode_from [] buf = (pos 0, Z.append_zero buf)
  urldecode_from (c ∷ []) buf =
      if c == 37 then (negsuc 0, buf) else (pos 0, Z.append_zero (M.append buf (c ∷ [])))
  urldecode_from (c ∷ x ∷ []) buf =
      let rest = urldecode_from (x ∷ []) (M.append buf (c ∷ [])) in
      if c == 37 then (negsuc 0, buf) else rest
  urldecode_from (c ∷ x ∷ y ∷ s) buf = elim (c == 37) [
    | true ↦ elim (hex2c x) [
      | none ↦ (negsuc 0, buf)
      | some a ↦ elim (hex2c y) [
        | none ↦ (negsuc 0, buf)
        | some b ↦ urldecode_from s (M.append buf ((16 * a + b) % 256 ∷ []))
      ]
    ]
    | false ↦ urldecode_from (x ∷ y ∷ s) (M.append buf (c ∷ []))
  ]

  pub urldecode : Bytes → M.Buf → ℤ × M.Buf
  unfolding urldecode_from
  urldecode s buf = urldecode_from s (M.clear buf)

-- what `escape_string` puts for a character
unfoldable pub escape_char : ℕ → Bytes
escape_char c =
    if c == 9
    then 92 ∷ 116 ∷ []
    else if c == 10
    then 92 ∷ 110 ∷ []
    else if c == 13
    then 92 ∷ 114 ∷ []
    else if c == 34
    then 92 ∷ 34 ∷ []
    else if c == 92
    then 92 ∷ 92 ∷ []
    else c ∷ []

module _ (M : Membuf) where
  -- the loop of `escape_string`
  unfoldable pub escape_from : Bytes → M.Buf → M.Buf
  unfolding escape_char
  escape_from [] m = m
  escape_from (c ∷ s) m = escape_from s (M.append m (escape_char c))

  -- `escape_string` into a new buffer, `empty`
  unfoldable pub escape_string : Terminated M → M.Buf → Bytes → M.Buf
  unfolding escape_from
  escape_string Z empty s = Z.append_zero (escape_from (c_string s) empty)
