-- ===== src/Util/Escape.antt =====
-- librcom/src/util.c: the texts that escape_string makes, as a reader of JSON strings finds them.
use rcom.Data.{c_string}
use rcom.Rlib.{Membuf, Terminated}
use rcom.Util.{escape_string, escape_from, escape_char}
use rcom.Base.{
  ◌||◌, leb, ltb, inr, inl, Bool-cases, append_assoc, append-nil, ℕ, arith, ap, sym, Bool, Option,
  none, some, false, true, [], ◌∙◌, ◌≡◌, ◌∷◌, ◌++◌, All, if◌then◌else◌, ◌==◌, Bytes, refl,
}

-- the character that a letter behind a backslash stands for in JSON; `\u` is not read
abbrev pub meant : ℕ → Option ℕ
meant c =
    if c == 34 || c == 92 || c == 47
    then some c
    else if c == 98
    then some 8
    else if c == 102
    then some 12
    else if c == 110
    then some 10
    else if c == 114
    then some 13
    else if c == 116
    then some 9
    else none

abbrev with_char : ℕ → Option (Bytes × Bytes) → Option (Bytes × Bytes)
with_char c none = none
with_char c (some (s, rest)) = some (c ∷ s, rest)

abbrev with_meant : Option ℕ → Option (Bytes × Bytes) → Option (Bytes × Bytes)
with_meant none rest = none
with_meant (some c) rest = with_char c rest

-- A reader of a JSON string behind its opening quote: the text and what follows the closing quote. As
-- RFC 8259 has it, control characters are refused, and so is any other letter behind a backslash. The
-- Boolean value is whether a backslash comes before.
pub read_string : Bool → Bytes → Option (Bytes × Bytes)
read_string escaped [] = none
read_string true (c ∷ s) = with_meant (meant c) (read_string false s)
read_string false (c ∷ s) =
    let plain = with_char c (read_string false s) in
    let next = read_string true s in
    if c == 34 then some ([], s) else if c == 92 then next else if ltb c 32 then none else plain

abbrev pub IsText : Bytes → Type 0
IsText s = All (λ c. (c == 0) ≡ false) s

-- no control character but those that `escape_char` replaces: tab, line feed and carriage return
abbrev pub is_printable : ℕ → Bool
is_printable c = leb 32 c || c == 9 || c == 10 || c == 13

abbrev pub IsPrintable : Bytes → Type 0
IsPrintable s = All (λ c. is_printable c ≡ true) s

abbrev escape_all : Bytes → Bytes
escape_all [] = []
escape_all (c ∷ s) = escape_char c ++ escape_all s

-- no control character, no quote and no backslash: a text that needs no escapes
abbrev pub IsPlain : Bytes → Type 0
IsPlain s = All (λ c. (ltb c 32 ≡ false) × ((c == 34) ≡ false) × ((c == 92) ≡ false)) s

-- Where a plain text is printed between quotes as it is, a reader of JSON strings reads this text.
pub read_plain : (s rest : Bytes) → IsPlain s → read_string false (s ++ 34 ∷ rest) ≡ some (s, rest)
unfolding read_string
read_plain [] rest v = refl
read_plain (c ∷ s) rest v =
    rw (read_string, v.0.1, v.0.2, v.0.0) (ap (with_char c) (read_plain s rest v.1))

read-escape_char :
    (c : ℕ) (s : Bytes)
    → is_printable c ≡ true
    → read_string false (escape_char c ++ s) ≡ with_char c (read_string false s)
unfolding read_string escape_char
read-escape_char c s v = ground (arith, v)

read-escape_all :
    (s rest : Bytes)
    → IsPrintable s
    → read_string false (escape_all s ++ 34 ∷ rest) ≡ some (s, rest)
unfolding read_string
read-escape_all [] rest v = refl
read-escape_all (c ∷ s) rest v =
    ap (read_string false) (append_assoc (escape_char c) (escape_all s) (34 ∷ rest))
    ∙ read-escape_char c (escape_all s ++ 34 ∷ rest) v.0
    ∙ ap (with_char c) (read-escape_all s rest v.1)

c_string-escape_char :
    (c : ℕ) (s : Bytes)
    → (c == 0) ≡ false
    → c_string (escape_char c ++ s) ≡ escape_char c ++ c_string s
unfolding escape_char
c_string-escape_char c s v = ground arith

c_string-escape_all : (s : Bytes) → IsText s → c_string (escape_all s) ≡ escape_all s
c_string-escape_all [] v = refl
c_string-escape_all (c ∷ s) v =
    c_string-escape_char c (escape_all s) v.0
    ∙ ap (λ t. escape_char c ++ t) (c_string-escape_all s v.1)

-- the text up to its first zero
c_string-IsText : (s : Bytes) → IsText (c_string s)
c_string-IsText [] = tt
c_string-IsText (c ∷ s) = elim (Bool-cases (c == 0)) [
  | inl zero_here ↦ rw zero_here tt
  | inr more ↦ rw more (more, c_string-IsText s)
]

module _ (M : Membuf) (Z : Terminated M) where
  escape_from-all :
      (s : Bytes) (m : M.Buf) → M.bytes (escape_from M s m) ≡ M.bytes m ++ escape_all s
  unfolding escape_from
  escape_from-all [] m = sym (append-nil (M.bytes m))
  escape_from-all (c ∷ s) m =
      escape_from-all s (M.append m (escape_char c))
      ∙ ap (λ t. t ++ escape_all s) (M.bytes-append m (escape_char c))
      ∙ append_assoc (M.bytes m) (escape_char c) (escape_all s)

  -- What stands between the quotes that the senders put round the result of `escape_string` is read as
  -- the text that it was given, up to its first zero, and the closing quote is found, if that text has no
  -- control character but tabs and line ends.
  pub read-escape_string :
      (s rest : Bytes) (empty : M.Buf)
      → M.bytes empty ≡ []
      → IsPrintable (c_string s)
      → read_string false (c_string (M.bytes (escape_string M Z empty s)) ++ 34 ∷ rest)
        ≡ some (c_string s, rest)
  unfolding escape_string
  read-escape_string s rest empty e p =
      let text = c_string s in
      let inside : c_string (M.bytes (Z.append_zero (escape_from M text empty))) ≡ escape_all text =
        Z.text-append_zero (escape_from M text empty)
        ∙ ap c_string (escape_from-all text empty ∙ ap (λ t. t ++ escape_all text) e)
        ∙ c_string-escape_all text (c_string-IsText s) in
      ap (λ t. read_string false (t ++ 34 ∷ rest)) inside ∙ read-escape_all text rest p

  -- Any other control character goes out as it is, and a reader of JSON strings refuses the text.
  pub escape_control :
      (c : ℕ) (rest : Bytes)
      → (is_printable c ≡ false)
      → read_string false (escape_char c ++ rest) ≡ none
  unfolding read_string escape_char
  escape_control c rest v = ground (arith, v)
