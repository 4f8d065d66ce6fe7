-- ===== src/Util/Url.antt =====
-- librcom/src/util.c: `urldecode` gives back what `urlencode` encodes.
use rcom.Data.{c_string}
use rcom.Base.{
  pos, append_assoc, append-nil, ap, ◌∙◌, ◌*◌, ◌+◌, ◌≢◌, lt→leb, le→ltb, ℕ_discrete, inr, inl,
  arith, subst, sym, refl, some, false, true, [], ◌<◌, ◌≤◌, ◌%◌, ◌/◌, ◌≡◌, ◌∷◌, ◌++◌, Bool-cases,
  ==_false, ◌==◌, Bytes, ℕ,
}
use rcom.Rlib.{Membuf, Terminated}
use rcom.Util.{
  urlencode, urldecode, is_unreserved, hex_digit, hex2c, escaped, urlencode_from, urldecode_from,
}

-- The text is of printable ASCII characters.
abbrev pub IsPrintable : Bytes → Type 0
IsPrintable [] = Unit
IsPrintable (c ∷ s) = (32 ≤ c) × (c < 127) × IsPrintable s

abbrev pub escaped_all : Bytes → Bytes
escaped_all [] = []
escaped_all (c ∷ s) = escaped c ++ escaped_all s

hex2c-hex_digit : (n : ℕ) → n < 16 → hex2c (hex_digit n) ≡ some n
unfolding hex2c hex_digit
hex2c-hex_digit n l = ground arith

is_unreserved-escape : (c : ℕ) → is_unreserved c ≡ true → (c == 37) ≡ false
unfolding is_unreserved
is_unreserved-escape c u = elim (ℕ_discrete c 37) [
  | yes e ↦
      let clash : is_unreserved 37 ≡ true = subst (λ d. is_unreserved d ≡ true) e u in
      absurd (ground (arith, clash))
  | no ne ↦ ==_false c 37 ne
]

hex_digit-positive : (n : ℕ) → hex_digit n ≢ 0
unfolding hex_digit
hex_digit-positive n = ground arith

c_string-escaped :
    (c : ℕ) (s : Bytes) → 32 ≤ c → c_string (escaped c ++ s) ≡ escaped c ++ c_string s
unfolding escaped
c_string-escaped c s l = elim (Bool-cases (is_unreserved c)) [
  | inl u ↦ rw (u, ==_false c 0 (λ e. omega arith)) refl
  | inr u ↦
      let high = ==_false (hex_digit (c / 16)) 0 (hex_digit-positive (c / 16)) in
      let low = ==_false (hex_digit (c % 16)) 0 (hex_digit-positive (c % 16)) in
      rw (u, high, low) refl
]

module _ (M : Membuf) (Z : Terminated M) where
  urldecode_from-plain :
      (c : ℕ) (s : Bytes) (buf : M.Buf)
      → (c == 37) ≡ false
      → urldecode_from M Z (c ∷ s) buf ≡ urldecode_from M Z s (M.append buf (c ∷ []))
  unfolding urldecode_from
  urldecode_from-plain c [] buf e = rw (urldecode_from, e) refl
  urldecode_from-plain c (x ∷ []) buf e = rw (urldecode_from, e) refl
  urldecode_from-plain c (x ∷ y ∷ s) buf e = rw (urldecode_from, e) refl

  urldecode_from-percent :
      (x y a b : ℕ) (s : Bytes) (buf : M.Buf)
      → hex2c x ≡ some a
      → hex2c y ≡ some b
      → urldecode_from M Z (37 ∷ x ∷ y ∷ s) buf
        ≡ urldecode_from M Z s (M.append buf ((16 * a + b) % 256 ∷ []))
  unfolding urldecode_from
  urldecode_from-percent x y a b s buf e f = rw (urldecode_from, e, f) refl

  urldecode_from-escaped :
      (c : ℕ) (s : Bytes) (buf : M.Buf)
      → c < 127
      → urldecode_from M Z (escaped c ++ s) buf ≡ urldecode_from M Z s (M.append buf (c ∷ []))
  unfolding escaped
  urldecode_from-escaped c s buf h = elim (Bool-cases (is_unreserved c)) [
    | inl u ↦ rw u (urldecode_from-plain c s buf (is_unreserved-escape c u))
    | inr u ↦
        let pair =
          urldecode_from-percent (hex_digit (c / 16)) (hex_digit (c % 16)) (c / 16) (c % 16) s buf
            (hex2c-hex_digit (c / 16) (omega arith)) (hex2c-hex_digit (c % 16) (omega arith)) in
        let whole : (16 * (c / 16) + c % 16) % 256 ≡ c = omega arith in
        rw u (pair ∙ ap (λ d. urldecode_from M Z s (M.append buf (d ∷ []))) whole)
  ]

  text-urldecode_from :
      (s : Bytes) (buf : M.Buf)
      → IsPrintable s
      → let r = urldecode_from M Z (escaped_all s) buf in
        (r.0 ≡ pos 0) × (c_string (M.bytes r.1) ≡ c_string (M.bytes buf ++ s))
  unfolding urldecode_from
  text-urldecode_from [] buf p =
      (refl, Z.text-append_zero buf ∙ ap c_string (sym (append-nil (M.bytes buf))))
  text-urldecode_from (c ∷ s) buf p =
      let step = urldecode_from-escaped c (escaped_all s) buf p.1 in
      let rest = text-urldecode_from s (M.append buf (c ∷ [])) p.2 in
      let moved =
        ap (λ b. c_string (b ++ s)) (M.bytes-append buf (c ∷ []))
        ∙ ap c_string (append_assoc (M.bytes buf) (c ∷ []) s) in
      (ap (λ r. r.0) step ∙ rest.0, ap (λ r. c_string (M.bytes r.1)) step ∙ rest.1 ∙ moved)

  c_string-printable : (s : Bytes) → IsPrintable s → c_string s ≡ s
  c_string-printable [] p = refl
  c_string-printable (c ∷ s) p =
      rw (==_false c 0 (λ e. absurd (omega (arith, p.0))))
        (ap (λ t. c ∷ t) (c_string-printable s p.2))

  c_string-escaped_all : (s : Bytes) → IsPrintable s → c_string (escaped_all s) ≡ escaped_all s
  c_string-escaped_all [] p = refl
  c_string-escaped_all (c ∷ s) p =
      c_string-escaped c (escaped_all s) p.0 ∙ ap (λ t. escaped c ++ t) (c_string-escaped_all s p.2)

  text-urlencode_from :
      (s : Bytes) (buf : M.Buf)
      → IsPrintable s
      → let r = urlencode_from M Z s buf in
        (r.0 ≡ pos 0) × (c_string (M.bytes r.1) ≡ c_string (M.bytes buf ++ escaped_all s))
  unfolding urlencode_from
  text-urlencode_from [] buf p =
      (refl, Z.text-append_zero buf ∙ ap c_string (sym (append-nil (M.bytes buf))))
  text-urlencode_from (c ∷ s) buf p =
      let rest = text-urlencode_from s (M.append buf (escaped c)) p.2 in
      let moved =
        ap (λ b. c_string (b ++ escaped_all s)) (M.bytes-append buf (escaped c))
        ∙ ap c_string (append_assoc (M.bytes buf) (escaped c) (escaped_all s)) in
      rw (le→ltb c 32 p.0, lt→leb 127 c p.1) (rest.0, rest.1 ∙ moved)

  -- A printable text goes through `urlencode` and `urldecode`, whatever the buffers held: both return
  -- 0, and the second buffer, read as a C string, holds the text.
  pub urldecode-urlencode :
      (s : Bytes) (buf buf' : M.Buf)
      → IsPrintable s
      → let r = urlencode M Z s buf in
        let t = urldecode M Z (c_string (M.bytes r.1)) buf' in
        (r.0 ≡ pos 0) × (t.0 ≡ pos 0) × (c_string (M.bytes t.1) ≡ s)
  unfolding urlencode urldecode
  urldecode-urlencode s buf buf' p =
      let sent = text-urlencode_from s (M.clear buf) p in
      let back = text-urldecode_from s (M.clear buf') p in
      let coded =
        sent.1
        ∙ ap (λ b. c_string (b ++ escaped_all s)) (M.bytes-clear buf)
        ∙ c_string-escaped_all s p in
      rw coded (
        sent.0,
        back.0,
        back.1 ∙ ap (λ b. c_string (b ++ s)) (M.bytes-clear buf') ∙ c_string-printable s p,
      )
