-- ===== src/Rlib.antt =====
-- What the program uses of libr, the library of utilities that the build downloads. It is not part
-- of this repository, so each part is a record of operations with the behaviour that the program
-- relies on, which the models take as a parameter; `list_membuf` shows that it can be met.
use rcom.Data.{c_string}
use rcom.Base.{
  ◌≢◌, ℕ, List, suc, zero, length, inr, inl, arith, ap₂, Bool, false, true, ◌&&◌, Bool-cases,
  ==_true, ==_iff, ap, ◌∷◌, if◌then◌else◌, ◌==◌, ◌≡◌, refl, Bytes, [], ◌++◌,
}

-- `membuf_t`: a byte buffer that grows. `bytes m` are the `membuf_len(m)` bytes at `membuf_data(m)`.
pub record Membuf : Type 1 where
  pub Buf : Type 0
  pub bytes : Buf → Bytes
  pub clear : Buf → Buf
  pub append : Buf → Bytes → Buf
  pub bytes-clear : (m : Buf) → bytes (clear m) ≡ []
  pub bytes-append : (m : Buf) (b : Bytes) → bytes (append m b) ≡ bytes m ++ b

abbrev pub list_membuf : Membuf
list_membuf = record {
  Buf = Bytes;
  bytes = λ m. m;
  clear = λ m. [];
  append = λ m b. m ++ b;
  bytes-clear = λ m. refl;
  bytes-append = λ m b. refl;
}

-- `membuf_append_zero` on such a buffer: the contents, read as a C string, stay the same. Whether the
-- zero counts in `membuf_len` is left open.
pub record Terminated (M : Membuf) : Type 0 where
  pub append_zero : M.Buf → M.Buf
  pub text-append_zero : (m : M.Buf) → c_string (M.bytes (append_zero m)) ≡ c_string (M.bytes m)

pub text-snoc_zero : (m : Bytes) → c_string (m ++ 0 ∷ []) ≡ c_string m
text-snoc_zero [] = refl
text-snoc_zero (b ∷ m) = ap (λ t. if b == 0 then [] else b ∷ t) (text-snoc_zero m)

abbrev pub list_terminated : Terminated list_membuf
list_terminated = record { append_zero = λ m. m ++ 0 ∷ []; text-append_zero = text-snoc_zero }

-- `rstreq` tells whether two strings are the same.
pub record Strings : Type 0 where
  pub rstreq : Bytes → Bytes → Bool
  pub rstreq_true : (s t : Bytes) → rstreq s t ≡ true → s ≡ t
  pub rstreq_same : (s : Bytes) → rstreq s s ≡ true

abbrev pub same_bytes : Bytes → Bytes → Bool
same_bytes [] [] = true
same_bytes (b ∷ s) (c ∷ t) = (b == c) && same_bytes s t
same_bytes _ _ = false

pub same_bytes-true : (s t : Bytes) → same_bytes s t ≡ true → s ≡ t
same_bytes-true [] [] e = refl
same_bytes-true [] (c ∷ t) e = absurd (ground (arith, e))
same_bytes-true (b ∷ s) [] e = absurd (ground (arith, e))
same_bytes-true (b ∷ s) (c ∷ t) e = elim (Bool-cases (b == c)) [
  | inl u ↦ ap₂ (λ x y. x ∷ y) ((==_iff b c).0 u) (same_bytes-true s t (rw u at e))
  | inr u ↦ absurd (ground (arith, e, u))
]

pub same_bytes_same : (s : Bytes) → same_bytes s s ≡ true
same_bytes_same [] = refl
same_bytes_same (b ∷ s) = rw (==_true b b refl) (same_bytes_same s)

abbrev pub list_strings : Strings
list_strings = record {
  rstreq = same_bytes;
  rstreq_true = same_bytes-true;
  rstreq_same = same_bytes_same;
}

pub rstreq_false : (S : Strings) (s t : Bytes) → s ≢ t → S.rstreq s t ≡ false
rstreq_false S s t ne = elim (Bool-cases (S.rstreq s t)) [
  | inl u ↦ absurd (ne (S.rstreq_true s t u))
  | inr u ↦ u
]

-- `list_t`, as the list of its data. `list_remove` is given a datum by its place in the list, since
-- no two elements have the same pointer.
pub record Lists (A : Type 0) : Type 0 where
  pub list_append : List A → A → List A
  pub list_prepend : List A → A → List A
  pub list_remove : List A → ℕ → List A
  pub append_lem : (l : List A) (a : A) → list_append l a ≡ l ++ a ∷ []
  pub prepend_lem : (l : List A) (a : A) → list_prepend l a ≡ a ∷ l
  pub remove_lem : (l m : List A) (a : A) → list_remove (l ++ a ∷ m) (length l) ≡ l ++ m

abbrev pub remove_at : {A : Type 0} → List A → ℕ → List A
remove_at [] n = []
remove_at (a ∷ l) zero = l
remove_at (a ∷ l) (suc n) = a ∷ remove_at l n

pub remove_at-length :
    {A : Type 0} (l m : List A) (a : A) → remove_at (l ++ a ∷ m) (length l) ≡ l ++ m
remove_at-length [] m a = refl
remove_at-length (b ∷ l) m a = ap (λ t. b ∷ t) (remove_at-length l m a)

abbrev pub list_lists : {A : Type 0} → Lists A
list_lists = record {
  list_append = λ l a. l ++ a ∷ [];
  list_prepend = λ l a. a ∷ l;
  list_remove = remove_at;
  append_lem = λ l a. refl;
  prepend_lem = λ l a. refl;
  remove_lem = remove_at-length;
}
