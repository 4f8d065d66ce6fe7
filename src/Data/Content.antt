-- ===== src/Data/Content.antt =====
-- data.c: the bytes that a packet carries, as they are set, formatted and handed to the JSON parser.
use rcom.Base.{
  ℕ, zero, suc, ◌+◌, ◌-◌, ◌≤◌, ◌<◌, ◌≡◌, refl, sym, ap, ◌∙◌, ℤ, pos, negsuc, some, [], ◌∷◌, ◌++◌,
  arith, min, ltb, leb, ◌==◌, if◌then◌else◌, length, take, drop, set, Bytes, length-append,
  length-take, Bool-cases, inl, inr, subst, false, le→ltb, leb→le, leb→lt, take-append_le, take_all,
  take-take-min, ◌↔◌,
}
use rcom.Data.{
  Data, data_maxlen, c_string, set_data, append_zero, append_zero_at, vprintf, parse_text,
  with_text, poke,
}
use rcom.Data.Bounds.{IsValid, InRange}

-- The bytes carried: the first `len` of the block.
abbrev pub content_of : Bytes → ℤ → Bytes
content_of block (pos n) = take n block
content_of block (negsuc n) = []

unfoldable pub content : Data → Bytes
content m = content_of m.p.payload m.len

-- `data_set_data` of `n` bytes, of which the source has enough, carries just these; what is longer
-- than `DATA_MAXLEN` is cut there.
pub content-set_data :
    (m : Data) (s : Bytes) (n : ℕ)
    → n ≤ length s
    → (m' : Data) × (set_data m (some s) (pos n) ≡ some m')
      × (m'.len ≡ pos (min n data_maxlen))
      × (content m' ≡ take (min n data_maxlen) s)
unfolding set_data content
content-set_data m s n h =
    let k = min n data_maxlen in
    let cut : (if ltb data_maxlen n then data_maxlen else n) ≡ k = ground arith in
    let enough : ltb (length s) k ≡ false = le→ltb _ _ (omega arith) in
    let l : length (take k s) ≡ k = omega (arith, length-take k s) in
    (
      record {
        len = pos k;
        p = record {
          seqnum = m.p.seqnum;
          timestamp = m.p.timestamp;
          payload = take k s ++ drop k m.p.payload;
        };
      },
      rw (cut, enough),
      refl,
      take-append_le k (take k s) (drop k m.p.payload) (omega arith)
          ∙ take_all k (take k s) (omega arith),
    )

c_string-set :
    (block : Bytes) (n : ℕ) → n < length block → c_string (set block n 0) ≡ c_string (take n block)
c_string-set [] n h = elim h [ ]
c_string-set (b ∷ bs) zero h = refl
c_string-set (b ∷ bs) (suc n) h =
    ap (λ t. if b == 0 then [] else b ∷ t) (c_string-set bs n (omega arith))

append_zero_lem :
    (m : Data) (n : ℕ)
    → m.len ≡ pos n
    → n ≤ data_maxlen
    → (m' : Data) × (append_zero m ≡ some m')
      × (m'.p ≡ poke m (min n (data_maxlen - 1)) 0)
      × (m'.len ≡ pos (min (n + 1) data_maxlen))
unfolding append_zero append_zero_at
append_zero_lem m n e r = elim (Bool-cases (leb n (data_maxlen - 1))) [
  | inl short ↦
      let le = leb→le n (data_maxlen - 1) short in
      let k : n ≡ min n (data_maxlen - 1) = omega arith in
      let l : n + 1 ≡ min (n + 1) data_maxlen = omega arith in
      (
        record { len = pos (n + 1); p = poke m n 0 },
        ap (append_zero_at m) e ∙ rw short,
        ap (λ i. poke m i 0) k,
        ap pos l,
      )
  | inr long ↦
      let lt = leb→lt n (data_maxlen - 1) long in
      let k : data_maxlen - 1 ≡ min n (data_maxlen - 1) = omega arith in
      let l : n ≡ min (n + 1) data_maxlen = omega arith in
      (
        record m { p = poke m (data_maxlen - 1) 0 },
        ap (append_zero_at m) e ∙ rw long,
        ap (λ i. poke m i 0) k,
        e ∙ ap pos l,
      )
]

-- `data_parse` of a valid packet is defined, and hands the parser the bytes carried up to the first
-- zero; of a packet that is full, without the last byte, which the zero takes.
pub parse_text-content :
    {m : Data} (n : ℕ)
    → IsValid m
    → m.len ≡ pos n
    → (m' : Data) × (parse_text m ≡ some (m', c_string (take (data_maxlen - 1) (content m))))
unfolding parse_text content
parse_text-content {m} n v e =
    let r : InRange (pos n) = subst InRange e v.range in
    let (m', s, p, l) = append_zero_lem m n e r in
    let k = min n (data_maxlen - 1) in
    let text : c_string m'.p.payload ≡ c_string (take k m.p.payload) =
      ap (λ q. c_string q.payload) p
      ∙ c_string-set m.p.payload k (omega (arith, v.layout.payload_size)) in
    let cut : take k m.p.payload ≡ take (data_maxlen - 1) (take n m.p.payload) =
      take-take-min (data_maxlen - 1) n m.p.payload in
    let held : take n m.p.payload ≡ content_of m.p.payload m.len =
      ap (content_of m.p.payload) (sym e) in
    (
      m',
      ap with_text s
          ∙ ap (λ t. some (m', t))
              (text ∙ ap c_string cut ∙ ap (λ t. c_string (take (data_maxlen - 1) t)) held),
    )

take_front : (k : ℕ) (t z block : Bytes) → length t ≡ k → take k ((t ++ z) ++ block) ≡ t
take_front k t z block e =
    take-append_le k (t ++ z) block (omega (arith, length-append t z))
    ∙ take-append_le k t z (omega arith)
    ∙ take_all k t (omega arith)

-- A text of at most `DATA_MAXLEN - 1` bytes is formatted whole, and the call returns 0; a longer
-- text is cut at that length, and the call returns -1.
pub content-vprintf :
    (m : Data) (text : Bytes)
    → (content (vprintf m (some text)).1 ≡ take (data_maxlen - 1) text)
      × ((vprintf m (some text)).0 ≡ pos 0 ↔ length text < data_maxlen)
unfolding vprintf content
content-vprintf m text = elim (Bool-cases (leb data_maxlen (length text))) [
  | inl long ↦
      let le = leb→le data_maxlen (length text) long in
      rw long (
        take_front (data_maxlen - 1) (take (data_maxlen - 1) text) (0 ∷ []) _
            (omega (arith, length-take (data_maxlen - 1) text)),
        ((λ e. cc), (λ l. absurd (omega arith))),
      )
  | inr short ↦
      let lt = leb→lt data_maxlen (length text) short in
      rw short (
        take_front (length text) (take (data_maxlen - 1) text) (0 ∷ []) _
            (omega (arith, length-take (data_maxlen - 1) text)),
        ((λ e. lt), (λ l. refl)),
      )
]
