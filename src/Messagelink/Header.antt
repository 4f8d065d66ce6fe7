-- ===== src/Messagelink/Header.antt =====
-- messagelink.c: the header of a frame is read back field by field.
use rcom.Base.{
  ℕ_discrete, subst, sym, inr, inl, Bool-cases, ==_false, ==_true, leb→lt, leb→le, ltb→lt, negsuc,
  ℕ, arith, ap₂, ap, refl, Bool, List, some, false, true, [], ◌∙◌, ◌<◌, ◌≤◌, ◌^◌, ◌%◌, ◌/◌, ◌+◌,
  ◌≡◌, ◌∷◌, ◌++◌, drop-append_ge, take-append_le, take_all, length-append, drop, take, length,
  if◌then◌else◌, ◌==◌, leb, ltb, Bytes,
}
use Prim.Native.Nat.{bit_or}
use rcom.Base.Bits.{bit_or_shift}
use rcom.Net.{◌>>=◌, Reading, Recv, ok, tcp_socket_read, octet, swap16, return, fail}
use rcom.Net.Stream.{stream, IsPieces, Gives, Gives-bind, tcp_socket_read-stream}
use rcom.Messagelink.{
  le64, le16, Frame, length_field, swap64, read_exact, read_frame, read_length, read_mask,
}
use rcom.Messagelink.Lengths.{le16-swap16, le64-swap64, octets64}

tcp_socket_read-Gives :
    (xs rest : Bytes) (n : ℕ) (es : List Recv)
    → length xs ≡ n
    → stream es ≡ xs ++ rest
    → IsPieces es
    → Gives (tcp_socket_read n) es xs rest
tcp_socket_read-Gives xs rest n es l s p =
    let h : n ≤ length (stream es) = omega (arith, ap length s, length-append xs rest) in
    let (es', e, r, keep) = tcp_socket_read-stream n es h in
    let front : take n (stream es) ≡ xs =
      ap (take n) s
      ∙ take-append_le n xs rest (omega (arith, l))
      ∙ take_all n xs (omega (arith, l)) in
    let m : n ≡ length xs + 0 = omega (arith, l) in
    let back : drop n (stream es) ≡ rest = ap₂ drop m s ∙ drop-append_ge 0 xs rest in
    (es', e ∙ ap (λ q. some (ok q, es')) front, r ∙ back, keep p)

pub read_exact-Gives :
    (xs rest : Bytes) (n : ℕ) (es : List Recv)
    → length xs ≡ n
    → stream es ≡ xs ++ rest
    → IsPieces es
    → Gives (read_exact n) es xs rest
read_exact-Gives xs rest n es l s p =
    Gives-bind (tcp_socket_read n) (λ b. if length b == n then return b else fail (negsuc 0)) es xs
      xs rest rest (tcp_socket_read-Gives xs rest n es l s p)
      (λ es' s' p'. (es', rw (==_true (length xs) n l), s', p'))

-- the frame that `frame_make_header` describes, with its 7 bits of length
abbrev pub sent_frame : ℕ → Bool → ℕ → Frame
sent_frame opcode masked l7 = record {
  fin = 1;
  opcode = opcode;
  mask = if masked then 1 else 0;
  length7 = l7;
}

abbrev pub flagged : Bool → ℕ → ℕ
flagged masked l7 = if masked then 128 + l7 else l7

header_fields :
    (opcode l7 : ℕ) (masked : Bool)
    → opcode < 16
    → l7 < 128
    → record {
      fin = (128 + opcode) / 128 % 2;
      opcode = (128 + opcode) % 16;
      mask = flagged masked l7 / 128 % 2;
      length7 = flagged masked l7 % 128;
    }
      ≡ sent_frame opcode masked l7
header_fields opcode l7 masked o l =
    let a : (128 + opcode) / 128 % 2 ≡ 1 = omega arith in
    let b : (128 + opcode) % 16 ≡ opcode = omega arith in
    let c : flagged masked l7 / 128 % 2 ≡ (if masked then 1 else 0) = ground arith in
    let d : flagged masked l7 % 128 ≡ l7 = ground arith in
    λ i. record { fin = a i; opcode = b i; mask = c i; length7 = d i }

pub read_frame-Gives :
    (opcode l7 : ℕ) (masked : Bool) (rest : Bytes) (es : List Recv)
    → opcode < 16
    → l7 < 128
    → stream es ≡ (128 + opcode) ∷ flagged masked l7 ∷ rest
    → IsPieces es
    → Gives read_frame es (sent_frame opcode masked l7) rest
unfolding read_frame
read_frame-Gives opcode l7 masked rest es o l s p =
    let xs = (128 + opcode) ∷ flagged masked l7 ∷ [] in
    Gives-bind (read_exact 2) _ es xs (sent_frame opcode masked l7) rest rest
      (read_exact-Gives xs rest 2 es refl s p)
      (λ es' s' p'. (es', ap (λ q. some (ok q, es')) (header_fields opcode l7 masked o l), s', p'))

-- the two ways to write 7 bits
abbrev pub short_length : ℕ → ℕ
short_length n = if ltb n 126 then n else if leb n 65536 then 126 else 127

-- what follows them
abbrev pub extended : ℕ → Bytes
extended n =
    if ltb n 126
    then []
    else if leb n 65536
    then octet (swap16 (n % 2 ^ 16)) 0 ∷ octet (swap16 (n % 2 ^ 16)) 8 ∷ []
    else octets64 (swap64 n)

abbrev pub extended16 : ℕ → Bytes
extended16 n = octet (swap16 (n % 2 ^ 16)) 0 ∷ octet (swap16 (n % 2 ^ 16)) 8 ∷ []

flags126 : (masked : Bool) → (if masked then 254 else 126) ≡ flagged masked 126
flags126 true = refl
flags126 false = refl

flags127 : (masked : Bool) → (if masked then 255 else 127) ≡ flagged masked 127
flags127 true = refl
flags127 false = refl

pub length_field_lem :
    (masked : Bool) (n : ℕ) → length_field masked n ≡ flagged masked (short_length n) ∷ extended n
unfolding length_field
length_field_lem masked n = elim (Bool-cases (ltb n 126)) [
  | inl short ↦
      let lt = ltb→lt n 126 short in
      let e : n % 128 ≡ n = omega arith in
      let f : bit_or 128 n ≡ 128 + n = bit_or_shift 7 1 n (omega arith) in rw (short, e, f)
  | inr long ↦ elim (Bool-cases (leb n 65536)) [
    | inl medium ↦ rw (long, medium) (ap (λ t. t ∷ extended16 n) (flags126 masked))
    | inr wide ↦ rw (long, wide) (ap (λ t. t ∷ octets64 (swap64 n)) (flags127 masked))
  ]
]

-- The length read is the length sent, but for 65536, which comes out as 0.
abbrev pub received_length : ℕ → ℕ
received_length n = if n == 65536 then 0 else n

abbrev read16 : Reading ℕ
read16 = do b ← read_exact 2; return (swap16 (le16 b))

abbrev read64 : Reading ℕ
read64 = do b ← read_exact 8; return (swap64 (le64 b))

swap16_received : (n : ℕ) → n ≤ 65536 → swap16 (le16 (extended16 n)) ≡ received_length n
swap16_received n h = elim (ℕ_discrete n 65536) [
  | yes e ↦ rw e
  | no ne ↦ rw (==_false n 65536 ne) (le16-swap16 n (omega arith))
]

read16-Gives :
    (n : ℕ) (rest : Bytes) (es : List Recv)
    → n ≤ 65536
    → stream es ≡ extended16 n ++ rest
    → IsPieces es
    → Gives read16 es (received_length n) rest
read16-Gives n rest es h s p =
    Gives-bind (read_exact 2) (λ b. return (swap16 (le16 b))) es (extended16 n) (received_length n)
      rest rest (read_exact-Gives (extended16 n) rest 2 es refl s p)
      (λ es' s' p'. (es', ap (λ v. some (ok v, es')) (swap16_received n h), s', p'))

read64-Gives :
    (n : ℕ) (rest : Bytes) (es : List Recv)
    → 65536 < n
    → n < 2 ^ 32
    → stream es ≡ octets64 (swap64 n) ++ rest
    → IsPieces es
    → Gives read64 es (received_length n) rest
read64-Gives n rest es h k s p =
    let ne = ==_false n 65536 (λ e. absurd (omega arith)) in
    Gives-bind (read_exact 8) (λ b. return (swap64 (le64 b))) es (octets64 (swap64 n))
      (received_length n) rest rest (read_exact-Gives (octets64 (swap64 n)) rest 8 es refl s p)
      (λ es' s' p'. (es', ap (λ v. some (ok v, es')) (le64-swap64 n k ∙ rw ne), s', p'))

pub read_length-Gives :
    (opcode n : ℕ) (masked : Bool) (rest : Bytes) (es : List Recv)
    → n < 2 ^ 32
    → stream es ≡ extended n ++ rest
    → IsPieces es
    → Gives (read_length (sent_frame opcode masked (short_length n))) es (received_length n) rest
unfolding read_length
read_length-Gives opcode n masked rest es h s p = elim (Bool-cases (ltb n 126)) [
  | inl short ↦
      let lt = ltb→lt n 126 short in
      let ne = ==_false n 65536 (λ e. absurd (omega arith)) in
      let s' : stream es ≡ rest = rw short at s in (es, rw (short, short, ne), s', p)
  | inr long ↦ elim (Bool-cases (leb n 65536)) [
    | inl medium ↦
        let s' : stream es ≡ extended16 n ++ rest = rw (long, medium) at s in
        let e : read_length (sent_frame opcode masked (short_length n)) ≡ read16 =
          rw (long, medium) in
        subst (λ m. Gives m es (received_length n) rest) (sym e)
          (read16-Gives n rest es (leb→le n 65536 medium) s' p)
    | inr wide ↦
        let s' : stream es ≡ octets64 (swap64 n) ++ rest = rw (long, wide) at s in
        let e : read_length (sent_frame opcode masked (short_length n)) ≡ read64 =
          rw (long, wide) in
        subst (λ m. Gives m es (received_length n) rest) (sym e)
          (read64-Gives n rest es (leb→lt n 65536 wide) h s' p)
  ]
]

pub read_mask-Gives :
    (opcode l7 : ℕ) (masked : Bool) (mask rest : Bytes) (es : List Recv)
    → length mask ≡ 4
    → stream es ≡ (if masked then mask else []) ++ rest
    → IsPieces es
    → Gives
        (read_mask (sent_frame opcode masked l7))
        es
        (if masked then mask else (0 ∷ 0 ∷ 0 ∷ 0 ∷ []))
        rest
unfolding read_mask
read_mask-Gives opcode l7 true mask rest es l s p = read_exact-Gives mask rest 4 es l s p
read_mask-Gives opcode l7 false mask rest es l s p = (es, refl, s, p)
