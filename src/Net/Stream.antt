-- ===== src/Net/Stream.antt =====
-- net.c: `tcp_socket_read` sees the stream of bytes, and not the pieces that it comes in.
use rcom.Base.{
  zero, drop-append_le, take-append_le, leb→lt, inr, drop-append_ge, take-append_ge, refl, sym,
  append_assoc, ap, ◌∙◌, ◌+◌, length-append, arith, ◌-◌, leb→le, inl, leb, Bool-cases, suc, ◌∷◌,
  append-nil, drop, take, some, [], length, ◌≤◌, ◌++◌, List, Bytes, ℕ, ◌≡◌,
}
use rcom.Net.{
  Reading, ◌>>=◌, Recv, chunk, shutdown, again, broken, leftover, ok, read_more, tcp_socket_read,
}

-- The bytes that come before the stream ends or breaks.
abbrev pub stream : List Recv → Bytes
stream [] = []
stream (chunk b bs ∷ es) = b ∷ (bs ++ stream es)
stream (shutdown ∷ es) = []
stream (again ∷ es) = stream es
stream (broken ∷ es) = []

pub stream-leftover : (bs : Bytes) (es : List Recv) → stream (leftover bs es) ≡ bs ++ stream es
stream-leftover [] es = refl
stream-leftover (b ∷ bs) es = refl

-- Nothing but pieces: no timeout, no error, and no end, up to the last one.
abbrev pub IsPieces : List Recv → Type 0
IsPieces [] = Unit
IsPieces (chunk b bs ∷ es) = IsPieces es
IsPieces (shutdown ∷ es) = ⊥
IsPieces (again ∷ es) = ⊥
IsPieces (broken ∷ es) = ⊥

pub IsPieces-leftover : (bs : Bytes) (es : List Recv) → IsPieces es → IsPieces (leftover bs es)
IsPieces-leftover [] es h = h
IsPieces-leftover (b ∷ bs) es h = h

read_more-stream :
    (es : List Recv) (n : ℕ) (got : Bytes)
    → n ≤ length (stream es)
    → (es' : List Recv) × (read_more es n got ≡ some (ok (got ++ take n (stream es)), es'))
      × (stream es' ≡ drop n (stream es))
      × (IsPieces es → IsPieces es')
unfolding read_more
read_more-stream es zero got h = (es, rw append-nil, refl, λ p. p)
read_more-stream [] (suc n) got h = elim h [ ]
read_more-stream (shutdown ∷ es) (suc n) got h = elim h [ ]
read_more-stream (broken ∷ es) (suc n) got h = elim h [ ]
read_more-stream (again ∷ es) (suc n) got h =
    let (es', e, s, p) = read_more-stream es (suc n) got h in (es', e, s, λ q. absurd q)
read_more-stream (chunk b bs ∷ es) (suc n) got h =
    elim (Bool-cases (leb (length (b ∷ bs)) (suc n))) [
      | inl whole ↦
          let fits = leb→le (length (b ∷ bs)) (suc n) whole in
          let (es', e, s, p) =
            read_more-stream es (n - length bs) (got ++ (b ∷ bs))
              (omega (arith, length-append bs (stream es))) in
          let split : n ≡ length bs + (n - length bs) = omega arith in
          let m = n - length bs in
          (
            es',
            rw whole (
                e
                ∙ ap (λ q. some (ok q, es'))
                    (append_assoc got (b ∷ bs) (take m (stream es))
                      ∙ ap (λ q. got ++ (b ∷ q))
                          (sym (take-append_ge m bs (stream es))
                            ∙ ap (λ k. take k (bs ++ stream es)) (sym split)))),
            s
                ∙ sym (drop-append_ge m bs (stream es))
                ∙ ap (λ k. drop k (bs ++ stream es)) (sym split),
            p,
          )
      | inr part ↦
          let over = leb→lt (length (b ∷ bs)) (suc n) part in
          (
            leftover (drop (suc n) (b ∷ bs)) es,
            rw part (
                ap (λ q. some (ok (got ++ (b ∷ q)), leftover (drop (suc n) (b ∷ bs)) es))
                  (sym (take-append_le n bs (stream es) (omega arith)))),
            stream-leftover (drop n bs) es ∙ sym (drop-append_le n bs (stream es) (omega arith)),
            λ p. IsPieces-leftover (drop n bs) es p,
          )
    ]

-- If `n` bytes come, `tcp_socket_read` returns the first `n`, whatever pieces they come in and however
-- often `recv` times out in between, and leaves the rest.
pub tcp_socket_read-stream :
    (n : ℕ) (es : List Recv)
    → n ≤ length (stream es)
    → (es' : List Recv) × (tcp_socket_read n es ≡ some (ok (take n (stream es)), es'))
      × (stream es' ≡ drop n (stream es))
      × (IsPieces es → IsPieces es')
unfolding tcp_socket_read
tcp_socket_read-stream n es h = read_more-stream es n [] h

-- The program `m`, run on `es`, returns `a` and leaves the bytes `rest`.
abbrev pub Gives : {A : Type 0} → Reading A → List Recv → A → Bytes → Type 0
Gives m es a rest =
    (es' : List Recv) × (m es ≡ some (ok a, es')) × (stream es' ≡ rest) × IsPieces es'

pub Gives-bind :
    {A B : Type 0} (m : Reading A) (f : A → Reading B) (es : List Recv) (a : A) (b : B)
    (r r' : Bytes)
    → Gives m es a r
    → ((es' : List Recv) → stream es' ≡ r → IsPieces es' → Gives (f a) es' b r')
    → Gives (m >>= f) es b r'
Gives-bind m f es a b r r' (es', e, s, p) k =
    let (es'', e', s', p') = k es' s p in (es'', rw (e, ◌>>=◌) e', s', p')
