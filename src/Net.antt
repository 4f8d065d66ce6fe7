-- ===== src/Net.antt =====
-- librcom/src/net.c: the TCP calls. What the kernel will return to successive calls of `recv` is a
-- list of events, so any split of the byte stream into pieces is some list; a call that would block
-- for ever is `none`. The byte order is that of a little-endian host.
pub mod Stream
use rcom.Base.{
  ℕ, zero, suc, ◌+◌, ◌-◌, ◌*◌, ◌/◌, ◌%◌, ◌^◌, ℤ, pos, negsuc, Option, none, some, List, [], ◌∷◌,
  ◌++◌, leb, if◌then◌else◌, length, take, drop, Bytes,
}

-- What one `recv` finds: a piece of at least one byte, the end of the stream, `EAGAIN`, or another
-- error.
pub data Recv : Type 0 where
  chunk : ℕ → Bytes → Recv
  shutdown : Recv
  again : Recv
  broken : Recv

-- What a piece leaves when not all of it was taken.
abbrev pub leftover : Bytes → List Recv → List Recv
leftover [] es = es
leftover (b ∷ bs) es = chunk b bs ∷ es

-- A call that reads from the socket: its value, or the code of its error.
pub data Result {ℓ} (A : Type ℓ) : Type ℓ where
  ok : A → Result A
  err : ℤ → Result A

abbrev pub Reading : Type 0 → Type 0
Reading A = List Recv → Option (Result A × List Recv)

infixl 5 ◌>>=◌
abbrev pub ◌>>=◌ : {A B : Type 0} → Reading A → (A → Reading B) → Reading B
◌>>=◌ m f es = elim (m es) [
  | none ↦ none
  | some (r, es') ↦ elim r [ ok a ↦ f a es' | err c ↦ some (err c, es') ]
]

abbrev pub return : {A : Type 0} → A → Reading A
return a es = some (ok a, es)

abbrev pub fail : {A : Type 0} → ℤ → Reading A
fail c es = some (err c, es)

-- `tcp_socket_recv` for a positive length: the bytes, of which there are none at the end of the
-- stream; -2 for `EAGAIN`, -1 for another error.
unfoldable pub tcp_socket_recv : ℕ → Reading Bytes
tcp_socket_recv len [] = none
tcp_socket_recv len (chunk b bs ∷ es) =
    some (ok (take len (b ∷ bs)), leftover (drop len (b ∷ bs)) es)
tcp_socket_recv len (shutdown ∷ es) = some (ok [], es)
tcp_socket_recv len (again ∷ es) = some (err (negsuc 1), es)
tcp_socket_recv len (broken ∷ es) = some (err (negsuc 0), es)

-- The loop of `tcp_socket_read`, with what is still to read and what was read.
pub read_more : List Recv → ℕ → Bytes → Option (Result Bytes × List Recv)
read_more es zero got = some (ok got, es)
read_more [] (suc n) got = none
read_more (chunk b bs ∷ es) (suc n) got =
    let whole = read_more es (n - length bs) (got ++ (b ∷ bs)) in
    if leb (length (b ∷ bs)) (suc n)
    then whole
    else some (ok (got ++ take (suc n) (b ∷ bs)), leftover (drop (suc n) (b ∷ bs)) es)
read_more (shutdown ∷ es) (suc n) got = some (ok got, es)
read_more (again ∷ es) (suc n) got = read_more es (suc n) got
read_more (broken ∷ es) (suc n) got = some (err (negsuc 0), es)

-- `tcp_socket_read`: fewer bytes than asked for if the stream ends.
pub tcp_socket_read : ℕ → Reading Bytes
unfolding read_more
tcp_socket_read len es = read_more es len []

-- The bytes of a 16-bit, 32-bit and 64-bit number, the low one first.
abbrev pub octet : ℕ → ℕ → ℕ
octet x k = x / 2 ^ k % 256

-- `htons` and `ntohs`
abbrev pub swap16 : ℕ → ℕ
swap16 x = octet x 0 * 2 ^ 8 + octet x 8

-- `htonl` and `ntohl`
abbrev pub swap32 : ℕ → ℕ
swap32 x = octet x 0 * 2 ^ 24 + octet x 8 * 2 ^ 16 + octet x 16 * 2 ^ 8 + octet x 24
