-- ===== src/Addr.antt =====
-- librcom/src/addr.c: IPv4 addresses with a port. The calls of the C library, `inet_aton`, `inet_ntoa`,
-- `strtol` in base 10 and the format `%d`, are an interface with the behaviour relied on.
pub mod RoundTrip
pub mod Instance
pub mod Validity
mod Tests
use rcom.Rlib.{Strings}
use rcom.Base.{
  negsuc, pos, Bool, Option, none, some, not, false, [], ◌||◌, ◌<◌, ◌^◌, ◌%◌, ◌-◌, ◌≡◌, ◌∷◌, ◌++◌,
  ℤ, take, length, if◌then◌else◌, ◌==◌, leb, ltb, Bytes, ℕ,
}

-- A `struct sockaddr_in`, with `sin_addr` and `sin_port` as numbers in host order.
pub record Addr : Type 0 where
  pub sin_addr : ℕ
  pub sin_port : ℕ

-- `strchr`: what stands before the first `c`, and what behind it.
unfoldable pub split_at : ℕ → Bytes → Option (Bytes × Bytes)
split_at c [] = none
split_at c (b ∷ s) =
    let rest = split_at c s in
    if b == c then some ([], s) else elim rest [ none ↦ none | some r ↦ some (b ∷ r.0, r.1) ]

-- The C library. `strtol s` is the value, a `long`, and what is left of `s` behind the number. A
-- dotted address has no colon and less than 16 characters.
pub record Inet : Type 0 where
  pub inet_aton : Bytes → Option ℕ
  pub inet_ntoa : ℕ → Bytes
  pub strtol : Bytes → ℤ × Bytes
  pub decimal : ℕ → Bytes
  pub aton_bound : (s : Bytes) (a : ℕ) → inet_aton s ≡ some a → a < 2 ^ 32
  pub aton-ntoa : (a : ℕ) → a < 2 ^ 32 → inet_aton (inet_ntoa a) ≡ some a
  pub ntoa_short : (a : ℕ) → a < 2 ^ 32 → length (inet_ntoa a) < 16
  pub ntoa_plain :
      (a : ℕ) (s : Bytes) → a < 2 ^ 32 → split_at 58 (inet_ntoa a ++ 58 ∷ s) ≡ some (inet_ntoa a, s)
  pub strtol-decimal : (n : ℕ) → n < 2 ^ 31 → strtol (decimal n) ≡ (pos n, [])
  pub decimal_length : (n : ℕ) → n < 2 ^ 16 → (0 < length (decimal n)) × (length (decimal n) < 6)

-- the conversion of a `long` to an `int`
pub int_of_long : ℤ → ℤ
int_of_long (pos n) =
    if ltb (n % 2 ^ 32) (2 ^ 31) then pos (n % 2 ^ 32) else negsuc (2 ^ 32 - 1 - n % 2 ^ 32)
int_of_long (negsuc n) =
    if ltb (n % 2 ^ 32) (2 ^ 31) then negsuc (n % 2 ^ 32) else pos (2 ^ 32 - 1 - n % 2 ^ 32)

-- `addr_set_port`, with none for -1
pub addr_set_port : Addr → ℤ → Option Addr
addr_set_port addr (pos n) = if leb 65536 n then none else some (record addr { sin_port = n })
addr_set_port addr (negsuc n) = none

-- What `addr_parse` comes to: NULL, an address, or a write behind the end of its array `ip[64]`.
pub data Parsed : Type 0 where
  null overflow : Parsed
  parsed : Addr → Parsed

abbrev pub parsed_of : Option Addr → Parsed
parsed_of none = null
parsed_of (some addr) = parsed addr

module _ (I : Inet) where
  -- `addr_set_ip` of a string that is not NULL
  pub addr_set_ip : Addr → Bytes → Option Addr
  addr_set_ip addr ip = elim (I.inet_aton ip) [
    | none ↦ none
    | some a ↦ some (record addr { sin_addr = a })
  ]

  -- the end of `addr_parse`, from the call of `strtol`
  pub parse_port : Addr → Bytes → Parsed
  unfolding int_of_long addr_set_port
  parse_port addr s =
      let (value, q) = I.strtol s in
      if length q == length s || not (length q == 0)
      then null
      else parsed_of (addr_set_port addr (int_of_long value))

  unfoldable pub addr_parse : Bytes → Parsed
  unfolding split_at addr_set_ip parse_port
  addr_parse s = elim (split_at 58 s) [
    | none ↦ null
    | some (ip, port) ↦
        if leb 64 (length ip)
        then overflow
        else elim (addr_set_ip (record { sin_addr = 0; sin_port = 0 }) ip) [
          | none ↦ null
          | some addr ↦ parse_port addr port
        ]
  ]

  -- `addr_string` with a buffer of `len` bytes, of an address that is not NULL
  pub addr_string : Addr → ℕ → Bytes
  addr_string addr len = take (len - 1) (I.inet_ntoa addr.sin_addr ++ 58 ∷ I.decimal addr.sin_port)

  -- `addr_ip`
  unfoldable pub addr_ip : Addr → ℕ → Bytes
  addr_ip addr len = take (len - 1) (I.inet_ntoa addr.sin_addr)

  unfoldable pub addr_eq : Strings → Addr → Addr → Bool
  unfolding addr_ip
  addr_eq S addr1 addr2 =
      if not (addr1.sin_port == addr2.sin_port)
      then false
      else S.rstreq (addr_ip addr1 64) (addr_ip addr2 64)
