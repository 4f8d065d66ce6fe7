-- ===== src/Addr/Validity.antt =====
-- librcom/src/addr.c: what `addr_parse` returns is an IPv4 address with a port.
use rcom.Base.{
  refl, ◌⊎◌, inr, inl, arith, subst, not, ◌||◌, ◌<◌, ◌^◌, ◌≡◌, ℤ, length, Option-cases, Bool-cases,
  leb→lt, ◌==◌, leb, Bytes,
}
use rcom.Addr.{
  overflow, null, Parsed, pos, int_of_long, split_at, negsuc, Addr, Inet, parsed, addr_parse,
  addr_set_port, addr_set_ip, parse_port, parsed_of,
}
use rcom.Addr.RoundTrip.{IsValid}

pub Parsed-cases : (p : Parsed) → (p ≡ null) ⊎ ((p ≡ overflow) ⊎ ((a : Addr) × (p ≡ parsed a)))
Parsed-cases null = inl refl
Parsed-cases overflow = inr (inl refl)
Parsed-cases (parsed a) = inr (inr (a, refl))

parsed-inj : (a b : Addr) → parsed a ≡ parsed b → a ≡ b
parsed-inj a b e = cc

set_port-IsValid :
    (addr a : Addr) (port : ℤ)
    → addr.sin_addr < 2 ^ 32
    → parsed_of (addr_set_port addr port) ≡ parsed a
    → IsValid a
unfolding addr_set_port
set_port-IsValid addr a (negsuc n) l e = absurd (ground (arith, e))
set_port-IsValid addr a (pos n) l e = elim (Bool-cases (leb 65536 n)) [
  | inl h ↦ absurd (ground (arith, e, h))
  | inr h ↦
      let same : record addr { sin_port = n } ≡ a =
        parsed-inj (record addr { sin_port = n }) a (rw h at e) in
      subst IsValid same (record { addr_bound = l; port_bound = leb→lt 65536 n h })
]

module _ (I : Inet) where
  parse_port-IsValid :
      (addr a : Addr) (s : Bytes)
      → addr.sin_addr < 2 ^ 32
      → parse_port I addr s ≡ parsed a
      → IsValid a
  unfolding parse_port
  parse_port-IsValid addr a s l e =
      elim (Bool-cases (length (I.strtol s).1 == length s || not (length (I.strtol s).1 == 0))) [
        | inl h ↦ absurd (ground (arith, e, h))
        | inr h ↦ set_port-IsValid addr a (int_of_long (I.strtol s).0) l (rw h at e)
      ]

  -- An address that `addr_parse` returns has a port below 65536.
  pub addr_parse-IsValid : (s : Bytes) (a : Addr) → addr_parse I s ≡ parsed a → IsValid a
  unfolding addr_parse addr_set_ip
  addr_parse-IsValid s a e = elim (Option-cases (split_at 58 s)) [
    | inl h ↦ absurd (ground (arith, e, h))
    | inr (parts, h) ↦ elim (Bool-cases (leb 64 (length parts.0))) [
      | inl long ↦ absurd (ground (arith, e, h, long))
      | inr short ↦ elim (Option-cases (I.inet_aton parts.0)) [
        | inl u ↦ absurd (ground (arith, e, h, short, u))
        | inr (ip, u) ↦
            parse_port-IsValid (record { sin_addr = ip; sin_port = 0 }) a parts.1
              (I.aton_bound parts.0 ip u) (rw (addr_parse, h, short, addr_set_ip, u) at e)
      ]
    ]
  ]
