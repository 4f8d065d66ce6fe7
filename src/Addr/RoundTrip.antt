-- ===== src/Addr/RoundTrip.antt =====
-- librcom/src/addr.c: printing and parsing, and `addr_eq`.
use rcom.Rlib.{Strings}
use rcom.Base.{
  ◌-◌, ℤ, if◌then◌else◌, ltb, inr, inl, subst, ap₂, Bool-cases, ==_true, ==_iff, ◌==◌, arith, ap,
  sym, refl, true, [], ◌↔◌, ◌∙◌, ◌<◌, ◌^◌, ◌%◌, ◌≡◌, ◌∷◌, ◌++◌, take_all, length-append, length,
  some-inj, ==_false, lt→leb, lt→ltb, Bytes, ℕ,
}
use rcom.Addr.{
  negsuc, null, parsed_of, pos, addr_set_port, int_of_long, parsed, addr_string, addr_ip,
  parse_port, addr_eq, addr_set_ip, Addr, Inet, addr_parse,
}

-- the fields of an IPv4 address
pub record IsValid (addr : Addr) : Type 0 where
  pub addr_bound : addr.sin_addr < 2 ^ 32
  pub port_bound : addr.sin_port < 2 ^ 16

-- the residue of a long modulo 2 ^ 32
abbrev pub modulo : ℤ → ℕ
modulo (pos n) = n % 2 ^ 32
modulo (negsuc n) = 2 ^ 32 - 1 - n % 2 ^ 32

port_of_long :
    (addr : Addr) (v : ℤ)
    → parsed_of (addr_set_port addr (int_of_long v))
      ≡ (if ltb (modulo v) (2 ^ 16) then parsed (record addr { sin_port = modulo v }) else null)
unfolding int_of_long addr_set_port
port_of_long addr (pos n) = ground arith
port_of_long addr (negsuc n) = ground arith

module _ (I : Inet) where
  addr_string_whole :
      (addr : Addr)
      → IsValid addr
      → addr_string I addr 64 ≡ I.inet_ntoa addr.sin_addr ++ 58 ∷ I.decimal addr.sin_port
  unfolding addr_string
  addr_string_whole addr v =
      let text = I.inet_ntoa addr.sin_addr ++ 58 ∷ I.decimal addr.sin_port in
      let short = I.ntoa_short addr.sin_addr v.addr_bound in
      let digits = I.decimal_length addr.sin_port v.port_bound in
      let split = length-append (I.inet_ntoa addr.sin_addr) (58 ∷ I.decimal addr.sin_port) in
      take_all 63 text (omega (arith, short, digits.1, split))

  parse_port-decimal :
      (addr : Addr) (n : ℕ)
      → n < 2 ^ 16
      → parse_port I addr (I.decimal n) ≡ parsed (record addr { sin_port = n })
  unfolding parse_port int_of_long addr_set_port
  parse_port-decimal addr n l =
      let some_digit =
        ==_false 0 (length (I.decimal n)) (λ e. omega (arith, (I.decimal_length n l).0, e)) in
      let small : n % 2 ^ 32 ≡ n = omega arith in
      rw
        (
          I.strtol-decimal n (omega arith),
          some_digit,
          small,
          lt→ltb n (2 ^ 31) (omega arith),
          lt→leb 65536 n (omega arith),
        )
        refl

  -- `addr_parse` gives back the address that `addr_string` prints into 64 bytes.
  pub addr_parse-addr_string :
      (addr : Addr) → IsValid addr → addr_parse I (addr_string I addr 64) ≡ parsed addr
  unfolding addr_parse addr_set_ip
  addr_parse-addr_string addr v =
      let ip = I.inet_ntoa addr.sin_addr in
      let short = lt→leb 64 (length ip) (omega (arith, I.ntoa_short addr.sin_addr v.addr_bound)) in
      rw
        (
          addr_string_whole addr v,
          addr_parse,
          I.ntoa_plain addr.sin_addr (I.decimal addr.sin_port) v.addr_bound,
          short,
          addr_set_ip,
          I.aton-ntoa addr.sin_addr v.addr_bound,
        )
        (parse_port-decimal (record { sin_addr = addr.sin_addr; sin_port = 0 }) addr.sin_port
          v.port_bound)

  -- `parse_port` reads a port modulo 2 ^ 32: of a text that `strtol` takes as a whole, as any long,
  -- negative ones included, the port is this number modulo 2 ^ 32 if that is below 65536, and the text
  -- is refused otherwise. So 4294967376 and -4294967216 are taken for port 80.
  pub parse_port_wraps :
      (addr : Addr) (s : Bytes) (v : ℤ)
      → I.strtol s ≡ (v, [])
      → 0 < length s
      → parse_port I addr s
        ≡ (if ltb (modulo v) (2 ^ 16) then parsed (record addr { sin_port = modulo v }) else null)
  unfolding parse_port int_of_long addr_set_port
  parse_port_wraps addr s v e l =
      let some_digit = ==_false 0 (length s) (λ f. omega (arith, l, f)) in
      rw (e, some_digit) (port_of_long addr v)

  addr_ip_whole : (addr : Addr) → IsValid addr → addr_ip I addr 64 ≡ I.inet_ntoa addr.sin_addr
  unfolding addr_ip
  addr_ip_whole addr v =
      take_all 63 (I.inet_ntoa addr.sin_addr)
        (omega (arith, I.ntoa_short addr.sin_addr v.addr_bound))

  ntoa-inj : (a b : ℕ) → a < 2 ^ 32 → b < 2 ^ 32 → I.inet_ntoa a ≡ I.inet_ntoa b → a ≡ b
  ntoa-inj a b l h e = some-inj (sym (I.aton-ntoa a l) ∙ ap I.inet_aton e ∙ I.aton-ntoa b h)

  pub addr_eq_same : (S : Strings) (a : Addr) → addr_eq I S a a ≡ true
  unfolding addr_eq
  addr_eq_same S a = rw (==_true a.sin_port a.sin_port refl, S.rstreq_same (addr_ip I a 64)) refl

  addr_eq-true : (S : Strings) (a b : Addr) → IsValid a → IsValid b → addr_eq I S a b ≡ true → a ≡ b
  unfolding addr_eq
  addr_eq-true S a b v w e = elim (Bool-cases (a.sin_port == b.sin_port)) [
    | inl p ↦
        let ips =
          sym (addr_ip_whole a v)
          ∙ S.rstreq_true (addr_ip I a 64) (addr_ip I b 64) (rw p at e)
          ∙ addr_ip_whole b w in
        ap₂ (λ x y. record { sin_addr = x; sin_port = y })
          (ntoa-inj a.sin_addr b.sin_addr v.addr_bound w.addr_bound ips)
          ((==_iff a.sin_port b.sin_port).0 p)
    | inr p ↦ absurd (ground (arith, e, p))
  ]

  -- `addr_eq` holds of valid addresses just if they are the same.
  pub addr_eq_iff :
      (S : Strings) (a b : Addr) → IsValid a → IsValid b → (addr_eq I S a b ≡ true) ↔ (a ≡ b)
  addr_eq_iff S a b v w =
      (addr_eq-true S a b v w, λ e. subst (λ c. addr_eq I S a c ≡ true) e (addr_eq_same S a))
