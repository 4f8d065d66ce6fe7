-- ===== src/Datalink/Remote.antt =====
-- librcom/src/datalink.c: the address of the other end.
use rcom.Base.{arith, Option, none, some, true, inl, inr, refl, ap, ◌≡◌, Bool-cases}
use rcom.Addr.{Addr, Inet}
use rcom.Addr.RoundTrip.{IsValid, addr_eq_iff}
use rcom.Rlib.{Strings}
use rcom.Datalink.{Datalink, datalink_set_remote_addr, same_remote}

abbrev pub AddrValid : Option Addr → Type 0
AddrValid none = Unit
AddrValid (some a) = IsValid a

module _ (I : Inet) (S : Strings) where
  same_remote-true :
      (a b : Option Addr) → AddrValid a → AddrValid b → same_remote I S a b ≡ true → a ≡ b
  same_remote-true none none v w q = refl
  same_remote-true none (some b) v w q = absurd (ground (arith, q))
  same_remote-true (some a) none v w q = absurd (ground (arith, q))
  same_remote-true (some a) (some b) v w q = ap some ((addr_eq_iff I S a b v w).0 q)

  -- Of valid addresses, or NULL, the link always ends up with the one given, although it keeps its old
  -- one where `addr_eq` says that they are the same; the rest of the link stays.
  pub set_remote_addr_lem :
      (link : Datalink) (addr : Option Addr)
      → AddrValid link.remote_addr
      → AddrValid addr
      → datalink_set_remote_addr I S link addr ≡ record link { remote_addr = addr }
  unfolding datalink_set_remote_addr
  set_remote_addr_lem link addr v w = elim (Bool-cases (same_remote I S link.remote_addr addr)) [
    | inl u ↦
        rw u
          (ap (λ a. record link { remote_addr = a }) (same_remote-true link.remote_addr addr v w u))
    | inr u ↦ rw u refl
  ]
