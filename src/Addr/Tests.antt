-- ===== src/Addr/Tests.antt =====
-- librcom/src/addr.c: the theorems at an address.
use rcom.Addr.Instance.{one_inet}
use rcom.Addr.RoundTrip.{addr_eq_iff, parse_port_wraps, addr_parse-addr_string, IsValid}
use rcom.Rlib.{list_strings}
use rcom.Base.{arith, refl, true, [], ◌↔◌, ◌≡◌, ◌∷◌, ◌++◌, replicate}
use rcom.Addr.{pos, parsed, addr_string, addr_eq, parse_port, null, overflow, Addr, addr_parse}

abbrev local_addr : Addr
local_addr = record { sin_addr = 127; sin_port = 8080 }

local_addr-IsValid : IsValid local_addr
local_addr-IsValid = record { addr_bound = omega arith; port_bound = omega arith }

addr_parse-addr_string_example :
    addr_parse one_inet (addr_string one_inet local_addr 64) ≡ parsed local_addr
addr_parse-addr_string_example = addr_parse-addr_string one_inet local_addr local_addr-IsValid

-- the port 4294967376
parse_port_wraps_example :
    parse_port one_inet local_addr (4294967376 ∷ []) ≡ parsed (record local_addr { sin_port = 80 })
parse_port_wraps_example =
    parse_port_wraps one_inet local_addr (4294967376 ∷ []) (pos 4294967376) refl (omega arith)

addr_eq_iff_example :
    (addr_eq one_inet list_strings local_addr local_addr ≡ true) ↔ (local_addr ≡ local_addr)
addr_eq_iff_example =
    addr_eq_iff one_inet list_strings local_addr local_addr local_addr-IsValid local_addr-IsValid

-- an address without a port
no_port_run : addr_parse one_inet (127 ∷ []) ≡ null
unfolding addr_parse
no_port_run = refl

-- 64 characters before the colon
overflow_run : addr_parse one_inet (replicate 64 48 ++ 58 ∷ 80 ∷ []) ≡ overflow
unfolding addr_parse
overflow_run = refl
