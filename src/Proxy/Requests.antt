-- ===== src/Proxy/Requests.antt =====
-- librcom/src/proxy.c and rcregistry.c: the proxies of the other programs, while the central
-- registry answers a request.
use rcom.Rlib.{Lists, Strings}
use rcom.Base.{Option, some, ◌≡◌}
use rcom.Addr.{Inet, Addr}
use rcom.Registry.{Entry}
use rcom.Rcregistry.{Outcome}
use rcom.Proxy.{Proxy, Outside}
use rcom.Proxy.Follow.{Informed}

module _ (I : Inet) (S : Strings) (L : Lists Entry) (R : Lists (Option Entry)) (W : Outside) where
  -- The call returns, and the proxy keeps up.
  abbrev pub Answered : Proxy → Option Outcome → Type 0
  Answered p r = (o : Outcome) × (r ≡ some o) × Informed I S L R W p o
