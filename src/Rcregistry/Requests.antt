-- ===== src/Rcregistry/Requests.antt =====
-- librcom/src/rcregistry.c: the entries that a request leaves.
use rcom.Registry.Store.{registry_delete_found, registry_delete_absent, find_entry}
use rcom.Rlib.{Lists, Strings}
use rcom.Registry.Listing.RoundTrip.{IsListable, AllListable}
use rcom.Rcregistry.{Outcome}
use rcom.Addr.{Inet, Addr}
use rcom.Base.{pos, inr, inl, List, Option, some, [], ◌≡◌, ◌++◌, All-middle, Bytes}
use rcom.Registry.{registry_delete, Entry}

-- The call returns, and what it leaves.
abbrev pub OutcomeListable : Option Outcome → Type 0
OutcomeListable r = (o : Outcome) × (r ≡ some o) × AllListable o.entries

module _ (I : Inet) (S : Strings) (L : Lists Entry) (R : Lists (Option Entry)) where
  pub delete-AllListable :
      (id : Bytes) (es : List Entry)
      → AllListable es
      → AllListable (registry_delete I S L R id es).1
  delete-AllListable id es v = elim (find_entry I S L R id es) [
    | inl absent ↦ rw (registry_delete_absent I S L R id es absent) v
    | inr (xs, ys, e, q, r, absent) ↦
        let gone : registry_delete I S L R id es ≡ (pos 0, xs ++ ys) =
          rw (q, ← r) (registry_delete_found I S L R xs ys e (rw r absent)) in
        rw gone (All-middle IsListable xs ys [] e tt (rw q at v))
  ]
