-- ===== src/Rcregistry/Tests.antt =====
-- librcom/src/rcregistry.c: a central registry of one entry, and the theorems on it.
use rcom.Base.{refl, none, some, [], ◌≡◌, ◌∷◌, codes}
use rcom.Addr.{Addr, addr_parse, null}
use rcom.Rlib.{list_strings, list_lists}
use rcom.Addr.Instance.{one_inet}
use rcom.Registry.Samples.{sample}
use rcom.Rcregistry.{Message, Outcome, rcregistry_onmessage, failed}
use rcom.Rcregistry.Faults.{list_after_invalid_address, update_request, list_request}

uncoloned : addr_parse one_inet (186 ∷ []) ≡ null
unfolding addr_parse
uncoloned = refl

abbrev unregister_request : Message
unregister_request = record {
  request = some (codes "unregister");
  id = some sample.id;
  addr = none;
  entry = none;
}

listed_after_fault :
    (o : Outcome) × (rcregistry_onmessage one_inet list_strings list_lists list_lists
        (sample ∷ [])
        (some (update_request sample.id (186 ∷ [])))
      ≡ some o)
    × (o.reply ≡ some (failed (codes "update-address") (codes "Internal error")))
    × (rcregistry_onmessage one_inet list_strings list_lists list_lists o.entries
          (some list_request)
        ≡ none)
listed_after_fault =
    list_after_invalid_address one_inet list_strings list_lists list_lists (186 ∷ []) [] [] sample
      uncoloned tt
