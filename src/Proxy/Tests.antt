-- ===== src/Proxy/Tests.antt =====
-- librcom/src/proxy.c: a proxy in a network of one entry, and the theorems on it.
use rcom.Proxy.Events.{proxy_onmessage}
use rcom.Registry.Listing.RoundTrip.{remote}
use rcom.Base.{refl, false, none, some, pos, map, List, [], ◌≡◌, ◌⊎◌, ◌∷◌, codes}
use rcom.Rlib.{list_strings, list_lists}
use rcom.Addr.{Addr}
use rcom.Addr.Instance.{one_inet}
use rcom.Registry.{registry_count, type_service}
use rcom.Registry.Parse.{EntryObject, registry_entry_encode}
use rcom.Registry.Samples.{sample, sample_addr, sample-IsListable}
use rcom.Rcregistry.{Message, Outcome, rcregistry_onmessage, listed}
use rcom.Rcregistry.Faults.{list_request}
use rcom.Proxy.{Proxy, Outside, proxy_ready, proxy_initializing}
use rcom.Proxy.Start.{start-Follows, list_message}
use rcom.Proxy.Endpoints.{proxy_new_entry, proxy_delete_entry}
use rcom.Proxy.Endpoints.Life.{delete-new_entry}

abbrev network : Outside
network = record {
  app_standalone = false;
  returned = λ actions. pos 0;
  messagelink_addr = λ actions link. some sample_addr;
}

abbrev fresh : Proxy
fresh = record { entries = []; status = proxy_initializing; actions = [] }

abbrev register_request : Message
register_request = record {
  request = some (codes "register");
  id = none;
  addr = none;
  entry = some (registry_entry_encode one_inet list_strings sample);
}

start-Follows_example :
    (o : Outcome) × (a : List EntryObject) × (p' : Proxy) × (rcregistry_onmessage one_inet
        list_strings list_lists list_lists
        (sample ∷ [])
        (some list_request)
      ≡ some o)
    × (o.reply ≡ some (listed a))
    × (proxy_onmessage one_inet list_strings list_lists list_lists network
          (some (list_message a))
          fresh
        ≡ some p')
    × (p'.entries ≡ map remote o.entries)
    × (p'.status ≡ proxy_ready)
unfolding registry_count
start-Follows_example =
    start-Follows one_inet list_strings list_lists list_lists network (sample ∷ []) fresh
      (sample-IsListable, tt) (refl, tt) refl

delete-new_entry_example :
    let r =
      proxy_new_entry one_inet list_strings list_lists list_lists network
        (codes "7")
        (some (codes "motor"))
        (some (codes "moves"))
        type_service
        (some sample_addr)
        5
        fresh in
    (r.1.entries ≡ [])
    ⊎ ((p' : Proxy) × (proxy_delete_entry one_inet list_strings list_lists list_lists network
            type_service 5 r.1
          ≡ some p')
        × (p'.entries ≡ []))
delete-new_entry_example =
    delete-new_entry one_inet list_strings list_lists list_lists network (codes "7")
      (some (codes "motor")) (some (codes "moves")) type_service (some sample_addr) 5 fresh tt tt
      refl
