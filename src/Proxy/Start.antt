-- ===== src/Proxy/Start.antt =====
-- librcom/src/proxy.c and rcregistry.c: a proxy that starts, and the list of the central registry.
use rcom.Proxy.Listed.{
  all_contained, delete_vanished-none, insert_all-Apart, Present-all, all-IsRemote, empty_list,
  cons≢nil, connect_all-Kept, Apart,
}
use rcom.Registry.Remote.{AllListable-remote}
use rcom.Registry.Types.{distinct}
use rcom.Registry.Listing.{parse_list_from, parse_list}
use rcom.Rlib.{Lists, Strings}
use rcom.Base.{
  some-inj, refl, ap, sym, map, All, List, Option, none, some, true, [], ◌∷◌, ◌≡◌, ◌∙◌, codes, onto,
}
use rcom.Addr.{Inet}
use rcom.Registry.{Entry}
use rcom.Registry.Parse.{EntryObject}
use rcom.Registry.Store.{IsSound, AllSound}
use rcom.Registry.Listing.RoundTrip.{
  AllListable-AllSound, select_all_lem, parse_list-encode_list, AllListable, remote,
}
use rcom.Rcregistry.{answer, Outcome, rcregistry_onmessage, listed}
use rcom.Rcregistry.Faults.{send_list_lem, onmessage-list, list_request}
use rcom.Proxy.{Proxy, Outside, proxy_ready}
use rcom.Proxy.Events.{
  parsed_list, proxy_handle_update_list, proxy_onresponse, update_entries, proxy_onmessage, Message,
  list_contains, insert_all_missing,
}
use rcom.Proxy.Loops.{IsRemote}
use rcom.Proxy.Follow.{event_message}

-- what a proxy finds in the answer to its request for the list
abbrev pub list_message : List EntryObject → Message
list_message a = record (event_message []) {
  event = none;
  response = some (codes "list");
  success = true;
  list = some a;
}

module _ (I : Inet) (S : Strings) (L : Lists Entry) (R : Lists (Option Entry)) (W : Outside) where
  -- what the list leaves in a registry that is empty
  update_entries-start :
      (es : List Entry) (p : Proxy)
      → AllSound es
      → All IsRemote es
      → Apart I S L R [] es
      → p.entries ≡ []
      → (p' : Proxy) × (update_entries I S L R W es p ≡ some p')
        × (p'.entries ≡ es)
        × (p'.status ≡ proxy_ready)
  unfolding update_entries
  update_entries-start es p u v a q =
      let (p', r, s) =
        connect_all-Kept I S L R W IsSound (onto [] (map some es)) (record p { entries = es })
          (Present-all IsSound es u) u v in
      let filled : insert_all_missing I S L R es p.entries ≡ some es =
        rw q (insert_all-Apart I S L R [] es u a) in
      let kept = delete_vanished-none I S L R es es (onto [] (map some es)) (
        Present-all (λ e. list_contains I S L R es e ≡ some true) es
          (all_contained I S L R es u)) in
      (
        record p' { status = proxy_ready },
        rw
            (
              update_entries,
              filled,
              select_all_lem I S L R es u,
              kept,
              select_all_lem I S L R es u,
              r,
            )
            refl,
        s,
        refl,
      )

  heard_list :
      (a : List EntryObject) (p : Proxy)
      → proxy_onmessage I S L R W (some (list_message a)) p
        ≡ proxy_handle_update_list I S L R W (list_message a) p
  unfolding proxy_onmessage proxy_onresponse
  heard_list a p =
      let text = codes "list" in
      rw
        (
          distinct S text (codes "register") refl,
          distinct S text (codes "unregister") refl,
          distinct S text (codes "update-address") refl,
          S.rstreq_same text,
        )
        refl

  handle_list-start :
      (es : List Entry) (a : List EntryObject) (p : Proxy)
      → parse_list I S L a ≡ some es
      → (es ≡ [] → a ≡ [])
      → AllSound es
      → All IsRemote es
      → Apart I S L R [] es
      → p.entries ≡ []
      → (p' : Proxy) × (proxy_handle_update_list I S L R W (list_message a) p ≡ some p')
        × (p'.entries ≡ es)
        × (p'.status ≡ proxy_ready)
  unfolding proxy_handle_update_list parse_list parse_list_from
  handle_list-start [] [] p k c u v w q = (record p { status = proxy_ready }, refl, q, refl)
  handle_list-start [] (obj ∷ a) p k c u v w q = absurd (cons≢nil (c refl))
  handle_list-start (e ∷ es) [] p k c u v w q = absurd (cons≢nil (some-inj (sym k)))
  handle_list-start (e ∷ es) (obj ∷ a) p k c u v w q =
      let parsed_here = ap (λ r. parsed_list I S L R W r p) k in
      let (p', r, s, t) = update_entries-start (e ∷ es) p u v w q in (p', parsed_here ∙ r, s, t)

  -- Let the entries of the central registry pass the checks of `registry_entry_parse`, and let no two
  -- agree in name, topic, type and address. Then the registry answers the request for the list, and a
  -- proxy whose own registry is empty has after this answer the entries of the central one, without
  -- their endpoints, and is ready.
  pub start-Follows :
      (es : List Entry) (p : Proxy)
      → AllListable es
      → Apart I S L R [] (map remote es)
      → p.entries ≡ []
      → (o : Outcome) × (a : List EntryObject) × (p' : Proxy) × (rcregistry_onmessage I S L R es
            (some list_request)
          ≡ some o)
        × (o.reply ≡ some (listed a))
        × (proxy_onmessage I S L R W (some (list_message a)) p ≡ some p')
        × (p'.entries ≡ map remote o.entries)
        × (p'.status ≡ proxy_ready)
  start-Follows es p v w q =
      let (l, a, selected, encoded, parsed) = parse_list-encode_list I S L R es v in
      let empty : map remote es ≡ [] → a ≡ [] = λ n. empty_list I S L R es l a n selected encoded in
      let (p', r, s, t) =
        handle_list-start (map remote es) a p parsed empty
          (AllListable-AllSound (map remote es) (AllListable-remote es v)) (all-IsRemote es) w q in
      (
        answer es (listed a),
        a,
        p',
        onmessage-list I S L R es ∙ send_list_lem I S L R es l a selected encoded,
        refl,
        heard_list a p ∙ r,
        s,
        t,
      )
