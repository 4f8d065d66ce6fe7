-- ===== src/Proxy/Endpoints.antt =====
-- librcom/src/proxy.c: the endpoints that a program opens, looks up and closes. The result of
-- `new_datalink` and its likes is an argument: none, or the endpoint and its address. `uuid` is what
-- `r_uuid` makes.
pub mod Life
use rcom.Registry.Parse.{text_of}
use rcom.Registry.Ids.{registry_valid_topic, registry_valid_name}
use rcom.Rlib.{Lists, Strings}
use rcom.Base.{List, Option, none, some, not, [], ◌∷◌, ℤ, if◌then◌else◌, Bytes, ℕ}
use rcom.Addr.{Inet, Addr}
use rcom.Registry.{
  new_registry_entry, registry_select, registry_insert, registry_delete, Entry, EntryType, Query,
  type_datalink, type_datahub, type_messagelink, type_messagehub, type_service, type_streamer,
  type_streamerlink,
}
use rcom.Proxy.{
  proxy_send_register_request, proxy_send_unregister_request, by_topic, selecting, is_success,
  perform, Proxy, Outside, Action, datalink_set_remote_addr, datahub_add_link,
  client_messagelink_connect, streamerlink_set_remote,
}

-- the arguments of the call of `registry_select` in `proxy_delete_entry`
abbrev pub by_endpoint : EntryType → ℕ → Query
by_endpoint kind endpoint = record {
  id = none;
  name = none;
  topic = none;
  kind = kind;
  addr = none;
  endpoint = some endpoint;
}

module _ (I : Inet) (S : Strings) (L : Lists Entry) (R : Lists (Option Entry)) (W : Outside) where
  -- the result of `proxy_send_register_request`
  abbrev pub requested : Entry → ℤ × Proxy → Option Entry × Proxy
  requested e (r, p) =
      if is_success r
      then (some e, p)
      else (none, record p { entries = (registry_delete I S L R e.id p.entries).1 })

  -- the result of `new_registry_entry`
  abbrev pub inserting : Option Entry → Proxy → Option Entry × Proxy
  inserting none p = (none, p)
  inserting (some e) p =
      let (r, es) = registry_insert I S L R e p.entries in
      let p' = record p { entries = es } in
      if is_success r then requested e (proxy_send_register_request I S L R W e p') else (none, p')

  pub proxy_new_entry :
      Bytes
      → Option Bytes
      → Option Bytes
      → EntryType
      → Option Addr
      → ℕ
      → Proxy
      → Option Entry × Proxy
  proxy_new_entry uuid name topic kind addr endpoint p =
      if not (registry_valid_name name)
      then (none, p)
      else if not (registry_valid_topic topic)
      then (none, p)
      else inserting
          (new_registry_entry uuid (text_of name) (text_of topic) kind addr (some endpoint)) p

  -- the result of `registry_select`
  abbrev pub delete_first : List (Option Entry) → Proxy → Option Proxy
  delete_first [] p = some p
  delete_first (none ∷ l) p = none
  delete_first (some e ∷ l) p =
      let p' = record p { entries = (registry_delete I S L R e.id p.entries).1 } in
      some (proxy_send_unregister_request I S L R W e p').1

  pub proxy_delete_entry : EntryType → ℕ → Proxy → Option Proxy
  proxy_delete_entry kind endpoint p =
      elim (registry_select I S L R (by_endpoint kind endpoint) p.entries) [
        | none ↦ none
        | some l ↦ delete_first l p
      ]

  -- an action for the first entry of the list, with its address
  abbrev pub with_first : (Option Addr → Action) → List (Option Entry) → Proxy → Option Proxy
  with_first f [] p = some p
  with_first f (none ∷ l) p = none
  with_first f (some e ∷ l) p = some (perform (f e.addr) p)

  -- `datahub_add_link` for each entry of the list
  pub add_links : ℕ → List (Option Entry) → Proxy → Option Proxy
  add_links hub [] p = some p
  add_links hub (none ∷ l) p = none
  add_links hub (some e ∷ l) p = add_links hub l (perform (datahub_add_link hub e.addr) p)

  -- What an open call leaves: the endpoint, none for NULL, and the proxy. `f` is what is done with the
  -- entries of `wanted` under the topic.
  abbrev pub open_with :
      EntryType
      → (List (Option Entry) → Proxy → Option Proxy)
      → ℕ
      → Option Entry × Proxy
      → Option (Option ℕ × Proxy)
  open_with wanted f link (none, p) = some (none, p)
  open_with wanted f link (some entry, p) = elim (selecting I S L R W entry.topic wanted f p) [
    | none ↦ none
    | some p' ↦ some (some link, p')
  ]

  abbrev pub opened : ℕ → Option Entry × Proxy → Option ℕ × Proxy
  opened endpoint (none, p) = (none, p)
  opened endpoint (some entry, p) = (some endpoint, p)

  module _ (uuid : Bytes) (name topic : Option Bytes) where
    pub proxy_open_datalink : Option (ℕ × Option Addr) → Proxy → Option (Option ℕ × Proxy)
    unfolding proxy_new_entry
    proxy_open_datalink none p = some (none, p)
    proxy_open_datalink (some (link, addr)) p =
        open_with type_datahub (with_first (datalink_set_remote_addr link)) link
          (proxy_new_entry uuid name topic type_datalink addr link p)

    pub proxy_open_datahub : Option (ℕ × Option Addr) → Proxy → Option (Option ℕ × Proxy)
    unfolding proxy_new_entry add_links
    proxy_open_datahub none p = some (none, p)
    proxy_open_datahub (some (hub, addr)) p =
        open_with type_datalink (add_links hub) hub
          (proxy_new_entry uuid name topic type_datahub addr hub p)

    pub proxy_open_messagelink : Option (ℕ × Option Addr) → Proxy → Option (Option ℕ × Proxy)
    unfolding proxy_new_entry
    proxy_open_messagelink none p = some (none, p)
    proxy_open_messagelink (some (link, addr)) p =
        open_with type_messagehub (with_first (client_messagelink_connect link)) link
          (proxy_new_entry uuid name topic type_messagelink addr link p)

    pub proxy_open_streamerlink : Option (ℕ × Option Addr) → Proxy → Option (Option ℕ × Proxy)
    unfolding proxy_new_entry
    proxy_open_streamerlink none p = some (none, p)
    proxy_open_streamerlink (some (link, addr)) p =
        open_with type_streamer (with_first (streamerlink_set_remote link)) link
          (proxy_new_entry uuid name topic type_streamerlink addr link p)

    pub proxy_open_messagehub : Option (ℕ × Option Addr) → Proxy → Option ℕ × Proxy
    unfolding proxy_new_entry
    proxy_open_messagehub none p = (none, p)
    proxy_open_messagehub (some (hub, addr)) p =
        opened hub (proxy_new_entry uuid name topic type_messagehub addr hub p)

    pub proxy_open_service : Option (ℕ × Option Addr) → Proxy → Option ℕ × Proxy
    unfolding proxy_new_entry
    proxy_open_service none p = (none, p)
    proxy_open_service (some (service, addr)) p =
        opened service (proxy_new_entry uuid name topic type_service addr service p)

    pub proxy_open_streamer : Option (ℕ × Option Addr) → Proxy → Option ℕ × Proxy
    unfolding proxy_new_entry
    proxy_open_streamer none p = (none, p)
    proxy_open_streamer (some (streamer, addr)) p =
        opened streamer (proxy_new_entry uuid name topic type_streamer addr streamer p)

  -- the address of the first entry of the list, the outer none where it is NULL
  abbrev pub first_addr : List (Option Entry) → Option (Option Addr)
  first_addr [] = some none
  first_addr (none ∷ l) = none
  first_addr (some e ∷ l) = some e.addr

  abbrev pub get_addr : EntryType → Bytes → Proxy → Option (Option Addr)
  get_addr kind topic p = elim (registry_select I S L R (by_topic topic kind) p.entries) [
    | none ↦ none
    | some l ↦ first_addr l
  ]

  pub proxy_get_messagehub : Bytes → Proxy → Option (Option Addr)
  proxy_get_messagehub topic p = get_addr type_messagehub topic p

  pub proxy_get_service : Bytes → Proxy → Option (Option Addr)
  proxy_get_service topic p = get_addr type_service topic p

  pub proxy_get_streamer : Bytes → Proxy → Option (Option Addr)
  proxy_get_streamer topic p = get_addr type_streamer topic p
