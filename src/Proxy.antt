-- ===== src/Proxy.antt =====
-- librcom/src/proxy.c: the local copy of the registry that each program keeps, and the connections
-- that it makes for the entries. What the endpoints and the link to the central registry are told is a
-- list of actions, the latest first; what these calls return is a function of that list. A call is
-- none where the C reads an address or an entry that is NULL or writes past an array.
pub mod Events
pub mod Endpoints
pub mod Loops
pub mod Quiet
pub mod Follow
pub mod Requests
pub mod Listed
pub mod Start
mod Tests
use rcom.Rlib.{Lists, Strings}
use rcom.Base.{
  pos, negsuc, Bool, List, Option, none, some, false, true, [], ◌∷◌, ℤ, if◌then◌else◌, ◌==◌, Bytes,
  ℕ,
}
use rcom.Addr.{Inet, Addr}
use rcom.Registry.{
  Entry, EntryType, type_none, type_any, type_datalink, type_datahub, type_messagelink,
  type_messagehub, type_service, type_streamer, type_streamerlink, Query, registry_select,
  registry_update_addr,
}
use rcom.Registry.Parse.{EntryObject, registry_entry_encode, text_of_addr}

pub data Status : Type 0 where
  proxy_initializing proxy_ready proxy_error : Status

-- the formats given to `messagelink_send_f`
pub data Request : Type 0 where
  register : EntryObject → Request
  unregister : Bytes → Request
  update_address : Bytes → Bytes → Request
  list : Request

-- the calls on the endpoints, which are numbers here, and the others that leave the proxy
pub data Action : Type 0 where
  datalink_set_remote_addr : ℕ → Option Addr → Action
  datahub_add_link : ℕ → Option Addr → Action
  client_messagelink_connect : ℕ → Option Addr → Action
  streamerlink_set_remote : ℕ → Option Addr → Action
  messagelink_send : Request → Action
  app_set_quit : Action

-- `registry`, `status`, and what was done
pub record Proxy : Type 0 where
  pub entries : List Entry
  pub status : Status
  pub actions : List Action

-- `app_standalone`, what the latest call of the list returns, and `messagelink_addr` after it
pub record Outside : Type 0 where
  pub app_standalone : Bool
  pub returned : List Action → ℤ
  pub messagelink_addr : List Action → ℕ → Option Addr

abbrev pub is_success : ℤ → Bool
is_success (pos n) = n == 0
is_success (negsuc n) = false

abbrev pub perform : Action → Proxy → Proxy
perform a p = record p { actions = a ∷ p.actions }

-- the arguments of the calls of `registry_select` with a topic and a type
abbrev pub by_topic : Bytes → EntryType → Query
by_topic topic kind = record {
  id = none;
  name = none;
  topic = some topic;
  kind = kind;
  addr = none;
  endpoint = none;
}

-- a loop over a list of entries, for those that `proxy_is_local`
pub each_local : (Entry → ℕ → Proxy → Option Proxy) → List (Option Entry) → Proxy → Option Proxy
each_local step [] p = some p
each_local step (none ∷ l) p = none
each_local step (some e ∷ l) p = elim e.endpoint [
  | none ↦ each_local step l p
  | some link ↦ elim (step e link p) [ none ↦ none | some p' ↦ each_local step l p' ]
]

-- the same for the first entry only
pub first_local : (Entry → ℕ → Proxy → Option Proxy) → List (Option Entry) → Proxy → Option Proxy
first_local step [] p = some p
first_local step (none ∷ l) p = none
first_local step (some e ∷ l) p = elim e.endpoint [ none ↦ some p | some hub ↦ step e hub p ]

module _ (I : Inet) (S : Strings) (L : Lists Entry) (R : Lists (Option Entry)) (W : Outside) where
  -- `messagelink_send_f`, with the result
  abbrev pub send : Request → Proxy → ℤ × Proxy
  send r p =
      if W.app_standalone
      then (pos 0, p)
      else (W.returned (messagelink_send r ∷ p.actions), perform (messagelink_send r) p)

  unfoldable pub proxy_send_register_request : Entry → Proxy → ℤ × Proxy
  proxy_send_register_request e p = send (register (registry_entry_encode I S e)) p

  unfoldable pub proxy_send_unregister_request : Entry → Proxy → ℤ × Proxy
  proxy_send_unregister_request e p = send (unregister e.id) p

  unfoldable pub proxy_send_update_address_request : Bytes → Bytes → Proxy → ℤ × Proxy
  proxy_send_update_address_request id addr p = send (update_address id addr) p

  unfoldable pub proxy_send_list_request : Proxy → ℤ × Proxy
  proxy_send_list_request p = send list p

  -- the entries of a topic and a type, and what is done with them
  abbrev pub selecting :
      Bytes → EntryType → (List (Option Entry) → Proxy → Option Proxy) → Proxy → Option Proxy
  selecting topic kind f p = elim (registry_select I S L R (by_topic topic kind) p.entries) [
    | none ↦ none
    | some l ↦ f l p
  ]

  unfoldable pub proxy_connect_datahub : Entry → Proxy → Option Proxy
  unfolding each_local
  proxy_connect_datahub entry p =
      selecting entry.topic type_datalink
        (each_local (λ e link p'. some (perform (datalink_set_remote_addr link entry.addr) p'))) p

  unfoldable pub proxy_connect_datalink : Entry → Proxy → Option Proxy
  unfolding first_local
  proxy_connect_datalink entry p =
      selecting entry.topic type_datahub
        (first_local (λ e hub p'. some (perform (datahub_add_link hub entry.addr) p'))) p

  -- the new address of a link, in the registry and in a request
  pub readdress_link : Bytes → Bytes → Proxy → Option Proxy
  unfolding proxy_send_update_address_request
  readdress_link id b p = elim (registry_update_addr I S L R id b p.entries) [
    | none ↦ none
    | some (err, es) ↦ some (proxy_send_update_address_request id b (record p { entries = es })).1
  ]

  -- one turn of the loop of `proxy_connect_messagehub`
  pub connect_link : Entry → Entry → ℕ → Proxy → Option Proxy
  unfolding readdress_link
  connect_link entry e link p =
      let p' = perform (client_messagelink_connect link entry.addr) p in
      if is_success (W.returned p'.actions)
      then readdress_link e.id (text_of_addr I S (W.messagelink_addr p'.actions link)) p'
      else some p'

  unfoldable pub proxy_connect_messagehub : Entry → Proxy → Option Proxy
  unfolding each_local connect_link
  proxy_connect_messagehub entry p =
      selecting entry.topic type_messagelink (each_local (connect_link entry)) p

  unfoldable pub proxy_connect_streamer : Entry → Proxy → Option Proxy
  unfolding each_local
  proxy_connect_streamer entry p =
      selecting entry.topic type_streamerlink
        (each_local (λ e link p'. some (perform (streamerlink_set_remote link entry.addr) p'))) p

  unfoldable pub proxy_add_connection : Entry → Proxy → Option Proxy
  unfolding proxy_connect_datalink proxy_connect_datahub proxy_connect_messagehub
      proxy_connect_streamer
  proxy_add_connection entry p = elim entry.kind [
    | type_none ↦ some p
    | type_any ↦ some p
    | type_datalink ↦ proxy_connect_datalink entry p
    | type_datahub ↦ proxy_connect_datahub entry p
    | type_messagelink ↦ some p
    | type_messagehub ↦ proxy_connect_messagehub entry p
    | type_service ↦ some p
    | type_streamer ↦ proxy_connect_streamer entry p
    | type_streamerlink ↦ some p
  ]

  unfoldable pub proxy_remove_datahub : Entry → Proxy → Option Proxy
  unfolding each_local
  proxy_remove_datahub entry p =
      selecting entry.topic type_datalink
        (each_local (λ e link p'. some (perform (datalink_set_remote_addr link none) p'))) p

  -- the `switch`, whose other cases begin with a `break`
  unfoldable pub proxy_remove_connection : Entry → Proxy → Option Proxy
  unfolding proxy_remove_datahub
  proxy_remove_connection entry p = elim entry.kind [
    | type_none ↦ some p
    | type_any ↦ some p
    | type_datalink ↦ some p
    | type_datahub ↦ proxy_remove_datahub entry p
    | type_messagelink ↦ some p
    | type_messagehub ↦ some p
    | type_service ↦ some p
    | type_streamer ↦ some p
    | type_streamerlink ↦ some p
  ]
