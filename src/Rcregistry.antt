-- ===== src/Rcregistry.antt =====
-- librcom/src/rcregistry.c: the requests that the central registry answers. A message is what the
-- calls of libr's JSON parser find in it; an answer and a broadcast are the values that the formats
-- print. A call is none where the C reads an address or an entry that is NULL or writes past an array.
pub mod Requests
pub mod Faults
mod Tests
use rcom.Registry.Listing.{encode_list}
use rcom.Rlib.{Lists, Strings}
use rcom.Base.{
  negsuc, pos, Bool, List, Option, none, some, false, true, [], ◌∷◌, codes, ℤ, if◌then◌else◌, ◌==◌,
  Bytes, ℕ,
}
use rcom.Addr.{Inet}
use rcom.Registry.{
  registry_select_all, type_any, registry_select, Query, registry_delete, registry_update_addr,
  Entry, registry_insert,
}
use rcom.Registry.Parse.{registry_entry_encode, registry_entry_parse, EntryObject}

-- A request, if it is not null: `json_object_getstr` of the keys "request", "id" and "addr", and
-- `json_object_get` of "entry".
pub record Message : Type 0 where
  pub request : Option Bytes
  pub id : Option Bytes
  pub addr : Option Bytes
  pub entry : Option EntryObject

-- `rcregistry_fail`, `rcregistry_success`, and the object that `rcregistry_send_list` sends
pub data Reply : Type 0 where
  failed : Bytes → Bytes → Reply
  succeeded : Bytes → Reply
  listed : List EntryObject → Reply

-- The values that `messagehub_broadcast_f` is given to print into a text; Proxy.Follow has what a reader
-- of JSON finds in the text.
pub data Event : Type 0 where
  proxy_add : EntryObject → Event
  proxy_remove : Bytes → Event
  proxy_update_address : Bytes → Bytes → Event

-- What a request leaves: the entries, the reply to its sender, and the broadcast with whether the
-- sender is left out of it.
pub record Outcome : Type 0 where
  pub entries : List Entry
  pub reply : Option Reply
  pub event : Option (Event × Bool)

abbrev pub answer : List Entry → Reply → Outcome
answer es r = record { entries = es; reply = some r; event = none }

abbrev pub silent : List Entry → Outcome
silent es = record { entries = es; reply = none; event = none }

-- the `switch` on the error of `registry_entry_parse`
pub error_message : ℤ → Bytes
error_message (pos n) = codes "Unknown error"
error_message (negsuc n) =
    if n == 0
    then codes "Invalid name"
    else if n == 1
    then codes "Invalid topic"
    else if n == 2
    then codes "Invalid type"
    else if n == 3
    then codes "Invalid address"
    else if n == 4
    then codes "Invalid ID"
    else codes "Unknown error"

module _ (I : Inet) (S : Strings) (L : Lists Entry) (R : Lists (Option Entry)) where
  -- the result of `registry_insert`
  abbrev pub registered : Entry → ℤ × List Entry → Outcome
  registered entry (pos n, es) = record {
    entries = es;
    reply = some (succeeded (codes "register"));
    event = some (proxy_add (registry_entry_encode I S entry), false);
  }
  registered entry (negsuc n, es) = answer es (failed (codes "register") (codes "Internal error"))

  -- the result of `registry_entry_parse`
  abbrev pub register_parsed : List Entry → Option (ℤ × Option Entry) → Option Outcome
  register_parsed es none = none
  register_parsed es (some (err, none)) =
      some (answer es (failed (codes "register") (error_message err)))
  register_parsed es (some (err, some entry)) =
      some (registered entry (registry_insert I S L R (record entry { endpoint = none }) es))

  unfoldable pub rcregistry_register : List Entry → Message → Option Outcome
  rcregistry_register es m = elim m.entry [
    | none ↦ some (answer es (failed (codes "register") (codes "Invalid entry value")))
    | some obj ↦ register_parsed es (registry_entry_parse I S obj)
  ]

  -- the result of `registry_delete`
  abbrev pub unregistered : Bytes → ℤ × List Entry → Outcome
  unregistered id (pos n, es) = record {
    entries = es;
    reply = some (succeeded (codes "unregister"));
    event = some (proxy_remove id, false);
  }
  unregistered id (negsuc n, es) = answer es (failed (codes "unregister") (codes "Internal error"))

  unfoldable pub rcregistry_unregister : List Entry → Message → Outcome
  rcregistry_unregister es m = elim m.id [
    | none ↦ silent es
    | some id ↦ unregistered id (registry_delete I S L R id es)
  ]

  unfoldable pub rcregistry_send_list : List Entry → Option Outcome
  rcregistry_send_list es = elim (registry_select_all I S L R es) [
    | none ↦ none
    | some l ↦ elim (encode_list I S l) [ none ↦ none | some a ↦ some (answer es (listed a)) ]
  ]

  -- the result of `registry_update_addr`
  abbrev pub address_updated : Bytes → Bytes → Option (ℤ × List Entry) → Option Outcome
  address_updated id addr none = none
  address_updated id addr (some (pos n, es')) = some (record {
    entries = es';
    reply = some (succeeded (codes "update-address"));
    event = some (proxy_update_address id addr, true);
  })
  address_updated id addr (some (negsuc n, es')) =
      some (answer es' (failed (codes "update-address") (codes "Internal error")))

  unfoldable pub rcregistry_update_address : List Entry → Message → Option Outcome
  rcregistry_update_address es m = elim m.id [
    | none ↦ some (silent es)
    | some id ↦ elim m.addr [
      | none ↦ some (silent es)
      | some addr ↦ address_updated id addr (registry_update_addr I S L R id addr es)
    ]
  ]

  -- the requests by name
  unfoldable pub dispatch : List Entry → Bytes → Message → Option Outcome
  unfolding rcregistry_register rcregistry_unregister rcregistry_send_list rcregistry_update_address
  dispatch es request m =
      if S.rstreq request (codes "register")
      then rcregistry_register es m
      else if S.rstreq request (codes "unregister")
      then some (rcregistry_unregister es m)
      else if S.rstreq request (codes "list")
      then rcregistry_send_list es
      else if S.rstreq request (codes "update-address")
      then rcregistry_update_address es m
      else some (answer es (failed request (codes "Unknown request")))

  -- `rcregistry_onmessage`, with none for a message that is null
  unfoldable pub rcregistry_onmessage : List Entry → Option Message → Option Outcome
  unfolding dispatch
  rcregistry_onmessage es none =
      some (answer es (failed (codes "?") (codes "Failed to parse the request")))
  rcregistry_onmessage es (some m) = elim m.request [
    | none ↦ some (answer es (failed (codes "?") (codes "Invalid request")))
    | some request ↦ dispatch es request m
  ]
