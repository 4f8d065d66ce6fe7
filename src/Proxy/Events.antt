-- ===== src/Proxy/Events.antt =====
-- librcom/src/proxy.c: what the proxy does with the messages of the central registry. A message is
-- what the calls of libr's JSON parser find in it.
use rcom.Registry.Listing.{parse_list}
use rcom.Rlib.{Lists, Strings}
use rcom.Base.{
  pos, Bool, List, Option, none, some, false, true, [], ◌∷◌, ◌&&◌, ℤ, if◌then◌else◌, ◌==◌, Bytes,
  codes,
}
use rcom.Addr.{addr_eq, Inet, Addr}
use rcom.Registry.{
  registry_insert, registry_delete, registry_update_addr, registry_count, number, registry_get,
  registry_select_all, Entry, Query,
}
use rcom.Registry.Parse.{registry_entry_parse, EntryObject}
use rcom.Proxy.{
  proxy_remove_connection, proxy_add_connection, is_success, perform, Proxy, Outside, proxy_ready,
  proxy_error, app_set_quit,
}

-- "response", "event", "success", "entry", "id", "addr", and "list" if it is an array
pub record Message : Type 0 where
  pub response : Option Bytes
  pub event : Option Bytes
  pub success : Bool
  pub entry : Option EntryObject
  pub id : Option Bytes
  pub addr : Option Bytes
  pub list : Option (List EntryObject)

-- the arguments of the calls of `registry_count`
abbrev pub like : Entry → Query
like e = record {
  id = none;
  name = some e.name;
  topic = some e.topic;
  kind = e.kind;
  addr = e.addr;
  endpoint = none;
}

module _ (I : Inet) (S : Strings) (L : Lists Entry) (R : Lists (Option Entry)) where
  -- `addr_eq`, none where it reads a NULL address
  abbrev pub same_addr : Option Addr → Option Addr → Option Bool
  same_addr none b = none
  same_addr (some a) none = none
  same_addr (some a) (some b) = some (addr_eq I S a b)

  -- `_entry_equals`
  unfoldable pub entry_equals : Entry → Entry → Option Bool
  entry_equals entry e =
      if number e.kind == number entry.kind
        && S.rstreq e.name entry.name
        && S.rstreq e.topic entry.topic
      then same_addr e.addr entry.addr
      else some false

  -- `_list_contains`, as whether it finds an entry
  unfoldable pub list_contains : List Entry → Entry → Option Bool
  unfolding entry_equals
  list_contains [] e = some false
  list_contains (f ∷ l) e =
      let rest = list_contains l e in
      elim (entry_equals e f) [ none ↦ none | some b ↦ if b then some true else rest ]

  -- `registry_insert_entry` if `registry_count` finds no such entry, with the error
  unfoldable pub insert_missing : Entry → List Entry → Option (ℤ × List Entry)
  insert_missing e es = elim (registry_count I S L R (like e) es) [
    | none ↦ none
    | some n ↦ some (if n == 0 then registry_insert I S L R e es else (pos 0, es))
  ]

  -- the loop "add the missing endpoints"
  unfoldable pub insert_all_missing : List Entry → List Entry → Option (List Entry)
  unfolding insert_missing
  insert_all_missing [] es = some es
  insert_all_missing (e ∷ l) es = elim (insert_missing e es) [
    | none ↦ none
    | some (err, es') ↦ insert_all_missing l es'
  ]

  -- the loop "remove the endpoints that have vanished"
  unfoldable pub delete_vanished :
      List Entry → List (Option Entry) → List Entry → Option (List Entry)
  unfolding list_contains
  delete_vanished listed [] es = some es
  delete_vanished listed (none ∷ l) es = none
  delete_vanished listed (some e ∷ l) es = elim (list_contains listed e) [
    | none ↦ none
    | some b ↦
        let deleted = (registry_delete I S L R e.id es).1 in
        delete_vanished listed l
          (if b then es else elim e.endpoint [ none ↦ deleted | some link ↦ es ])
  ]

  module _ (W : Outside) where
    -- the loop that connects
    unfoldable pub connect_all : List (Option Entry) → Proxy → Option Proxy
    connect_all [] p = some p
    connect_all (none ∷ l) p = none
    connect_all (some e ∷ l) p = elim (proxy_add_connection I S L R W e p) [
      | none ↦ none
      | some p' ↦ connect_all l p'
    ]

    -- from the call of `mutex_lock` in `proxy_handle_update_list` on
    unfoldable pub update_entries : List Entry → Proxy → Option Proxy
    unfolding insert_all_missing delete_vanished connect_all
    update_entries listed p = elim (insert_all_missing listed p.entries) [
      | none ↦ none
      | some es ↦ elim (registry_select_all I S L R es) [
        | none ↦ none
        | some local ↦ elim (delete_vanished listed local es) [
          | none ↦ none
          | some es' ↦ elim (registry_select_all I S L R es') [
            | none ↦ none
            | some l ↦ elim (connect_all l (record p { entries = es' })) [
              | none ↦ none
              | some p' ↦ some (record p' { status = proxy_ready })
            ]
          ]
        ]
      ]
    ]

    abbrev pub parsed_list : Option (List Entry) → Proxy → Option Proxy
    parsed_list none p = none
    parsed_list (some []) p = some (record p { status = proxy_error })
    parsed_list (some (e ∷ l)) p = update_entries (e ∷ l) p

    unfoldable pub proxy_handle_update_list : Message → Proxy → Option Proxy
    unfolding update_entries
    proxy_handle_update_list m p = elim m.list [
      | none ↦ some (record p { status = proxy_error })
      | some [] ↦ some (record p { status = proxy_ready })
      | some (obj ∷ a) ↦ parsed_list (parse_list I S L (obj ∷ a)) p
    ]

    -- the result of `registry_insert_entry`, or 0
    abbrev pub added : Entry → Proxy → Option (ℤ × List Entry) → Option Proxy
    added e p none = none
    added e p (some (err, es)) =
        if is_success err
        then proxy_add_connection I S L R W e (record p { entries = es })
        else some (record p { entries = es })

    -- the result of `registry_entry_parse`
    abbrev pub parsed_entry : Proxy → Option (ℤ × Option Entry) → Option Proxy
    parsed_entry p none = none
    parsed_entry p (some (err, none)) = some p
    parsed_entry p (some (err, some e)) = added e p (insert_missing e p.entries)

    unfoldable pub proxy_handle_register_add : Message → Proxy → Option Proxy
    proxy_handle_register_add m p = elim m.entry [
      | none ↦ some p
      | some obj ↦ parsed_entry p (registry_entry_parse I S obj)
    ]

    unfoldable pub proxy_handle_register_remove : Message → Proxy → Option Proxy
    proxy_handle_register_remove m p = elim m.id [
      | none ↦ some p
      | some id ↦ elim (registry_get I S L R id p.entries) [
        | none ↦ some p
        | some e ↦
            proxy_remove_connection I S L R W e
              (record p { entries = (registry_delete I S L R id p.entries).1 })
      ]
    ]

    unfoldable pub proxy_handle_update_address : Message → Proxy → Option Proxy
    proxy_handle_update_address m p = elim m.id [
      | none ↦ some p
      | some id ↦ elim m.addr [
        | none ↦ some p
        | some addr ↦ elim (registry_update_addr I S L R id addr p.entries) [
          | none ↦ none
          | some (err, es) ↦ some (record p { entries = es })
        ]
      ]
    ]

    unfoldable pub proxy_onevent : Bytes → Message → Proxy → Option Proxy
    unfolding proxy_handle_register_add proxy_handle_register_remove proxy_handle_update_address
    proxy_onevent event m p =
        if S.rstreq event (codes "proxy-add")
        then proxy_handle_register_add m p
        else if S.rstreq event (codes "proxy-remove")
        then proxy_handle_register_remove m p
        else if S.rstreq event (codes "proxy-update-address")
        then proxy_handle_update_address m p
        else some p

    unfoldable pub proxy_onresponse : Bytes → Message → Proxy → Option Proxy
    unfolding proxy_handle_update_list
    proxy_onresponse response m p =
        if S.rstreq response (codes "register")
        then some (if m.success then p else perform app_set_quit p)
        else if S.rstreq response (codes "unregister")
        then some p
        else if S.rstreq response (codes "update-address")
        then some p
        else if S.rstreq response (codes "list")
        then proxy_handle_update_list m p
        else some p

    -- `proxy_onmessage`, with none for a message that is null
    unfoldable pub proxy_onmessage : Option Message → Proxy → Option Proxy
    unfolding proxy_onevent proxy_onresponse
    proxy_onmessage none p = some p
    proxy_onmessage (some m) p = elim m.response [
      | some response ↦ proxy_onresponse response m p
      | none ↦ elim m.event [ none ↦ some p | some event ↦ proxy_onevent event m p ]
    ]
