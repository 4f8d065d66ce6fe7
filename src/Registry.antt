-- ===== src/Registry.antt =====
-- librcom/src/registry.c: the entries of a registry, their types and the checks on their texts. A
-- `list_t` is the list of its data; `list_append`, `list_prepend` and `list_remove` are libr's. An
-- address in an entry is none where the C has NULL, and so is a result. An entry whose identifier is
-- not given has the one that `r_uuid` makes. Memory does not run out, and a call is atomic, as the
-- mutex of the registry makes it.
pub mod Types
pub mod Store
pub mod Select
pub mod Ids
pub mod Parse
pub mod Listing
pub mod Remote
pub mod Samples
mod Tests
use rcom.Rlib.{Lists, Strings}
use rcom.Base.{
  negsuc, pos, Bool, List, Option, none, some, false, true, [], ◌||◌, ◌&&◌, ◌+◌, ◌∷◌, ℤ,
  if◌then◌else◌, ◌==◌, Bytes, ℕ,
}
use rcom.Addr.{null, overflow, parsed, addr_parse, Parsed, addr_eq, Addr, Inet}

-- TYPE_NONE and TYPE_ANY are -2 and -1, the others from 0 on
pub data EntryType : Type 0 where
  type_none type_any : EntryType
  type_datalink type_datahub type_messagelink type_messagehub type_service type_streamer
        type_streamerlink :
      EntryType

pub record Entry : Type 0 where
  pub id : Bytes
  pub name : Bytes
  pub topic : Bytes
  pub kind : EntryType
  pub addr : Option Addr
  pub endpoint : Option ℕ

-- `type < 0`
abbrev pub is_negative : EntryType → Bool
is_negative type_none = true
is_negative type_any = true
is_negative _ = false

-- the number that the C has, plus 2
abbrev pub number : EntryType → ℕ
number type_none = 0
number type_any = 1
number type_datalink = 2
number type_datahub = 3
number type_messagelink = 4
number type_messagehub = 5
number type_service = 6
number type_streamer = 7
number type_streamerlink = 8

-- `type == TYPE_ANY || e->type == type`
abbrev pub type_matches : EntryType → EntryType → Bool
type_matches wanted kind = number wanted == 1 || number kind == number wanted

-- `new_registry_entry` with the identifier that it stores, and with a name and a topic that are not NULL
unfoldable pub new_registry_entry :
    Bytes → Bytes → Bytes → EntryType → Option Addr → Option ℕ → Option Entry
new_registry_entry id name topic kind none endpoint = none
new_registry_entry id name topic kind (some addr) endpoint =
    if is_negative kind
    then none
    else some (record {
      id = id;
      name = name;
      topic = topic;
      kind = kind;
      addr = some addr;
      endpoint = endpoint;
    })

-- the copy of an entry that `registry_get` and `registry_select` return
pub clone : Entry → Option Entry
unfolding new_registry_entry
clone e = new_registry_entry e.id e.name e.topic e.kind e.addr e.endpoint

-- the arguments of `registry_select` and `registry_count`, none for NULL
pub record Query : Type 0 where
  pub id : Option Bytes
  pub name : Option Bytes
  pub topic : Option Bytes
  pub kind : EntryType
  pub addr : Option Addr
  pub endpoint : Option ℕ

-- the arguments of `registry_select_all`
abbrev pub everything : Query
everything = record {
  id = none;
  name = none;
  topic = none;
  kind = type_any;
  addr = none;
  endpoint = none;
}

abbrev pub endpoint_matches : Option ℕ → Option ℕ → Bool
endpoint_matches none e = true
endpoint_matches (some p) none = false
endpoint_matches (some p) (some q) = p == q

module _ (I : Inet) (S : Strings) (L : Lists Entry) (R : Lists (Option Entry)) where
  abbrev pub text_matches : Option Bytes → Bytes → Bool
  text_matches none t = true
  text_matches (some s) t = S.rstreq t s

  -- `addr == NULL || addr_eq(e->addr, addr)`, and the rest of the test. None where `addr_eq` would read
  -- the address of an entry that has none.
  abbrev pub test_addr : Option Addr → Option Addr → Bool → Option Bool
  test_addr none addr rest = some rest
  test_addr (some a) none rest = none
  test_addr (some a) (some b) rest = some (addr_eq I S b a && rest)

  -- The test of `registry_select` and `registry_count`
  unfoldable pub matches : Query → Entry → Option Bool
  matches q e =
      if text_matches q.id e.id
        && type_matches q.kind e.kind
        && text_matches q.name e.name
        && text_matches q.topic e.topic
      then test_addr q.addr e.addr (endpoint_matches q.endpoint e.endpoint)
      else some false

  -- the loop of `registry_select`
  pub select_from : Query → List (Option Entry) → List Entry → Option (List (Option Entry))
  unfolding matches clone
  select_from q results [] = some results
  select_from q results (e ∷ es) = elim (matches q e) [
    | none ↦ none
    | some b ↦ select_from q (if b then R.list_prepend results (clone e) else results) es
  ]

  pub registry_select : Query → List Entry → Option (List (Option Entry))
  unfolding select_from
  registry_select q es = select_from q [] es

  pub registry_select_all : List Entry → Option (List (Option Entry))
  unfolding registry_select
  registry_select_all es = registry_select everything es

  -- the loop of `registry_count`
  unfoldable pub count_from : Query → ℕ → List Entry → Option ℕ
  unfolding matches
  count_from q n [] = some n
  count_from q n (e ∷ es) = elim (matches q e) [
    | none ↦ none
    | some b ↦ count_from q (if b then n + 1 else n) es
  ]

  unfoldable pub registry_count : Query → List Entry → Option ℕ
  unfolding count_from
  registry_count q es = count_from q 0 es

  pub registry_get : Bytes → List Entry → Option Entry
  unfolding clone
  registry_get id [] = none
  registry_get id (e ∷ es) =
      let rest = registry_get id es in if S.rstreq e.id id then clone e else rest

  pub registry_insert : Entry → List Entry → ℤ × List Entry
  unfolding clone
  registry_insert e es = elim (clone e) [
    | none ↦ (negsuc 0, es)
    | some entry ↦ (pos 0, L.list_append es entry)
  ]

  -- the place of the first entry with an identifier, counted from `i`
  abbrev pub place : Bytes → ℕ → List Entry → Option ℕ
  place id i [] = none
  place id i (e ∷ es) = let rest = place id (i + 1) es in if S.rstreq e.id id then some i else rest

  pub registry_delete : Bytes → List Entry → ℤ × List Entry
  registry_delete id es = elim (place id 0 es) [
    | none ↦ (negsuc 0, es)
    | some i ↦ (pos 0, L.list_remove es i)
  ]

  -- `addr_parse` of the new address, stored in the entry; none where it overflows its array
  abbrev pub readdress : Parsed → Entry → List Entry → Option (ℤ × List Entry)
  readdress null e es = some (negsuc 0, record e { addr = none } ∷ es)
  readdress overflow e es = none
  readdress (parsed a) e es = some (pos 0, record e { addr = some a } ∷ es)

  abbrev pub behind_entry : Entry → Option (ℤ × List Entry) → Option (ℤ × List Entry)
  behind_entry e none = none
  behind_entry e (some (err, es)) = some (err, e ∷ es)

  pub registry_update_addr : Bytes → Bytes → List Entry → Option (ℤ × List Entry)
  registry_update_addr id addr [] = some (pos 0, [])
  registry_update_addr id addr (e ∷ es) =
      let rest = registry_update_addr id addr es in
      if S.rstreq id e.id then readdress (addr_parse I addr) e es else behind_entry e rest
