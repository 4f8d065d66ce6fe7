-- ===== src/Registry/Parse.antt =====
-- librcom/src/registry.c: `registry_entry_parse` and `registry_entry_encode`. A JSON object is what
-- `json_object_getstr` returns for the five keys, none for NULL.
pub mod Accepted
use rcom.Registry.Types.{registry_str_to_type, str_to_type-type_to_str, registry_type_to_str}
use rcom.Registry.Ids.{registry_valid_topic, registry_valid_name, registry_valid_id}
use rcom.Addr.RoundTrip.{addr_parse-addr_string, IsValid}
use rcom.Registry.{
  new_registry_entry, is_negative, number, EntryType, Entry, type_none, type_any, type_datalink,
  type_datahub, type_messagelink, type_messagehub, type_service, type_streamer, type_streamerlink,
}
use rcom.Base.{
  pos, negsuc, arith, refl, Option, none, some, not, false, true, [], ◌≡◌, ◌∷◌, ℤ, if◌then◌else◌,
  ◌==◌, Bytes,
}
use rcom.Rlib.{Strings}
use rcom.Addr.{addr_parse, Parsed, addr_string, Addr, Inet, null, overflow, parsed}

pub record EntryObject : Type 0 where
  pub id : Option Bytes
  pub name : Option Bytes
  pub topic : Option Bytes
  pub kind : Option Bytes
  pub addr : Option Bytes

-- the texts that the checks have found not to be NULL
abbrev pub text_of : Option Bytes → Bytes
text_of none = []
text_of (some s) = s

module _ (I : Inet) (S : Strings) where
  -- the result of `new_registry_entry`, with its error
  abbrev pub made : Option Entry → Option (ℤ × Option Entry)
  made none = some (negsuc 5, none)
  made (some e) = some (pos 0, some e)

  -- from the call of `addr_parse` on
  abbrev pub with_addr : EntryObject → EntryType → Parsed → Option (ℤ × Option Entry)
  with_addr obj kind null = some (negsuc 3, none)
  with_addr obj kind overflow = none
  with_addr obj kind (parsed addr) = made (
      new_registry_entry (text_of obj.id) (text_of obj.name) (text_of obj.topic) kind (some addr)
        none)

  -- the tests on the address and the type
  abbrev pub with_type : EntryObject → EntryType → Option (ℤ × Option Entry)
  with_type obj kind = if number kind == 0 then some (negsuc 2, none) else elim obj.addr [
    | none ↦ some (negsuc 3, none)
    | some s ↦ with_addr obj kind (addr_parse I s)
  ]

  -- The error and the entry, none for NULL; none if `addr_parse` overflows its array.
  pub registry_entry_parse : EntryObject → Option (ℤ × Option Entry)
  registry_entry_parse obj =
      if not (registry_valid_id obj.id)
      then some (negsuc 4, none)
      else if not (registry_valid_name obj.name)
      then some (negsuc 0, none)
      else if not (registry_valid_topic obj.topic)
      then some (negsuc 1, none)
      else elim obj.kind [
        | none ↦ some (negsuc 2, none)
        | some s ↦ with_type obj (registry_str_to_type S s)
      ]

  -- `addr_string` of an address that may be NULL: "(null)"
  abbrev pub text_of_addr : Option Addr → Bytes
  text_of_addr none = 40 ∷ 110 ∷ 117 ∷ 108 ∷ 108 ∷ 41 ∷ []
  text_of_addr (some addr) = addr_string I addr 64

  pub registry_entry_encode : Entry → EntryObject
  registry_entry_encode e = record {
    id = some e.id;
    name = some e.name;
    topic = some e.topic;
    kind = some (registry_type_to_str e.kind);
    addr = some (text_of_addr e.addr);
  }

  number_positive : (kind : EntryType) → is_negative kind ≡ false → (number kind == 0) ≡ false
  number_positive type_none v = ground (arith, v)
  number_positive type_any v = refl
  number_positive type_datalink v = refl
  number_positive type_datahub v = refl
  number_positive type_messagelink v = refl
  number_positive type_messagehub v = refl
  number_positive type_service v = refl
  number_positive type_streamer v = refl
  number_positive type_streamerlink v = refl

  new_entry :
      (id name topic : Bytes) (kind : EntryType) (addr : Addr)
      → is_negative kind ≡ false
      → new_registry_entry id name topic kind (some addr) none
        ≡ some (record {
          id = id;
          name = name;
          topic = topic;
          kind = kind;
          addr = some addr;
          endpoint = none;
        })
  unfolding new_registry_entry
  new_entry id name topic kind addr v = rw (new_registry_entry, v) refl

  -- An entry whose identifier, name and topic pass the checks, with a valid address and a type, comes
  -- back from its JSON object, but for the endpoint, which that does not hold.
  pub entry_parse-entry_encode :
      (e : Entry) (addr : Addr)
      → registry_valid_id (some e.id) ≡ true
      → registry_valid_name (some e.name) ≡ true
      → registry_valid_topic (some e.topic) ≡ true
      → is_negative e.kind ≡ false
      → e.addr ≡ some addr
      → IsValid addr
      → registry_entry_parse (registry_entry_encode e)
        ≡ some (pos 0, some (record e { endpoint = none }))
  unfolding registry_entry_parse registry_entry_encode
  entry_parse-entry_encode e addr i n t k a v =
      rw
        (
          i,
          n,
          t,
          str_to_type-type_to_str S e.kind k,
          number_positive e.kind k,
          a,
          addr_parse-addr_string I addr v,
          new_entry e.id e.name e.topic e.kind addr k,
        )
        refl
