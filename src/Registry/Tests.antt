-- ===== src/Registry/Tests.antt =====
-- librcom/src/registry.c: a registry of two entries, and the theorems on it.
use rcom.Registry.Listing.RoundTrip.{parse_list-encode_list}
use rcom.Registry.Listing.{parse_list, encode_list}
use rcom.Registry.Samples.{sample-IsListable, sample}
use rcom.Registry.Ids.Shape.{registry_valid_id-fits, uuid_form, fits}
use rcom.Registry.Ids.{registry_valid_id, registry_valid_name, registry_valid_topic}
use rcom.Registry.Parse.{
  EntryObject, registry_entry_parse, registry_entry_encode, entry_parse-entry_encode,
}
use rcom.Registry.Select.{count-select, select_sound, size_of}
use rcom.Registry.Store.{
  insert_refused, update_addr_stores, get-insert, registry_delete_found, IsSound, IsAbsent,
}
use rcom.Registry.Types.{str_to_type-type_to_str, registry_type_to_str, registry_str_to_type}
use rcom.Addr.{Addr, null, parsed, addr_parse}
use rcom.Base.{
  List, Option, Bytes, ap, false, true, pos, negsuc, arith, refl, none, some, [], ◌≡◌, ◌∷◌,
}
use rcom.Rlib.{same_bytes, list_strings, list_lists}
use rcom.Addr.Instance.{one_inet}
use rcom.Registry.{
  registry_select_all, registry_select, registry_delete, matches, registry_insert, registry_count,
  registry_update_addr, Entry, Query, registry_get, type_service, type_datahub, type_any,
}

abbrev camera : Entry
camera = record {
  id = 1 ∷ [];
  name = 99 ∷ [];
  topic = 116 ∷ [];
  kind = type_service;
  addr = some (record { sin_addr = 127; sin_port = 80 });
  endpoint = none;
}

abbrev motor : Entry
motor = record {
  id = 2 ∷ [];
  name = 109 ∷ [];
  topic = 116 ∷ [];
  kind = type_datahub;
  addr = some (record { sin_addr = 127; sin_port = 81 });
  endpoint = none;
}

-- a query that only says the topic
abbrev by_topic : Query
by_topic = record {
  id = none;
  name = none;
  topic = some (116 ∷ []);
  kind = type_any;
  addr = none;
  endpoint = none;
}

camera-IsSound : IsSound camera
camera-IsSound = record { has_addr = refl; has_kind = refl }

motor-IsSound : IsSound motor
motor-IsSound = record { has_addr = refl; has_kind = refl }

motor-IsAbsent : IsAbsent (2 ∷ []) (camera ∷ [])
motor-IsAbsent =
    (λ e. let clash : true ≡ false = ap (same_bytes (1 ∷ [])) e in ground (arith, clash), tt)

count_run :
    registry_count one_inet list_strings list_lists list_lists by_topic (camera ∷ motor ∷ [])
    ≡ some 2
unfolding registry_count
count_run = refl

get-insert_example :
    let r = registry_insert one_inet list_strings list_lists list_lists motor (camera ∷ []) in
    (r.0 ≡ pos 0)
    × (registry_get one_inet list_strings list_lists list_lists (2 ∷ []) r.1 ≡ some motor)
    × (registry_delete one_inet list_strings list_lists list_lists (2 ∷ []) r.1
        ≡ (pos 0, camera ∷ []))
get-insert_example =
    get-insert one_inet list_strings list_lists list_lists (camera ∷ []) motor motor-IsSound
      motor-IsAbsent

insert_refused_example :
    registry_insert one_inet list_strings list_lists list_lists
      (record motor { addr = none })
      (camera ∷ [])
    ≡ (negsuc 0, camera ∷ [])
insert_refused_example =
    insert_refused one_inet list_strings list_lists list_lists (camera ∷ [])
      (record motor { addr = none }) refl

registry_delete_found_example :
    registry_delete one_inet list_strings list_lists list_lists
      (2 ∷ [])
      (camera ∷ motor ∷ camera ∷ [])
    ≡ (pos 0, camera ∷ camera ∷ [])
registry_delete_found_example =
    registry_delete_found one_inet list_strings list_lists list_lists (camera ∷ []) (camera ∷ [])
      motor motor-IsAbsent

ported :
    addr_parse one_inet (186 ∷ 58 ∷ 90 ∷ []) ≡ parsed (record { sin_addr = 127; sin_port = 90 })
unfolding addr_parse
ported = refl

uncoloned : addr_parse one_inet (186 ∷ []) ≡ null
unfolding addr_parse
uncoloned = refl

-- the new port of the motor is 90
update_addr_stores_example :
    registry_update_addr one_inet list_strings list_lists list_lists
      (2 ∷ [])
      (186 ∷ 58 ∷ 90 ∷ [])
      (camera ∷ motor ∷ [])
    ≡ some (
      pos 0,
      camera ∷ record motor { addr = some (record { sin_addr = 127; sin_port = 90 }) } ∷ [],
    )
update_addr_stores_example =
    update_addr_stores one_inet list_strings list_lists list_lists (186 ∷ 58 ∷ 90 ∷ [])
      (record { sin_addr = 127; sin_port = 90 }) (camera ∷ []) [] motor ported motor-IsAbsent

count-select_example :
    registry_count one_inet list_strings list_lists list_lists by_topic (camera ∷ motor ∷ [])
    ≡ size_of
        (registry_select one_inet list_strings list_lists list_lists by_topic (camera ∷ motor ∷ []))
count-select_example =
    count-select one_inet list_strings list_lists list_lists by_topic (camera ∷ motor ∷ [])

select_sound_example :
    registry_select one_inet list_strings list_lists list_lists by_topic (camera ∷ motor ∷ [])
    ≡ some (some motor ∷ some camera ∷ [])
unfolding matches
select_sound_example =
    select_sound one_inet list_strings list_lists list_lists by_topic (camera ∷ motor ∷ [])
      (camera-IsSound, (motor-IsSound, tt))

str_to_type-type_to_str_example :
    registry_str_to_type list_strings (registry_type_to_str type_service) ≡ type_service
str_to_type-type_to_str_example = str_to_type-type_to_str list_strings type_service refl

abbrev uuid_text : Bytes
uuid_text =
    49 ∷ 98 ∷ 52 ∷ 101 ∷ 50 ∷ 56 ∷ 98 ∷ 97 ∷ 45 ∷ 50 ∷ 102 ∷ 97 ∷ 49 ∷ 45 ∷ 49 ∷ 49 ∷ 100 ∷ 50 ∷ 45
    ∷ 56 ∷ 56 ∷ 51 ∷ 102 ∷ 45 ∷ 48 ∷ 48 ∷ 49 ∷ 54 ∷ 100 ∷ 51 ∷ 99 ∷ 99 ∷ 97 ∷ 52 ∷ 50 ∷ 55 ∷ []

abbrev loopback : Addr
loopback = record { sin_addr = 127; sin_port = 80 }

-- the camera under an identifier, a name and a topic that pass the checks
abbrev named_camera : Entry
named_camera = record camera {
  id = uuid_text;
  name = 99 ∷ 97 ∷ 109 ∷ 101 ∷ 114 ∷ 97 ∷ [];
  topic = 105 ∷ 109 ∷ 97 ∷ 103 ∷ 101 ∷ 115 ∷ [];
  endpoint = some 7;
}

uuid_text_valid : registry_valid_id (some uuid_text) ≡ true
uuid_text_valid = registry_valid_id-fits uuid_text

name_valid : registry_valid_name (some named_camera.name) ≡ true
unfolding registry_valid_name
name_valid = refl

topic_valid : registry_valid_topic (some named_camera.topic) ≡ true
unfolding registry_valid_topic
topic_valid = refl

registry_valid_id-fits_example : registry_valid_id (some uuid_text) ≡ fits uuid_form uuid_text
registry_valid_id-fits_example = registry_valid_id-fits uuid_text

entry_parse-entry_encode_example :
    registry_entry_parse one_inet list_strings
      (registry_entry_encode one_inet list_strings named_camera)
    ≡ some (pos 0, some (record named_camera { endpoint = none }))
entry_parse-entry_encode_example =
    entry_parse-entry_encode one_inet list_strings named_camera loopback uuid_text_valid name_valid
      topic_valid refl refl (record { addr_bound = omega arith; port_bound = omega arith })

parse_list-encode_list_example :
    (l : List (Option Entry)) × (a : List EntryObject) × (registry_select_all one_inet list_strings
        list_lists list_lists
        (sample ∷ [])
      ≡ some l)
    × (encode_list one_inet list_strings l ≡ some a)
    × (parse_list one_inet list_strings list_lists a ≡ some (sample ∷ []))
parse_list-encode_list_example =
    parse_list-encode_list one_inet list_strings list_lists list_lists (sample ∷ [])
      (sample-IsListable, tt)
