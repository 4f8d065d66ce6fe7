-- ===== src/Registry/Samples.antt =====
-- librcom/src/registry.c: entries for the tests.
use rcom.Registry.Ids.Shape.{registry_valid_id-fits}
use rcom.Base.{refl, arith, true, none, some, ◌≡◌, codes}
use rcom.Addr.{Addr}
use rcom.Registry.{Entry, type_service}
use rcom.Registry.Ids.{registry_valid_id, registry_valid_name, registry_valid_topic}
use rcom.Registry.Listing.RoundTrip.{IsListable}

abbrev pub sample_addr : Addr
sample_addr = record { sin_addr = 127; sin_port = 80 }

abbrev pub sample : Entry
sample = record {
  id = codes "1b4e28ba-2fa1-11d2-883f-0016d3cca427";
  name = codes "camera";
  topic = codes "images";
  kind = type_service;
  addr = some sample_addr;
  endpoint = none;
}

sample_id : registry_valid_id (some sample.id) ≡ true
sample_id = registry_valid_id-fits sample.id

sample_name : registry_valid_name (some sample.name) ≡ true
unfolding registry_valid_name
sample_name = refl

sample_topic : registry_valid_topic (some sample.topic) ≡ true
unfolding registry_valid_topic
sample_topic = refl

pub sample-IsListable : IsListable sample
sample-IsListable = record {
  id_valid = sample_id;
  name_valid = sample_name;
  topic_valid = sample_topic;
  has_kind = refl;
  addr_valid = (sample_addr, refl, record { addr_bound = omega arith; port_bound = omega arith });
}
