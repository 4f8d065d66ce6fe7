-- ===== src/Registry/Parse/Accepted.antt =====
-- librcom/src/registry.c: an entry that `registry_entry_parse` returns passes its checks.
use rcom.Addr.RoundTrip.{IsValid}
use rcom.Registry.Types.{registry_str_to_type}
use rcom.Registry.Ids.{registry_valid_topic, registry_valid_name, registry_valid_id}
use rcom.Rlib.{Strings}
use rcom.Registry.Parse.{with_addr, with_type, registry_entry_parse, text_of, EntryObject}
use rcom.Base.{
  inr, inl, arith, subst, refl, Bool, Option, none, some, false, true, ◌≡◌, ℤ, Option-cases,
  Bool-cases, ◌==◌, Bytes,
}
use rcom.Addr.{Parsed, addr_parse, Inet, Addr, null, overflow, parsed}
use rcom.Addr.Validity.{addr_parse-IsValid}
use rcom.Registry.{is_negative, number, new_registry_entry, EntryType, Entry}
use rcom.Registry.Listing.RoundTrip.{IsListable}

text_of-some :
    (o : Option Bytes) (f : Option Bytes → Bool)
    → f none ≡ false
    → f o ≡ true
    → f (some (text_of o)) ≡ true
text_of-some none f n v = absurd (ground (arith, n, v))
text_of-some (some s) f n v = v

-- the checks on the three texts
record IsChecked (obj : EntryObject) : Type 0 where
  id : registry_valid_id obj.id ≡ true
  name : registry_valid_name obj.name ≡ true
  topic : registry_valid_topic obj.topic ≡ true

module _ (I : Inet) (S : Strings) where
  with_addr-IsListable :
      (obj : EntryObject) (kind : EntryType) (err : ℤ) (e : Entry) (p : Parsed)
      → IsChecked obj
      → ((a : Addr) → p ≡ parsed a → IsValid a)
      → with_addr I S obj kind p ≡ some (err, some e)
      → IsListable e
  unfolding new_registry_entry registry_valid_id registry_valid_name registry_valid_topic
  with_addr-IsListable obj kind err e null c v q = absurd (ground (arith, q))
  with_addr-IsListable obj kind err e overflow c v q = absurd (ground (arith, q))
  with_addr-IsListable obj kind err e (parsed a) c v q = elim (Bool-cases (is_negative kind)) [
    | inl n ↦ absurd (ground (arith, q, n))
    | inr n ↦
        let made : record {
          id = text_of obj.id;
          name = text_of obj.name;
          topic = text_of obj.topic;
          kind = kind;
          addr = some a;
          endpoint = none;
        }
            ≡ e =
          ground (arith, rw n at q) in
        subst IsListable made (record {
          id_valid = text_of-some obj.id registry_valid_id refl c.id;
          name_valid = text_of-some obj.name registry_valid_name refl c.name;
          topic_valid = text_of-some obj.topic registry_valid_topic refl c.topic;
          has_kind = n;
          addr_valid = (a, refl, v a refl);
        })
  ]

  with_type-IsListable :
      (obj : EntryObject) (kind : EntryType) (err : ℤ) (e : Entry)
      → IsChecked obj
      → with_type I S obj kind ≡ some (err, some e)
      → IsListable e
  with_type-IsListable obj kind err e c q = elim (Bool-cases (number kind == 0)) [
    | inl n ↦ absurd (ground (arith, q, n))
    | inr n ↦ elim (Option-cases obj.addr) [
      | inl o ↦ absurd (ground (arith, q, n, o))
      | inr (s, o) ↦
          with_addr-IsListable obj kind err e (addr_parse I s) c
            (λ a same. addr_parse-IsValid I s a same) (rw (n, o) at q)
    ]
  ]

  -- Whatever object it is given, an entry that `registry_entry_parse` returns has an identifier, a name
  -- and a topic that pass the checks, a type and an address with a valid port.
  pub entry_parse-IsListable :
      (obj : EntryObject) (err : ℤ) (e : Entry)
      → registry_entry_parse I S obj ≡ some (err, some e)
      → IsListable e
  unfolding registry_entry_parse
  entry_parse-IsListable obj err e q = elim (Bool-cases (registry_valid_id obj.id)) [
    | inr i ↦ absurd (ground (arith, q, i))
    | inl i ↦ elim (Bool-cases (registry_valid_name obj.name)) [
      | inr n ↦ absurd (ground (arith, q, i, n))
      | inl n ↦ elim (Bool-cases (registry_valid_topic obj.topic)) [
        | inr t ↦ absurd (ground (arith, q, i, n, t))
        | inl t ↦ elim (Option-cases obj.kind) [
          | inl k ↦ absurd (ground (arith, q, i, n, t, k))
          | inr (s, k) ↦
              with_type-IsListable obj (registry_str_to_type S s) err e
                (record { id = i; name = n; topic = t }) (rw (i, n, t, k) at q)
        ]
      ]
    ]
  ]
