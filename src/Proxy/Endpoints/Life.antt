-- ===== src/Proxy/Endpoints/Life.antt =====
-- librcom/src/proxy.c: an endpoint comes into the registry and leaves it.
use rcom.Registry.Parse.{text_of}
use rcom.Registry.Ids.{registry_valid_topic, registry_valid_name}
use rcom.Registry.Select.{asks_endpoint, select_sound, is_match, matching}
use rcom.Rlib.{Lists, Strings}
use rcom.Base.{
  ◌||◌, ◌==◌, subst, ap₂, All-append, ==_true, append-nil, ◌⊎◌, if_both, Bool-cases, inl, inr,
  arith, refl, ap, sym, List, Option, none, some, not, true, [], ◌∷◌, ◌++◌, ◌≡◌, ◌∙◌, ℤ, Bytes, ℕ,
}
use rcom.Addr.{Inet, Addr}
use rcom.Registry.{
  number, registry_delete, new_registry_entry, Entry, EntryType, Query, is_negative,
}
use rcom.Registry.Store.{registry_delete_found, inserted, IsSound, AllSound, IsAbsent}
use rcom.Proxy.{
  proxy_send_unregister_request, proxy_send_register_request, is_success, Proxy, Outside,
}
use rcom.Proxy.Endpoints.{by_endpoint, proxy_new_entry, proxy_delete_entry, requested, inserting}

module _ (I : Inet) (S : Strings) (L : Lists Entry) (R : Lists (Option Entry)) where
  matching-append :
      (q : Query) (es fs : List Entry)
      → matching I S L R q (es ++ fs) ≡ matching I S L R q es ++ matching I S L R q fs
  matching-append q [] fs = refl
  matching-append q (e ∷ es) fs = elim (Bool-cases (is_match I S L R q e)) [
    | inl u ↦ rw u (ap (λ l. some e ∷ l) (matching-append q es fs))
    | inr u ↦ rw u (matching-append q es fs)
  ]

  module _ (W : Outside) where
    -- the request leaves the entries as they are
    send-entries :
        (e : Entry) (p : Proxy) → (proxy_send_register_request I S L R W e p).1.entries ≡ p.entries
    unfolding proxy_send_register_request
    send-entries e p =
        if_both {A = ℤ × Proxy} (λ r. r.1.entries ≡ p.entries) W.app_standalone refl refl

    unregister-entries :
        (e : Entry) (p : Proxy)
        → (proxy_send_unregister_request I S L R W e p).1.entries ≡ p.entries
    unfolding proxy_send_unregister_request
    unregister-entries e p =
        if_both {A = ℤ × Proxy} (λ r. r.1.entries ≡ p.entries) W.app_standalone refl refl

    -- A new entry with the identifier, the type and the endpoint goes behind the others, or there is none
    -- and the entries are as they were.
    abbrev pub IsPlaced : Bytes → EntryType → ℕ → Proxy → Option Entry × Proxy → Type 0
    IsPlaced uuid kind endpoint p r =
        ((e : Entry) × (r.0 ≡ some e)
          × (r.1.entries ≡ p.entries ++ e ∷ [])
          × IsSound e
          × (e.id ≡ uuid)
          × (e.kind ≡ kind)
          × (e.endpoint ≡ some endpoint))
        ⊎ ((r.0 ≡ none) × (r.1.entries ≡ p.entries))

    requested-cases :
        (e : Entry) (endpoint : ℕ) (p : Proxy) (r : ℤ × Proxy)
        → r.1.entries ≡ p.entries ++ e ∷ []
        → IsAbsent e.id p.entries
        → IsSound e
        → e.endpoint ≡ some endpoint
        → IsPlaced e.id e.kind endpoint p (requested I S L R W e r)
    requested-cases e endpoint p (r, p') q v w n =
        if_both (IsPlaced e.id e.kind endpoint p) (is_success r)
          (inl (e, refl, q, w, refl, refl, n))
          (inr (
            refl,
            ap (λ es. (registry_delete I S L R e.id es).1) q
                ∙ ap (λ t. t.1) (registry_delete_found I S L R p.entries [] e v)
                ∙ append-nil p.entries,
          ))

    inserting-cases :
        (e : Entry) (endpoint : ℕ) (p : Proxy)
        → IsAbsent e.id p.entries
        → IsSound e
        → e.endpoint ≡ some endpoint
        → IsPlaced e.id e.kind endpoint p (inserting I S L R W (some e) p)
    inserting-cases e endpoint p v w n =
        let p' = record p { entries = p.entries ++ e ∷ [] } in
        rw (inserting, inserted I S L R p.entries e w)
          (requested-cases e endpoint p (proxy_send_register_request I S L R W e p')
            (send-entries e p') v w n)

    made-cases :
        (uuid name topic : Bytes) (kind : EntryType) (addr : Option Addr) (endpoint : ℕ) (p : Proxy)
        → IsAbsent uuid p.entries
        → IsPlaced uuid kind endpoint p
            (inserting I S L R W (new_registry_entry uuid name topic kind addr (some endpoint)) p)
    unfolding new_registry_entry
    made-cases uuid name topic kind none endpoint p v = inr (refl, refl)
    made-cases uuid name topic kind (some addr) endpoint p v =
        elim (Bool-cases (is_negative kind)) [
          | inl u ↦ rw u (inr (refl, refl))
          | inr u ↦
              let e : Entry = record {
                id = uuid;
                name = name;
                topic = topic;
                kind = kind;
                addr = some addr;
                endpoint = some endpoint;
              } in
              rw u (inserting-cases e endpoint p v (record { has_addr = refl; has_kind = u }) refl)
        ]

    -- Under an identifier that no entry has yet, `proxy_new_entry` puts the entry behind the others and
    -- returns it, or it returns NULL and the entries are as they were, also where the central registry
    -- cannot be asked.
    pub new_entry-IsPlaced :
        (uuid : Bytes) (name topic : Option Bytes) (kind : EntryType) (addr : Option Addr)
        (endpoint : ℕ) (p : Proxy)
        → IsAbsent uuid p.entries
        → IsPlaced uuid kind endpoint p
            (proxy_new_entry I S L R W uuid name topic kind addr endpoint p)
    unfolding proxy_new_entry
    new_entry-IsPlaced uuid name topic kind addr endpoint p v =
        if_both (IsPlaced uuid kind endpoint p) (not (registry_valid_name name)) (inr (refl, refl))
          (if_both (IsPlaced uuid kind endpoint p) (not (registry_valid_topic topic))
            (inr (refl, refl))
            (made-cases uuid (text_of name) (text_of topic) kind addr endpoint p v))

    own-matching :
        (e : Entry) (endpoint : ℕ)
        → e.endpoint ≡ some endpoint
        → matching I S L R (by_endpoint e.kind endpoint) (e ∷ []) ≡ some e ∷ []
    own-matching e endpoint n =
        let kind : (number e.kind == 1 || number e.kind == number e.kind) ≡ true =
          let same = ==_true (number e.kind) (number e.kind) refl in ground (arith, same) in
        let there : asks_endpoint I S L R (some endpoint) e.endpoint ≡ true =
          ap (asks_endpoint I S L R (some endpoint)) n ∙ ==_true endpoint endpoint refl in
        rw (is_match, kind, there) refl

    deleted :
        (e : Entry) (endpoint : ℕ) (p p' : Proxy)
        → AllSound p.entries
        → IsAbsent e.id p.entries
        → IsSound e
        → e.endpoint ≡ some endpoint
        → matching I S L R (by_endpoint e.kind endpoint) p.entries ≡ []
        → p'.entries ≡ p.entries ++ e ∷ []
        → (p'' : Proxy) × (proxy_delete_entry I S L R W e.kind endpoint p' ≡ some p'')
          × (p''.entries ≡ p.entries)
    unfolding proxy_delete_entry
    deleted e endpoint p p' v a w n m q =
        let query = by_endpoint e.kind endpoint in
        let sound : AllSound p'.entries =
          subst AllSound (sym q) (All-append IsSound p.entries (e ∷ []) v (w, tt)) in
        let found : matching I S L R query p'.entries ≡ some e ∷ [] =
          ap (matching I S L R query) q
          ∙ matching-append query p.entries (e ∷ [])
          ∙ ap₂ (λ xs ys. xs ++ ys) m (own-matching e endpoint n) in
        let gone : (registry_delete I S L R e.id p'.entries).1 ≡ p.entries =
          ap (λ es. (registry_delete I S L R e.id es).1) q
          ∙ ap (λ t. t.1) (registry_delete_found I S L R p.entries [] e a)
          ∙ append-nil p.entries in
        let p1 = record p' { entries = (registry_delete I S L R e.id p'.entries).1 } in
        (
          (proxy_send_unregister_request I S L R W e p1).1,
          rw (proxy_delete_entry, select_sound I S L R query p'.entries sound, found) refl,
          unregister-entries e p1 ∙ gone,
        )

    -- Where all entries have an address and a type and none has the identifier, or the type and the
    -- endpoint, of the new one: closing an endpoint that has been opened brings the entries back.
    pub delete-new_entry :
        (uuid : Bytes) (name topic : Option Bytes) (kind : EntryType) (addr : Option Addr)
        (endpoint : ℕ) (p : Proxy)
        → AllSound p.entries
        → IsAbsent uuid p.entries
        → matching I S L R (by_endpoint kind endpoint) p.entries ≡ []
        → let r = proxy_new_entry I S L R W uuid name topic kind addr endpoint p in
          (r.1.entries ≡ p.entries)
          ⊎ ((p' : Proxy) × (proxy_delete_entry I S L R W kind endpoint r.1 ≡ some p')
              × (p'.entries ≡ p.entries))
    delete-new_entry uuid name topic kind addr endpoint p v a m =
        elim (new_entry-IsPlaced uuid name topic kind addr endpoint p a) [
          | inr (q, same) ↦ inl same
          | inl (e, q, put, w, i, k, n) ↦
              let r = proxy_new_entry I S L R W uuid name topic kind addr endpoint p in
              let (p', d, same) = deleted e endpoint p r.1 v (rw i a) w n (rw k m) put in
              inr (p', ap (λ h. proxy_delete_entry I S L R W h endpoint r.1) (sym k) ∙ d, same)
        ]
