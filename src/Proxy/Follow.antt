-- ===== src/Proxy/Follow.antt =====
-- librcom/src/proxy.c and rcregistry.c: a proxy and the central registry, event by event.
use rcom.Rcregistry.Requests.{delete-AllListable}
use rcom.Proxy.Quiet.{insert_missing-new, remove_connection-Kept, add_connection-Kept}
use rcom.Registry.Store.{
  registry_delete_found, clone_sound, get-found, IsAbsent, registry_delete_absent, find_entry,
  IsSound,
}
use rcom.Registry.Types.{distinct}
use rcom.Registry.Parse.{registry_entry_encode, EntryObject}
use rcom.Registry.Remote.{
  map-append, delete_agrees, update_addr_agrees, AllListable-remote, remote-AllListable,
}
use rcom.Rlib.{Lists, Strings}
use rcom.Util.Escape.{read_string, IsPlain, read_plain}
use rcom.Base.{
  All-get, All-append, inl, inr, arith, refl, ap, sym, pos, negsuc, map, List, Bool, Option, none,
  some, false, true, [], ◌∷◌, ◌++◌, ◌≡◌, ◌≢◌, ◌∙◌, ℤ, Bytes, ℕ, codes,
}
use rcom.Addr.{Inet}
use rcom.Registry.{
  registry_get, registry_count, Entry, registry_update_addr, registry_delete, type_messagehub,
}
use rcom.Registry.Listing.RoundTrip.{
  IsListable-IsSound, parse-encode, AllListable-AllSound, IsListable, AllListable, remote,
}
use rcom.Rcregistry.{unregistered, Event, Outcome, proxy_add, proxy_remove, proxy_update_address}
use rcom.Proxy.{Proxy, Outside}
use rcom.Proxy.Events.{
  proxy_handle_register_remove, proxy_handle_register_add, proxy_handle_update_address,
  proxy_onevent, Message, proxy_onmessage, like,
}

abbrev pub event_message : Bytes → Message
event_message event = record {
  response = none;
  event = some event;
  success = false;
  entry = none;
  id = none;
  addr = none;
  list = none;
}

-- what a proxy finds in the text of a broadcast, if this gives it these values
abbrev pub message_of : Event → Message
message_of (proxy_add obj) = record (event_message (codes "proxy-add")) { entry = some obj }
message_of (proxy_remove id) = record (event_message (codes "proxy-remove")) { id = some id }
message_of (proxy_update_address id addr) = record (event_message (codes "proxy-update-address")) {
  id = some id;
  addr = some addr;
}

-- What a reader of JSON finds where the format prints `\"%s\"`: none where that is not one string, since
-- the text is then none of JSON or has other members.
abbrev pub read_printed : Bytes → Option Bytes
read_printed s = elim (read_string false (s ++ 34 ∷ [])) [
  | none ↦ none
  | some (t, []) ↦ some t
  | some (t, c ∷ rest) ↦ none
]

-- The text of a broadcast, as a proxy reads it. The entry is printed by the JSON library, and the other
-- values by the format, without escapes.
abbrev pub text_message : Event → Option Message
text_message (proxy_add obj) = some (message_of (proxy_add obj))
text_message (proxy_remove id) = elim (read_printed id) [
  | none ↦ none
  | some s ↦ some (message_of (proxy_remove s))
]
text_message (proxy_update_address id addr) = elim (read_printed id) [
  | none ↦ none
  | some s ↦ elim (read_printed addr) [
    | none ↦ none
    | some t ↦ some (message_of (proxy_update_address s t))
  ]
]

plain_printed : (s : Bytes) → IsPlain s → read_printed s ≡ some s
plain_printed s v = rw (read_printed, read_plain s [] v) refl

-- The proxy has the entries of the central registry, but for the endpoints.
abbrev pub Follows : Proxy → List Entry → Type 0
Follows p es = map remote p.entries ≡ map remote es

is_negsuc : ℤ → Bool
is_negsuc (pos n) = false
is_negsuc (negsuc n) = true

pos≢negsuc : {m n : ℕ} → pos m ≢ negsuc n
unfolding is_negsuc
pos≢negsuc e = let clash : false ≡ true = ap is_negsuc e in ground (arith, clash)

module _ (I : Inet) (S : Strings) (L : Lists Entry) (R : Lists (Option Entry)) (W : Outside) where
  -- what a proxy makes of the broadcast, if there is one
  abbrev pub heard : Option (Event × Bool) → Proxy → Option Proxy
  heard none p = some p
  heard (some (event, skips)) p = proxy_onmessage I S L R W (text_message event) p

  -- The proxy hears of an outcome and then follows the registry that it leaves.
  abbrev pub Informed : Proxy → Outcome → Type 0
  Informed p o = (p' : Proxy) × (heard o.event p ≡ some p') × Follows p' o.entries

  pub heard_add :
      (obj : EntryObject) (p : Proxy)
      → proxy_onmessage I S L R W (some (message_of (proxy_add obj))) p
        ≡ proxy_handle_register_add I S L R W (message_of (proxy_add obj)) p
  unfolding proxy_onmessage proxy_onevent
  heard_add obj p = rw (S.rstreq_same (codes "proxy-add")) refl

  heard_remove :
      (id : Bytes) (p : Proxy)
      → IsPlain id
      → proxy_onmessage I S L R W (text_message (proxy_remove id)) p
        ≡ proxy_handle_register_remove I S L R W (message_of (proxy_remove id)) p
  unfolding proxy_onmessage proxy_onevent
  heard_remove id p v =
      rw
        (
          text_message,
          plain_printed id v,
          distinct S (codes "proxy-remove") (codes "proxy-add") refl,
          S.rstreq_same (codes "proxy-remove"),
        )
        refl

  pub heard_update :
      (id addr : Bytes) (p : Proxy)
      → IsPlain id
      → IsPlain addr
      → proxy_onmessage I S L R W (text_message (proxy_update_address id addr)) p
        ≡ proxy_handle_update_address I S L R W (message_of (proxy_update_address id addr)) p
  unfolding proxy_onmessage proxy_onevent
  heard_update id addr p v w =
      let text = codes "proxy-update-address" in
      rw
        (
          text_message,
          plain_printed id v,
          plain_printed addr w,
          distinct S text (codes "proxy-add") refl,
          distinct S text (codes "proxy-remove") refl,
          S.rstreq_same text,
        )
        refl

  pub AllListable-follower :
      (p : Proxy) (es : List Entry) → AllListable es → Follows p es → AllListable p.entries
  AllListable-follower p es v f = remote-AllListable p.entries (rw f (AllListable-remote es v))

  -- The proxy of an entry that it does not have yet, which is not of a message hub.
  pub add-Follows :
      (e : Entry) (p : Proxy) (es : List Entry)
      → IsListable e
      → AllListable p.entries
      → registry_count I S L R (like e) p.entries ≡ some 0
      → e.kind ≢ type_messagehub
      → Follows p es
      → (p' : Proxy) × (proxy_handle_register_add I S L R W
            (message_of (proxy_add (registry_entry_encode I S e)))
            p
          ≡ some p')
        × Follows p' (es ++ remote e ∷ [])
  unfolding proxy_handle_register_add
  add-Follows e p es v u n k f =
      let q = record p { entries = p.entries ++ remote e ∷ [] } in
      let kept : AllListable q.entries =
        All-append IsListable p.entries (remote e ∷ []) u (AllListable-remote (e ∷ []) (v, tt)) in
      let (p', r, s) =
        add_connection-Kept I S L R W (remote e) q k (AllListable-AllSound q.entries kept) in
      (
        p',
        rw
            (
              parse-encode I S e v,
              insert_missing-new I S L R (remote e) p.entries n
                  (IsListable-IsSound (AllListable-remote (e ∷ []) (v, tt)).0),
            )
            r,
        ap (map remote) s
            ∙ map-append remote p.entries (remote e ∷ [])
            ∙ ap (λ l. l ++ remote e ∷ []) f
            ∙ sym (map-append remote es (remote e ∷ [])),
      )

  unheard :
      (id : Bytes) (p : Proxy) (r : ℤ × List Entry)
      → r.0 ≡ negsuc 0
      → Follows p r.1
      → Informed p (unregistered I S L R id r)
  unheard id p (pos n, fs) q f = absurd (pos≢negsuc q)
  unheard id p (negsuc n, fs) q f = (p, refl, f)

  told :
      (id : Bytes) (p p' : Proxy) (r : ℤ × List Entry)
      → IsPlain id
      → r.0 ≡ pos 0
      → proxy_handle_register_remove I S L R W (message_of (proxy_remove id)) p ≡ some p'
      → Follows p' r.1
      → Informed p (unregistered I S L R id r)
  told id p p' (pos n, fs) v q h f = (p', heard_remove id p v ∙ h, f)
  told id p p' (negsuc n, fs) v q h f = absurd (pos≢negsuc (sym q))

  remove-heard :
      (id : Bytes) (p : Proxy) (e : Entry)
      → AllListable p.entries
      → registry_get I S L R id p.entries ≡ some e
      → (p' : Proxy) × (proxy_handle_register_remove I S L R W (message_of (proxy_remove id)) p
          ≡ some p')
        × (p'.entries ≡ (registry_delete I S L R id p.entries).1)
  unfolding proxy_handle_register_remove
  remove-heard id p e u g =
      let q = record p { entries = (registry_delete I S L R id p.entries).1 } in
      let (p', r, s) =
        remove_connection-Kept I S L R W e q
          (AllListable-AllSound q.entries (delete-AllListable I S L R id p.entries u)) in
      (p', rw (proxy_handle_register_remove, g) r, s)

  pub remove-Follows :
      (id : Bytes) (p : Proxy) (es : List Entry)
      → IsPlain id
      → AllListable p.entries
      → Follows p es
      → Informed p (unregistered I S L R id (registry_delete I S L R id es))
  remove-Follows id p es plain u f =
      let (code, left) = delete_agrees I S L R id es p.entries f in
      elim (find_entry I S L R id p.entries) [
        | inl v ↦
            let gone = registry_delete_absent I S L R id p.entries v in
            unheard id p (registry_delete I S L R id es) (sym code ∙ ap (λ t. t.0) gone)
              (sym (ap (λ t. map remote t.1) gone) ∙ left)
        | inr (xs, ys, e, q, r, v) ↦
            let absent : IsAbsent e.id xs = rw r v in
            let sound : IsSound e = IsListable-IsSound (All-get IsListable xs ys e (rw q at u)) in
            let got : registry_get I S L R id p.entries ≡ some e =
              rw (q, ← r) (get-found I S L R xs ys e absent ∙ clone_sound e sound) in
            let (p', h, s) = remove-heard id p e u got in
            let deleted : (registry_delete I S L R id p.entries).0 ≡ pos 0 =
              rw (q, ← r) (ap (λ t. t.0) (registry_delete_found I S L R xs ys e absent)) in
            told id p p' (registry_delete I S L R id es) plain (sym code ∙ deleted) h
              (ap (map remote) s ∙ left)
      ]

  pub update-Follows :
      (id addr : Bytes) (p : Proxy) (es es' : List Entry) (n : ℕ)
      → Follows p es
      → registry_update_addr I S L R id addr es ≡ some (pos n, es')
      → (p' : Proxy) × (proxy_handle_update_address I S L R W
            (message_of (proxy_update_address id addr))
            p
          ≡ some p')
        × Follows p' es'
  unfolding proxy_handle_update_address
  update-Follows id addr p es es' n f q =
      let (fs, r, g) = update_addr_agrees I S L R id addr es p.entries es' (pos n) f q in
      (record p { entries = fs }, rw (proxy_handle_update_address, r) refl, g)
