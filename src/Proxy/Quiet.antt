-- ===== src/Proxy/Quiet.antt =====
-- librcom/src/proxy.c: what connecting and disconnecting do to the registry.
use rcom.Proxy.Loops.{
  first_local-Kept, hub-cases, each_local-remote, each_local-Kept, Kept, Present, IsRemote,
}
use rcom.Proxy.Events.{like, insert_missing}
use rcom.Registry.Select.{select_sound, is_match, matching}
use rcom.Registry.Store.{inserted, IsSound, AllSound}
use rcom.Rlib.{Lists, Strings}
use rcom.Base.{
  pos, ◌++◌, if_both, inl, inr, refl, All, All-onto, List, Option, none, some, [], ◌∷◌, ◌≡◌, ◌≢◌,
  Bytes, onto,
}
use rcom.Addr.{Inet}
use rcom.Registry.{
  registry_count, Query, Entry, EntryType, type_none, type_any, type_datalink, type_datahub,
  type_messagelink, type_messagehub, type_service, type_streamer, type_streamerlink,
}
use rcom.Proxy.{
  connect_link, proxy_remove_datahub, proxy_remove_connection, proxy_connect_messagehub,
  streamerlink_set_remote, datalink_set_remote_addr, datahub_add_link, perform,
  proxy_connect_streamer, proxy_connect_datahub, by_topic, selecting, proxy_connect_datalink,
  proxy_add_connection, Proxy, Outside, each_local, first_local,
}

module _ (I : Inet) (S : Strings) (L : Lists Entry) (R : Lists (Option Entry)) where
  matching-Present :
      (P : Entry → Type 0) (q : Query) (es : List Entry)
      → All P es
      → Present P (matching I S L R q es)
  matching-Present P q [] v = tt
  matching-Present P q (e ∷ es) v =
      let rest = matching-Present P q es v.1 in
      if_both (Present P) (is_match I S L R q e) ((e, refl, v.0), rest) rest

  pub insert_missing-new :
      (e : Entry) (es : List Entry)
      → registry_count I S L R (like e) es ≡ some 0
      → IsSound e
      → insert_missing I S L R e es ≡ some (pos 0, es ++ e ∷ [])
  unfolding insert_missing
  insert_missing-new e es n v = rw (insert_missing, n, inserted I S L R es e v) refl

  module _ (W : Outside) where
    selecting-Kept :
        (P : Entry → Type 0) (topic : Bytes) (kind : EntryType)
        (f : List (Option Entry) → Proxy → Option Proxy) (p : Proxy)
        → ((l : List (Option Entry)) → Present P l → Kept p (f l p))
        → AllSound p.entries
        → All P p.entries
        → Kept p (selecting I S L R W topic kind f p)
    selecting-Kept P topic kind f p k u v =
        let q = by_topic topic kind in
        rw (selecting, select_sound I S L R q p.entries u)
          (k (onto [] (matching I S L R q p.entries)) (
            All-onto (λ o. (e : Entry) × (o ≡ some e) × P e) [] (matching I S L R q p.entries) tt
              (matching-Present P q p.entries v)))

    add_connection-quiet :
        (entry : Entry) (p : Proxy) (kind : EntryType)
        → entry.kind ≡ kind
        → kind ≢ type_messagehub
        → AllSound p.entries
        → Kept p (proxy_add_connection I S L R W entry p)
    unfolding proxy_add_connection proxy_connect_datalink proxy_connect_datahub
        proxy_connect_streamer
    add_connection-quiet entry p type_none e n v = rw e (p, refl, refl)
    add_connection-quiet entry p type_any e n v = rw e (p, refl, refl)
    add_connection-quiet entry p type_datalink e n v = rw e (
        selecting-Kept IsSound entry.topic type_datahub
          (first_local (λ e hub p'. some (perform (datahub_add_link hub entry.addr) p'))) p
          (λ l.
            first_local-Kept (λ e hub p'. some (perform (datahub_add_link hub entry.addr) p'))
              IsSound l p (λ f hub q. (perform (datahub_add_link hub entry.addr) q, refl, refl)))
          v v)
    add_connection-quiet entry p type_datahub e n v = rw e (
        selecting-Kept IsSound entry.topic type_datalink
          (each_local (λ e link p'. some (perform (datalink_set_remote_addr link entry.addr) p'))) p
          (λ l.
            each_local-Kept
              (λ e link p'. some (perform (datalink_set_remote_addr link entry.addr) p')) IsSound l
              p (λ f link q. (perform (datalink_set_remote_addr link entry.addr) q, refl, refl)))
          v v)
    add_connection-quiet entry p type_messagelink e n v = rw e (p, refl, refl)
    add_connection-quiet entry p type_messagehub e n v = absurd (n refl)
    add_connection-quiet entry p type_service e n v = rw e (p, refl, refl)
    add_connection-quiet entry p type_streamer e n v = rw e (
        selecting-Kept IsSound entry.topic type_streamerlink
          (each_local (λ e link p'. some (perform (streamerlink_set_remote link entry.addr) p'))) p
          (λ l.
            each_local-Kept
              (λ e link p'. some (perform (streamerlink_set_remote link entry.addr) p')) IsSound l p
              (λ f link q. (perform (streamerlink_set_remote link entry.addr) q, refl, refl)))
          v v)
    add_connection-quiet entry p type_streamerlink e n v = rw e (p, refl, refl)

    pub add_connection-Kept :
        (entry : Entry) (p : Proxy)
        → entry.kind ≢ type_messagehub
        → AllSound p.entries
        → Kept p (proxy_add_connection I S L R W entry p)
    add_connection-Kept entry p n v = add_connection-quiet entry p entry.kind refl n v

    remove_datahub-Kept :
        (entry : Entry) (p : Proxy)
        → AllSound p.entries
        → Kept p (proxy_remove_datahub I S L R W entry p)
    unfolding proxy_remove_datahub
    remove_datahub-Kept entry p v =
        selecting-Kept IsSound entry.topic type_datalink
          (each_local (λ e link p'. some (perform (datalink_set_remote_addr link none) p'))) p
          (λ l.
            each_local-Kept (λ e link p'. some (perform (datalink_set_remote_addr link none) p'))
              IsSound l p
              (λ f link q. (perform (datalink_set_remote_addr link none) q, refl, refl)))
          v v

    remove_connection-quiet :
        (entry : Entry) (p : Proxy) (kind : EntryType)
        → entry.kind ≡ kind
        → AllSound p.entries
        → Kept p (proxy_remove_connection I S L R W entry p)
    unfolding proxy_remove_connection
    remove_connection-quiet entry p type_datahub e v = rw e (remove_datahub-Kept entry p v)
    remove_connection-quiet entry p type_none e v = rw e (p, refl, refl)
    remove_connection-quiet entry p type_any e v = rw e (p, refl, refl)
    remove_connection-quiet entry p type_datalink e v = rw e (p, refl, refl)
    remove_connection-quiet entry p type_messagelink e v = rw e (p, refl, refl)
    remove_connection-quiet entry p type_messagehub e v = rw e (p, refl, refl)
    remove_connection-quiet entry p type_service e v = rw e (p, refl, refl)
    remove_connection-quiet entry p type_streamer e v = rw e (p, refl, refl)
    remove_connection-quiet entry p type_streamerlink e v = rw e (p, refl, refl)

    pub remove_connection-Kept :
        (entry : Entry) (p : Proxy)
        → AllSound p.entries
        → Kept p (proxy_remove_connection I S L R W entry p)
    remove_connection-Kept entry p v = remove_connection-quiet entry p entry.kind refl v

    -- Where a registry has entries of other programs only, no link is connected to a message hub.
    connect_messagehub-remote :
        (entry : Entry) (p : Proxy)
        → AllSound p.entries
        → All IsRemote p.entries
        → Kept p (proxy_connect_messagehub I S L R W entry p)
    unfolding proxy_connect_messagehub
    connect_messagehub-remote entry p u v =
        selecting-Kept IsRemote entry.topic type_messagelink
          (each_local (connect_link I S L R W entry)) p
          (λ l. each_local-remote (connect_link I S L R W entry) l p) u v

    add_hub-remote :
        (entry : Entry) (p : Proxy)
        → entry.kind ≡ type_messagehub
        → AllSound p.entries
        → All IsRemote p.entries
        → Kept p (proxy_add_connection I S L R W entry p)
    unfolding proxy_add_connection
    add_hub-remote entry p e u v = rw e (connect_messagehub-remote entry p u v)

    pub add_connection-remote :
        (entry : Entry) (p : Proxy)
        → AllSound p.entries
        → All IsRemote p.entries
        → Kept p (proxy_add_connection I S L R W entry p)
    add_connection-remote entry p u v = elim (hub-cases entry.kind) [
      | inl e ↦ add_hub-remote entry p e u v
      | inr n ↦ add_connection-Kept entry p n u
    ]
