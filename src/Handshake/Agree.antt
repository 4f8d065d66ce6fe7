-- ===== src/Handshake/Agree.antt =====
-- librcom/src/messagelink.c, messagehub.c and request.c: both sides of a handshake.
use rcom.Handshake.Keys.{valid_websocket_key-encode_base64, encode_base64-IsPlain, c_string_plain}
use rcom.Handshake.{
  has_header, header_is, says_upgrade, upgraded, valid_websocket_key, request_is_valid_websocket,
  upgrade_headers, request_headers, request_is_websocket, validate_response, messagehub_handle,
  make_accept, Search,
}
use rcom.Util.{encode_base64}
use rcom.Rlib.{Lists, Strings, same_bytes, same_bytes_same}
use rcom.Data.{c_string}
use rcom.Http.{new_reader, on_headers_complete, Header, get_header, store}
use rcom.Http.Chunks.{headers_whole, calls, Pieces, joined, whole}
use rcom.Http.Headers.{get-set_same, get-set_other}
use rcom.Base.{
  Bool, none, pos, ap, Option, ◌<◌, ◌++◌, codes, take, ==_false, ap₂, arith, refl, sym, subst, List,
  some, false, true, [], ◌∷◌, ◌≡◌, ◌≢◌, ◌∙◌, ◌==◌, Bytes, length,
}

-- The pieces that the parser passes on make up these headers.
abbrev pub Delivers : List Pieces → List Header → Type 0
Delivers [] [] = Unit
Delivers [] (h ∷ hs) = false ≡ true
Delivers (p ∷ ps) [] = false ≡ true
Delivers (p ∷ ps) (h ∷ hs) =
    (joined p.name p.more_name ≡ h.name) × (joined p.value p.more_value ≡ h.value) × Delivers ps hs

-- a text that the parser's buffer and a C string hold alike
abbrev pub IsText : Bytes → Type 0
IsText s = ((length s == 0) ≡ false) × (c_string s ≡ s)

differ : (s t : Bytes) → same_bytes s t ≡ false → s ≢ t
differ s t d q =
    let clash : same_bytes s s ≡ false = subst (λ r. same_bytes s r ≡ false) (sym q) d in
    ground (arith, clash, same_bytes_same s)

encoded_length : (s : Bytes) → 0 < length s → (length (encode_base64 s) == 0) ≡ false
unfolding encode_base64
encoded_length [] l = absurd (omega (arith, l))
encoded_length (a ∷ []) l = refl
encoded_length (a ∷ b ∷ []) l = refl
encoded_length (a ∷ b ∷ c ∷ s) l =
    ==_false (length (encode_base64 (a ∷ b ∷ c ∷ s))) 0 (λ e. omega (arith, e))

encoded-IsText : (s : Bytes) → 0 < length s → IsText (encode_base64 s)
encoded-IsText s l =
    (encoded_length s l, c_string_plain (encode_base64 s) (encode_base64-IsPlain s))

module _ (S : Strings) (L : Lists Header) where
  -- the headers, stored one after the other
  abbrev pub stored : List Header → List Header → List Header
  stored [] acc = acc
  stored (h ∷ hs) acc = stored hs (store S L h.name h.value acc)

  whole-stored :
      (ps : List Pieces) (hs acc : List Header) → Delivers ps hs → whole S L ps acc ≡ stored hs acc
  whole-stored [] [] acc v = refl
  whole-stored [] (h ∷ hs) acc v = absurd (ground (arith, v))
  whole-stored (p ∷ ps) [] acc v = absurd (ground (arith, v))
  whole-stored (p ∷ ps) (h ∷ hs) acc v =
      ap₂ (λ n w. whole S L ps (store S L n w acc)) v.0 v.1
      ∙ whole-stored ps hs (store S L h.name h.value acc) v.2

  found :
      (name value : Bytes) (hs : List Header)
      → IsText name
      → IsText value
      → get_header S L name (store S L name value hs) ≡ some (record { name = name; value = value })
  unfolding store
  found name value hs v w = rw (store, v.0, w.0, v.1, w.1) (get-set_same S L name value hs)

  passed :
      (other name value : Bytes) (hs : List Header)
      → IsText name
      → IsText value
      → other ≢ name
      → get_header S L other (store S L name value hs) ≡ get_header S L other hs
  unfolding store
  passed other name value hs v w n =
      rw (store, v.0, w.0, v.1, w.1) (get-set_other S L name other value hs n)

  -- two texts that are not the same, by computation
  skip :
      (other name value : Bytes) (hs : List Header) (o : Option Header)
      → IsText name
      → IsText value
      → same_bytes other name ≡ false
      → get_header S L other hs ≡ o
      → get_header S L other (store S L name value hs) ≡ o
  skip other name value hs o v w d q = passed other name value hs v w (differ other name d) ∙ q

  judged :
      (test : Bytes → Bool) (name : Bytes) (hs : List Header) (h : Header)
      → get_header S L name hs ≡ some h
      → header_is S L test name hs ≡ test h.value
  judged test name hs h q = ap (λ o. elim o [ none ↦ false | some g ↦ test g.value ]) q

  module _ (T : Search) (sha1 : Bytes → Bytes) where
    hub_judges :
        (hs : List Header) (key : Bytes)
        → get_header S L (codes "Sec-WebSocket-Key") hs
          ≡ some (record { name = codes "Sec-WebSocket-Key"; value = key })
        → header_is S L (λ v. S.rstreq v (codes "13")) (codes "Sec-WebSocket-Version") hs ≡ true
        → header_is S L (λ v. S.rstreq v (codes "websocket")) (codes "Upgrade") hs ≡ true
        → header_is S L (says_upgrade S L T) (codes "Connection") hs ≡ true
        → valid_websocket_key key ≡ true
        → messagehub_handle S L T sha1 hs ≡ upgraded (upgrade_headers (make_accept sha1 key))
    unfolding messagehub_handle request_is_websocket request_is_valid_websocket
    hub_judges hs key k v u c good =
        let key_there : has_header S L (codes "Sec-WebSocket-Key") hs ≡ true =
          judged (λ w. true) _ hs _ k in
        let is_websocket : request_is_websocket S L T hs ≡ true =
          rw (request_is_websocket, key_there) refl in
        let key_valid : header_is S L valid_websocket_key (codes "Sec-WebSocket-Key") hs ≡ true =
          judged valid_websocket_key _ hs _ k ∙ good in
        let is_valid : request_is_valid_websocket S L T hs ≡ true =
          rw (request_is_valid_websocket, key_valid, v, u, c) refl in
        rw (messagehub_handle, is_websocket, is_valid, k) refl

    hub_upgrades :
        (host key : Bytes)
        → IsText host
        → IsText key
        → valid_websocket_key key ≡ true
        → messagehub_handle S L T sha1 (stored (request_headers host key) [])
          ≡ upgraded (upgrade_headers (make_accept sha1 key))
    hub_upgrades host key v w k =
        let h1 = store S L (codes "Host") host [] in
        let h2 = store S L (codes "Connection") (codes "Upgrade") h1 in
        let h3 = store S L (codes "Upgrade") (codes "websocket") h2 in
        let h4 = store S L (codes "Sec-WebSocket-Version") (codes "13") h3 in
        let name : Bytes = codes "Sec-WebSocket-Key" in
        let version : Bytes = codes "Sec-WebSocket-Version" in
        let upgrade : Bytes = codes "Upgrade" in
        let connection : Bytes = codes "Connection" in
        let named = found name key h4 (refl, refl) w in
        let versioned =
          skip version name key h4 (some (record { name = version; value = codes "13" }))
            (refl, refl) w refl (found version (codes "13") h3 (refl, refl) (refl, refl)) in
        let upgraded_to =
          skip upgrade name key h4 (some (record { name = upgrade; value = codes "websocket" }))
            (refl, refl) w refl
            (skip upgrade version (codes "13") h3
              (some (record { name = upgrade; value = codes "websocket" })) (refl, refl)
              (refl, refl) refl (found upgrade (codes "websocket") h2 (refl, refl) (refl, refl))) in
        let connected =
          skip connection name key h4 (some (record { name = connection; value = upgrade }))
            (refl, refl) w refl
            (skip connection version (codes "13") h3
              (some (record { name = connection; value = upgrade })) (refl, refl) (refl, refl) refl
              (skip connection upgrade (codes "websocket") h2
                (some (record { name = connection; value = upgrade })) (refl, refl) (refl, refl)
                refl (found connection upgrade h1 (refl, refl) (refl, refl)))) in
        hub_judges (store S L name key h4) key named
          (judged (λ v. S.rstreq v (codes "13")) version _ _ versioned ∙ S.rstreq_same (codes "13"))
          (judged (λ v. S.rstreq v (codes "websocket")) upgrade _ _ upgraded_to
            ∙ S.rstreq_same (codes "websocket"))
          (judged (says_upgrade S L T) connection _ _ connected ∙ rw (T.strstr_same upgrade) refl) k

    client_judges :
        (accept : Bytes) (hs : List Header)
        → header_is S L (λ v. S.rstreq v (codes "Upgrade")) (codes "Connection") hs ≡ true
        → header_is S L (λ v. S.rstreq v (codes "websocket")) (codes "Upgrade") hs ≡ true
        → header_is S L (λ v. S.rstreq v accept) (codes "Sec-WebSocket-Accept") hs ≡ true
        → validate_response S L 101 accept hs ≡ pos 0
    unfolding validate_response
    client_judges accept hs c u a = rw (validate_response, c, u, a) refl

    client_accepts :
        (accept : Bytes)
        → IsText accept
        → validate_response S L 101 accept (stored (upgrade_headers accept) []) ≡ pos 0
    client_accepts accept w =
        let name : Bytes = codes "Sec-WebSocket-Accept" in
        let upgrade : Bytes = codes "Upgrade" in
        let connection : Bytes = codes "Connection" in
        let h1 = store S L upgrade (codes "websocket") [] in
        let h2 = store S L connection upgrade h1 in
        let named = found name accept h2 (refl, refl) w in
        let connected =
          skip connection name accept h2 (some (record { name = connection; value = upgrade }))
            (refl, refl) w refl (found connection upgrade h1 (refl, refl) (refl, refl)) in
        let upgraded_to =
          skip upgrade name accept h2 (some (record { name = upgrade; value = codes "websocket" }))
            (refl, refl) w refl
            (skip upgrade connection upgrade h1
              (some (record { name = upgrade; value = codes "websocket" })) (refl, refl)
              (refl, refl) refl (found upgrade (codes "websocket") [] (refl, refl) (refl, refl))) in
        client_judges accept (store S L name accept h2)
          (judged (λ v. S.rstreq v (codes "Upgrade")) connection _ _ connected
            ∙ S.rstreq_same upgrade)
          (judged (λ v. S.rstreq v (codes "websocket")) upgrade _ _ upgraded_to
            ∙ S.rstreq_same (codes "websocket"))
          (judged (λ v. S.rstreq v accept) name _ _ named ∙ S.rstreq_same accept)

    -- Let a client make its key of 16 random bytes, and let the parsers on both sides pass on the headers
    -- that the other side sends, in any pieces, at least one of each name and value. Then the hub takes
    -- the request for a valid WebSocket request and answers with an upgrade, and the client, on the
    -- status 101 and the headers of this answer, validates the response. The name of the host is not
    -- empty and has no zero, and SHA-1 gives 20 bytes.
    pub handshake :
        (host bytes : Bytes) (ps qs : List Pieces)
        → ((s : Bytes) → length (sha1 s) ≡ 20)
        → IsText host
        → length bytes ≡ 16
        → let key = encode_base64 bytes in
          let accept = make_accept sha1 key in
          Delivers ps (request_headers host key)
          → Delivers qs (upgrade_headers accept)
          → (messagehub_handle S L T sha1 (on_headers_complete S L (calls S L ps new_reader))
              ≡ upgraded (upgrade_headers accept))
            × (validate_response S L 101 accept (on_headers_complete S L (calls S L qs new_reader))
                ≡ pos 0)
    unfolding make_accept
    handshake host bytes ps qs digest v l d e =
        let key = encode_base64 bytes in
        let accept = make_accept sha1 key in
        let keyed : IsText key = encoded-IsText bytes (omega (arith, l)) in
        let accepted : IsText accept =
          encoded-IsText (sha1 (take 99 (key ++ codes "258EAFA5-E914-47DA-95CA-C5AB0DC85B11")))
            (omega (arith, digest _)) in
        (
          ap (messagehub_handle S L T sha1)
                (headers_whole S L ps ∙ whole-stored ps (request_headers host key) [] d)
              ∙ hub_upgrades host key v keyed (valid_websocket_key-encode_base64 bytes l),
          ap (validate_response S L 101 accept)
                (headers_whole S L qs ∙ whole-stored qs (upgrade_headers accept) [] e)
              ∙ client_accepts accept accepted,
        )
