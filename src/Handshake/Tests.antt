-- ===== src/Handshake/Tests.antt =====
-- librcom/src/messagelink.c, messagehub.c and request.c: one handshake.
use rcom.Rlib.{list_strings, list_lists}
use rcom.Util.{encode_base64}
use rcom.Base.{
  refl, true, false, Bool, [], ◌∷◌, ◌≡◌, ◌&&◌, ◌||◌, ◌==◌, ==_true, Bytes, codes, map, pos,
  replicate,
}
use rcom.Http.{Header, on_headers_complete, new_reader}
use rcom.Http.Chunks.{Pieces, calls}
use rcom.Handshake.{
  Search, messagehub_handle, upgraded, upgrade_headers, request_headers, validate_response,
  make_accept, valid_websocket_key,
}
use rcom.Handshake.Keys.{valid_websocket_key-encode_base64}
use rcom.Handshake.Agree.{handshake}

starts : Bytes → Bytes → Bool
starts [] s = true
starts (c ∷ t) [] = false
starts (c ∷ t) (d ∷ s) = c == d && starts t s

starts_same : (s : Bytes) → starts s s ≡ true
unfolding starts
starts_same [] = refl
starts_same (c ∷ s) = rw (starts, ==_true c c refl) (starts_same s)

abbrev finds : Bytes → Bytes → Bool
finds [] t = starts t []
finds (c ∷ s) t = starts t (c ∷ s) || finds s t

finds_same : (s : Bytes) → finds s s ≡ true
finds_same [] = starts_same []
finds_same (c ∷ s) = rw (starts_same (c ∷ s)) refl

abbrev search : Search
search = record { strstr = finds; strstr_same = finds_same }

abbrev digest : Bytes → Bytes
digest s = replicate 20 7

abbrev nonce : Bytes
nonce = replicate 16 200

-- each header in one piece
abbrev uncut : Header → Pieces
uncut h = record { name = h.name; more_name = []; value = h.value; more_value = [] }

abbrev key : Bytes
key = encode_base64 nonce

abbrev accept : Bytes
accept = make_accept digest key

valid_websocket_key-encode_base64_example : valid_websocket_key (encode_base64 nonce) ≡ true
valid_websocket_key-encode_base64_example = valid_websocket_key-encode_base64 nonce refl

handshake_example :
    (messagehub_handle list_strings list_lists search digest (
        on_headers_complete list_strings list_lists
          (calls list_strings list_lists (map uncut (request_headers (codes "a") key)) new_reader))
      ≡ upgraded (upgrade_headers accept))
    × (validate_response list_strings list_lists 101 accept (
          on_headers_complete list_strings list_lists
            (calls list_strings list_lists (map uncut (upgrade_headers accept)) new_reader))
        ≡ pos 0)
handshake_example =
    handshake list_strings list_lists search digest (codes "a") nonce
      (map uncut (request_headers (codes "a") key)) (map uncut (upgrade_headers accept)) (λ s. refl)
      (refl, refl) refl (refl, refl, (refl, refl, (refl, refl, (refl, refl, (refl, refl, tt)))))
      (refl, refl, (refl, refl, (refl, refl, tt)))
