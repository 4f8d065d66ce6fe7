-- ===== src/Handshake.antt =====
-- librcom/src/messagelink.c, messagehub.c and request.c: the WebSocket handshake of a client link and a
-- message hub, on the headers that the HTTP parser has delivered. SHA-1 and `strstr` are arguments.
pub mod Keys
pub mod Agree
mod Tests
use rcom.Rlib.{Lists, Strings}
use rcom.Util.{encode_base64}
use rcom.Http.{Header, get_header}
use rcom.Base.{
  ◌≡◌, Bool, List, Option, none, some, false, true, not, [], ◌∷◌, ◌++◌, ◌&&◌, ◌||◌, if◌then◌else◌,
  ◌==◌, Bytes, ℕ, ℤ, pos, negsuc, length, take, get_or, leb, codes,
}

-- `strstr`, as whether it finds the second text in the first
pub record Search : Type 0 where
  pub strstr : Bytes → Bytes → Bool
  pub strstr_same : (s : Bytes) → strstr s s ≡ true

-- the tests on one character in `valid_websocket_key`
abbrev pub is_key_char : ℕ → Bool
is_key_char c =
    (leb 97 c && leb c 122)
    || (leb 65 c && leb c 90)
    || (leb 48 c && leb c 57)
    || c == 43
    || c == 47

abbrev pub all_key_chars : Bytes → Bool
all_key_chars [] = true
all_key_chars (c ∷ s) = is_key_char c && all_key_chars s

unfoldable pub valid_websocket_key : Bytes → Bool
valid_websocket_key key =
    if not (length key == 24)
    then false
    else if not (get_or key 22 0 == 61) || not (get_or key 23 0 == 61)
    then false
    else all_key_chars (take 22 key)

-- `_make_accept`, and the same lines of `messagehub_upgrade_connection`
unfoldable pub make_accept : (Bytes → Bytes) → Bytes → Bytes
make_accept sha1 key =
    encode_base64 (sha1 (take 99 (key ++ codes "258EAFA5-E914-47DA-95CA-C5AB0DC85B11")))

-- the headers that `client_messagelink_send_request` formats, in their order
abbrev pub request_headers : Bytes → Bytes → List Header
request_headers host key =
    record { name = codes "Host"; value = host }
    ∷ record { name = codes "Connection"; value = codes "Upgrade" }
    ∷ record { name = codes "Upgrade"; value = codes "websocket" }
    ∷ record { name = codes "Sec-WebSocket-Version"; value = codes "13" }
    ∷ record { name = codes "Sec-WebSocket-Key"; value = key }
    ∷ []

-- those that `messagehub_upgrade_connection` formats
abbrev pub upgrade_headers : Bytes → List Header
upgrade_headers accept =
    record { name = codes "Upgrade"; value = codes "websocket" }
    ∷ record { name = codes "Connection"; value = codes "Upgrade" }
    ∷ record { name = codes "Sec-WebSocket-Accept"; value = accept }
    ∷ []

-- What `messagehub_handle` does with a request: an ordinary request, an error 400, or an upgrade with
-- the headers that it sends.
pub data Handling : Type 0 where
  ordinary bad_request : Handling
  upgraded : List Header → Handling

module _ (S : Strings) (L : Lists Header) where
  -- a test of the value of a header, with false where there is none
  abbrev pub header_is : (Bytes → Bool) → Bytes → List Header → Bool
  header_is test name hs = elim (get_header S L name hs) [ none ↦ false | some h ↦ test h.value ]

  abbrev pub has_header : Bytes → List Header → Bool
  has_header name hs = header_is (λ v. true) name hs

  module _ (T : Search) where
    abbrev pub says_upgrade : Bytes → Bool
    says_upgrade value = T.strstr value (codes "Upgrade") || T.strstr value (codes "upgrade")

    unfoldable pub request_is_websocket : List Header → Bool
    request_is_websocket hs =
        has_header (codes "Sec-WebSocket-Key") hs
        || has_header (codes "Sec-WebSocket-Version") hs
        || header_is (λ v. S.rstreq v (codes "websocket")) (codes "Upgrade") hs
        || header_is says_upgrade (codes "Connection") hs

    unfoldable pub request_is_valid_websocket : List Header → Bool
    unfolding valid_websocket_key
    request_is_valid_websocket hs =
        header_is valid_websocket_key (codes "Sec-WebSocket-Key") hs
        && header_is (λ v. S.rstreq v (codes "13")) (codes "Sec-WebSocket-Version") hs
        && header_is (λ v. S.rstreq v (codes "websocket")) (codes "Upgrade") hs
        && header_is says_upgrade (codes "Connection") hs

    -- `messagehub_upgrade_connection`; "(null)" is what `%s` prints for NULL
    abbrev pub upgrade_connection : (Bytes → Bytes) → Option Header → Handling
    upgrade_connection sha1 none = upgraded (upgrade_headers (make_accept sha1 (codes "(null)")))
    upgrade_connection sha1 (some h) = upgraded (upgrade_headers (make_accept sha1 h.value))

    -- `messagehub_handle` from the call of `request_is_websocket` to the answer
    unfoldable pub messagehub_handle : (Bytes → Bytes) → List Header → Handling
    unfolding request_is_websocket request_is_valid_websocket make_accept
    messagehub_handle sha1 hs =
        if not (request_is_websocket hs)
        then ordinary
        else if not (request_is_valid_websocket hs)
        then bad_request
        else upgrade_connection sha1 (get_header S L (codes "Sec-WebSocket-Key") hs)

  -- `client_messagelink_validate_response`
  unfoldable pub validate_response : ℕ → Bytes → List Header → ℤ
  validate_response status accept hs =
      if not (status == 101)
      then negsuc 0
      else if not (header_is (λ v. S.rstreq v (codes "Upgrade")) (codes "Connection") hs)
      then negsuc 0
      else if not (header_is (λ v. S.rstreq v (codes "websocket")) (codes "Upgrade") hs)
      then negsuc 0
      else if not (header_is (λ v. S.rstreq v accept) (codes "Sec-WebSocket-Accept") hs)
      then negsuc 0
      else pos 0
