-- ===== src/Response/Post.antt =====
-- librcom/src/http.c: the calls of an HTTP client, http_post and http_get. What the sockets do and what
-- response_parse_html comes to are arguments.
use rcom.Response.{crlf, Response, new_response}
use rcom.Base.{
  is_zero, inr, inl, pos, negsuc, ℕ, arith, Bool, List, Option, none, some, not, false, true, [],
  ◌⊎◌, ◌≡◌, ◌∷◌, ◌++◌, ℤ, length, if◌then◌else◌, ◌==◌, ltb, Bytes, refl, codes,
}

-- the texts of the formats
abbrev pub request_line : Bytes → Bytes → Bytes
request_line method resource =
    method
    ++ ((elim resource [ [] ↦ 47 ∷ [] | c ∷ s ↦ if c == 47 then [] else 47 ∷ [] ])
        ++ (resource ++ (codes " HTTP/1.1" ++ crlf)))

-- The text that `http_send_request_headers` formats, and sends as it is where it has fewer than 2048 bytes.
unfoldable pub request_text : (ℕ → Bytes) → Bytes → Bytes → Bytes → ℕ → Bytes
request_text decimal resource host content_type len =
    if ltb 0 len
    then request_line (codes "POST ") resource
      ++ (codes "Host: "
          ++ (host
              ++ (crlf
                  ++ (codes "Content-Type: "
                      ++ (content_type
                          ++ (crlf
                              ++ (codes "Content-Length: " ++ (decimal len ++ (crlf ++ crlf)))))))))
    else request_line (codes "GET ") resource ++ (codes "Host: " ++ (host ++ (crlf ++ crlf)))

-- What the sockets do: whether `open_tcp_socket` succeeds, and whether the two calls of
-- `tcp_socket_send` do.
pub record Network : Type 0 where
  pub opens : Bool
  pub sends_head : Bool
  pub sends_body : Bool

-- `http_send_request`, with the head that is formatted: its value and the blocks that were sent
unfoldable pub http_send_request : Network → Bytes → Bytes → ℤ × List Bytes
http_send_request net head content =
    if net.sends_head
    then if length content == 0
      then (pos 0, head ∷ [])
      else if net.sends_body
      then (pos 0, head ∷ content ∷ [])
      else (negsuc 0, head ∷ [])
    else (pos 0, [])

-- The value of `http_post`, what `*response_handle` is then, what was sent, and whether the socket was
-- opened and closed.
pub record Posted : Type 0 where
  pub value : ℤ
  pub handle : Option Response
  pub sent : List Bytes
  pub opened : Bool
  pub closed : Bool

abbrev pub is_some : Option Response → Bool
is_some none = false
is_some (some r) = true

-- the response of the caller, or a new one
abbrev pub initial : Option Response → Response
initial none = new_response 200
initial (some r) = r

-- the handle after the response was parsed, or could not be
abbrev pub kept_handle : Option Response → Bool → Response → Option Response
kept_handle (some r) ok r' = some r'
kept_handle none true r' = some r'
kept_handle none false r' = none

-- `parse` is the value of `response_parse_html` and what it makes of the response.
unfoldable pub http_post :
    Network → Bytes → Bytes → (Response → ℤ × Response) → Option Response → Posted
unfolding http_send_request
http_post net head content parse handle =
    let (err, sent) = http_send_request net head content in
    let (value, response) = parse (initial handle) in
    if not net.opens
    then record { value = negsuc 0; handle = handle; sent = []; opened = false; closed = false }
    else if not (is_zero err)
    then record { value = negsuc 0; handle = handle; sent = sent; opened = true; closed = true }
    else record {
      value = value;
      handle = kept_handle handle (is_zero value) response;
      sent = sent;
      opened = true;
      closed = true;
    }

-- On every path the socket is closed if it was opened; where the caller gave no response, there is one
-- afterwards if and only if the value is 0; and a caller's response is never taken away.
pub post_lem :
    (net : Network) (head content : Bytes) (parse : Response → ℤ × Response)
    (handle : Option Response)
    → let p = http_post net head content parse handle in
      (p.closed ≡ p.opened)
      × (((handle ≡ none) × (is_some p.handle ≡ is_zero p.value))
          ⊎ ((is_some handle ≡ true) × (is_some p.handle ≡ true)))
unfolding http_post
post_lem net head content parse none = (ground arith, inl (refl, ground arith))
post_lem net head content parse (some r) = (ground arith, inr (refl, ground arith))

-- If the head of the request cannot be sent, nothing is sent, and `http_post` goes on to read the
-- response and returns what this returns.
pub post_unsent :
    (net : Network) (head content : Bytes) (parse : Response → ℤ × Response)
    (handle : Option Response)
    → net.opens ≡ true
    → net.sends_head ≡ false
    → ((http_post net head content parse handle).sent ≡ [])
      × ((http_post net head content parse handle).value ≡ (parse (initial handle)).0)
unfolding http_post
post_unsent net head content parse handle o h = (ground arith, ground arith)
