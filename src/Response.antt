-- ===== src/Response.antt =====
-- librcom/src/response.c and librcom/src/http.c: the response of an HTTP server. A `membuf_t` is the
-- bytes that it holds, and memory does not run out. The bodies are texts of the callbacks.
pub mod RoundTrip
pub mod Post
mod Tests
use rcom.Rlib.{Lists, Strings}
use rcom.Http.{Header, set_header}
use rcom.Base.{
  Bool, List, Option, none, some, false, true, [], ◌∷◌, ◌++◌, if◌then◌else◌, ◌==◌, Bytes, ℕ, length,
  codes,
}

pub record Response : Type 0 where
  pub status : ℕ
  pub headers : List Header
  pub body : Bytes

pub new_response : ℕ → Response
new_response status = record { status = status; headers = []; body = [] }

pub response_set_status : Response → ℕ → Response
response_set_status r status = record r { status = status }

-- `response_append`, and `response_printf` of a text
pub response_append : Response → Bytes → Response
response_append r text = record r { body = r.body ++ text }

module _ (S : Strings) (L : Lists Header) where
  pub response_set_header : Response → Bytes → Bytes → Response
  response_set_header r key value = record r { headers = set_header S L key value r.headers }

  unfoldable pub response_set_mimetype : Response → Bytes → Response
  unfolding response_set_header
  response_set_mimetype r mimetype = response_set_header r (codes "Content-Type") mimetype

abbrev status_strings : List (ℕ × Bytes)
status_strings =
    (100, codes "Continue")
    ∷ (101, codes "Switching Protocols")
    ∷ (200, codes "OK")
    ∷ (201, codes "Created")
    ∷ (202, codes "Accepted")
    ∷ (203, codes "Non-Authoritative Information")
    ∷ (204, codes "No Content")
    ∷ (205, codes "Reset Content")
    ∷ (206, codes "Partial Content")
    ∷ (300, codes "Multiple Choices")
    ∷ (301, codes "Moved Permanently")
    ∷ (302, codes "Found")
    ∷ (303, codes "See Other")
    ∷ (304, codes "Not Modified")
    ∷ (307, codes "Temporary Redirect")
    ∷ (308, codes "Permanent Redirect")
    ∷ (400, codes "Bad Request")
    ∷ (401, codes "Unauthorized")
    ∷ (403, codes "Forbidden")
    ∷ (404, codes "Not Found")
    ∷ (405, codes "Method Not Allowed")
    ∷ (406, codes "Not Acceptable")
    ∷ (407, codes "Proxy Authentication Required")
    ∷ (408, codes "Request Timeout")
    ∷ (409, codes "Conflict")
    ∷ (410, codes "Gone")
    ∷ (411, codes "Length Required")
    ∷ (412, codes "Precondition Failed")
    ∷ (413, codes "Payload Too Large")
    ∷ (414, codes "URI Too Long")
    ∷ (415, codes "Unsupported Media Type")
    ∷ (416, codes "Range Not Satisfiable")
    ∷ (417, codes "Expectation Failed")
    ∷ (418, codes "I'm a teapot")
    ∷ (422, codes "Unprocessable Entity")
    ∷ (425, codes "Too Early")
    ∷ (426, codes "Upgrade Required")
    ∷ (428, codes "Precondition Required")
    ∷ (429, codes "Too Many Requests")
    ∷ (431, codes "Request Header Fields Too Large")
    ∷ (451, codes "Unavailable For Legal Reasons")
    ∷ (500, codes "Internal Server Error")
    ∷ (501, codes "Not Implemented")
    ∷ (502, codes "Bad Gateway")
    ∷ (503, codes "Service Unavailable")
    ∷ (504, codes "Gateway Timeout")
    ∷ (505, codes "HTTP Version Not Supported")
    ∷ (511, codes "Network Authentication Required")
    ∷ []

abbrev pub case_of : ℕ → List (ℕ × Bytes) → Bytes
case_of n [] = codes "--"
case_of n ((m, text) ∷ cases) = let rest = case_of n cases in if n == m then text else rest

pub http_status_string : ℕ → Bytes
http_status_string status = case_of status status_strings

-- `\r\n` and `: `
abbrev pub crlf : Bytes
crlf = 13 ∷ 10 ∷ []

abbrev pub colon : Bytes
colon = 58 ∷ 32 ∷ []

-- the loop over the headers
abbrev pub header_lines : List Header → Bytes
header_lines [] = []
header_lines (h ∷ hs) = (h.name ++ (colon ++ (h.value ++ crlf))) ++ header_lines hs

-- the lines that come before the headers of the response; `decimal` is the format `%d`
abbrev pub first_lines : (ℕ → Bytes) → Response → Bytes
first_lines decimal r =
    (codes "HTTP/1.1 " ++ (decimal r.status ++ (32 ∷ http_status_string r.status ++ crlf)))
    ++ ((codes "Content-Length: " ++ (decimal (length r.body) ++ crlf))
        ++ (codes "Connection: close" ++ crlf))

-- `http_send_response`: the two blocks that it gives to `tcp_socket_send`, the second one if the first
-- can be sent
unfoldable pub http_send_response : (ℕ → Bytes) → Response → Bytes × Bytes
http_send_response decimal r = (first_lines decimal r ++ (header_lines r.headers ++ crlf), r.body)
