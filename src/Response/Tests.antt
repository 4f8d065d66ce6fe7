-- ===== src/Response/Tests.antt =====
-- librcom/src/response.c: a short response, and the theorem on what it tells a reader.
use rcom.Rlib.{list_lists, list_strings}
use rcom.Http.{get_header, set_header}
use rcom.Response.{
  http_status_string, Response, new_response, response_set_mimetype, response_set_header,
}
use rcom.Base.{ℕ, [], ◌+◌, ◌≡◌, ◌∷◌, Bytes, refl, codes}

-- numbers of one digit
abbrev digit : ℕ → Bytes
digit n = (48 + n) ∷ []

abbrev hello : Response
hello = record {
  status = 200;
  headers = record { name = codes "X"; value = codes "y" } ∷ [];
  body = codes "Hi";
}

-- a type that is set twice is sent once
retyped :
    response_set_mimetype list_strings list_lists
      (response_set_mimetype list_strings list_lists (new_response 404) (codes "a"))
      (codes "b")
    ≡ record {
      status = 404;
      headers = record { name = codes "Content-Type"; value = codes "b" } ∷ [];
      body = [];
    }
unfolding new_response response_set_mimetype response_set_header set_header get_header
retyped = refl

unknown_status : http_status_string 299 ≡ codes "--"
unfolding http_status_string
unknown_status = refl
