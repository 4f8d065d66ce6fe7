-- ===== src/Service/Tests.antt =====
-- librcom/src/service.c: a service with two exports, and the theorems on it.
use rcom.Http.{on_headers_complete}
use rcom.Service.Answers.{handle-export, refused_answers}
use rcom.Service.Routes.{get-export_other}
use rcom.Response.{response_set_mimetype, response_append, new_response}
use rcom.Rlib.{list_lists, list_strings}
use rcom.Net.{Recv, chunk, again}
use rcom.Request.{
  split_uri, complete, deliver, deliver_all, execute, round, read_bytes, new_request, read_request,
  Request, request_parse_html, get,
}
use rcom.Request.Samples.{line_calls, line_parser, refusing_parser}
use rcom.Request.Late.{IsEnd, IsPiece, errors_at}
use rcom.Service.{
  errors, service_client_handle, new_export, service_export, Export, service_get_export, Callbacks,
  response, error_headers,
}
use rcom.Base.{arith, List, none, some, false, [], ◌≡◌, ◌∷◌, ◌++◌, All, refl, codes}

-- a callback that says its number
abbrev says : Callbacks
says f userdata request r = response_append r (f ∷ userdata ∷ [])

abbrev index : Export
index = new_export (codes "/") none (some (codes "text/html")) 0 (some 1)

abbrev asked : Request
asked = record new_request {
  method = get;
  uri = some (codes "/a");
  buffers = none;
  continue_parsing = false;
}

abbrev line : List Recv
line = chunk 47 (97 ∷ 10 ∷ []) ∷ []

handle-export_example :
    service_client_handle list_strings list_lists says line_parser
      (service_export list_strings list_lists
        (codes "/a")
        none
        (some (codes "text/plain"))
        8
        (some 7)
        (index ∷ []))
      line
    ≡ some (
        response (
          says 7 8 asked
            (response_set_mimetype list_strings list_lists (new_response 200) (codes "text/plain")))
        ∷ [])
unfolding request_parse_html read_request read_bytes round execute deliver_all deliver complete
    split_uri line_parser line_calls on_headers_complete
handle-export_example =
    handle-export list_strings list_lists says list_lists (index ∷ []) (codes "/a")
      (codes "text/plain") none 7 8 line_parser line asked [] refl refl

get-export_other_example :
    service_get_export list_strings
      (codes "/")
      (service_export list_strings list_lists (codes "a") none none 8 (some 7) (index ∷ []))
    ≡ service_get_export list_strings (codes "/") (index ∷ [])
get-export_other_example =
    get-export_other list_strings list_lists (codes "a") none none 8 (some 7) (codes "/")
      (index ∷ [])
      (record { differ = (ground arith); unlike = (ground arith); unlike_back = (ground arith) })
      (record { not_star = (ground arith); not_slash_star = (ground arith) })

-- a client that sends nothing
refused_answers_example :
    (pieces : List Recv) × (e : Recv) × All IsPiece pieces
    × IsEnd e
    × (◌≡◌ {A = List Recv} (again ∷ []) (pieces ++ e ∷ []))
    × (service_client_handle list_strings list_lists says refusing_parser (index ∷ []) (again ∷ [])
        ≡ some (errors (errors_at e) ++ error_headers 500 ∷ []))
unfolding request_parse_html read_request refusing_parser
refused_answers_example =
    refused_answers list_strings list_lists says refusing_parser (index ∷ []) (again ∷ [])
      new_request (500 ∷ []) [] refl

silent_client :
    service_client_handle list_strings list_lists says refusing_parser (index ∷ []) (again ∷ [])
    ≡ some (error_headers 500 ∷ error_headers 500 ∷ [])
unfolding request_parse_html read_request service_client_handle
silent_client = refl
