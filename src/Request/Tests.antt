-- ===== src/Request/Tests.antt =====
-- librcom/src/request.c: requests that are read, refused or too long, and the theorems on them.
use rcom.Http.{on_headers_complete}
use rcom.Rlib.{list_lists, list_strings}
use rcom.Request.{
  get, split_uri, complete, deliver, execute, round, new_request, deliver_all, read_bytes, Request,
  Call, request_parse_html, read_request, url, header_field, header_value, headers_complete,
  returns,
}
use rcom.Net.{Recv, chunk, shutdown}
use rcom.Request.Samples.{line_parser, refusing_parser}
use rcom.Request.Uri.{uri_parts}
use rcom.Request.Late.{refused_late, IsPiece, IsEnd, errors_at}
use rcom.Base.{pos, ℕ, arith, List, none, some, false, true, [], ◌≡◌, ◌∷◌, ◌++◌, All, refl, codes}

abbrev host : List Call
host = header_field (codes "Host") ∷ header_value (codes "a") ∷ []

-- `/a?b` in two pieces
uri_parts_example :
    (r : Request) × (deliver_all list_strings list_lists false
        (url (47 ∷ 97 ∷ []) ∷ url (63 ∷ 98 ∷ []) ∷ (host ++ headers_complete 1 ∷ []))
        new_request
      ≡ some (true, r))
    × (r.uri ≡ some (47 ∷ 97 ∷ []))
    × (r.arg ≡ some (98 ∷ []))
uri_parts_example =
    uri_parts list_strings list_lists false ((47 ∷ 97 ∷ []) ∷ (63 ∷ 98 ∷ []) ∷ []) host 1
      (47 ∷ 97 ∷ []) (98 ∷ []) (tt, (tt, tt)) refl ((refl, refl), ((refl, refl), tt)) (refl, tt)
      (omega arith)

-- bytes that the parser refuses, and then the end of the stream
refused_late_example :
    (pieces : List Recv) × (e : Recv) × All IsPiece pieces
    × IsEnd e
    × (◌≡◌ {A = List Recv} (chunk 33 (34 ∷ []) ∷ shutdown ∷ []) (pieces ++ e ∷ []))
    × (◌≡◌ {A = List ℕ} [] (errors_at e))
unfolding read_request read_bytes round execute deliver_all refusing_parser
refused_late_example =
    refused_late list_strings list_lists false refusing_parser (chunk 33 (34 ∷ []) ∷ shutdown ∷ [])
      tt new_request {r' = new_request} {sent = []} {rest = []} refl

read_line :
    request_parse_html list_strings list_lists false line_parser (chunk 47 (97 ∷ 10 ∷ []) ∷ [])
    ≡ returns
        (pos 0)
        (record new_request {
          method = get;
          uri = some (47 ∷ 97 ∷ []);
          buffers = none;
          continue_parsing = false;
        })
        []
        []
unfolding request_parse_html read_request read_bytes round execute deliver_all deliver complete
    split_uri line_parser on_headers_complete
read_line = refl
