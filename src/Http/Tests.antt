-- ===== src/Http/Tests.antt =====
-- librcom/src/http.c and request.c: two headers in pieces, and the theorems on them.
use rcom.Rlib.{list_strings, list_lists, same_bytes}
use rcom.Base.{arith, ap, none, some, true, false, List, [], ◌∷◌, ◌≡◌, ◌≢◌, codes}
use rcom.Http.{Header, get_header, set_header, on_headers_complete, new_reader, store}
use rcom.Http.Headers.{get-set_header}
use rcom.Http.Chunks.{Pieces, calls, headers_whole}

abbrev host : Header
host = record { name = codes "Host"; value = codes "a" }

differs : codes "Age" ≢ codes "Host"
differs q = let clash : true ≡ false = ap (same_bytes (codes "Age")) q in ground (arith, clash)

get-set_header_example :
    (get_header list_strings list_lists
        (codes "Host")
        (set_header list_strings list_lists (codes "Host") (codes "b") (host ∷ []))
      ≡ some (record { name = codes "Host"; value = codes "b" }))
    × (get_header list_strings list_lists
          (codes "Age")
          (set_header list_strings list_lists (codes "Host") (codes "b") (host ∷ []))
        ≡ none)
unfolding get_header
get-set_header_example =
    get-set_header list_strings list_lists (codes "Host") (codes "Age") (codes "b") (host ∷ [])
      differs

abbrev in_pieces : List Pieces
in_pieces =
    record { name = codes "Ho"; more_name = codes "st" ∷ []; value = codes "b"; more_value = [] }
    ∷ record { name = codes "Age"; more_name = []; value = codes "1"; more_value = codes "0" ∷ [] }
    ∷ []

headers_whole_example :
    on_headers_complete list_strings list_lists (calls list_strings list_lists in_pieces new_reader)
    ≡ record { name = codes "Age"; value = codes "10" }
      ∷ record { name = codes "Host"; value = codes "b" }
      ∷ []
unfolding store set_header get_header
headers_whole_example = headers_whole list_strings list_lists in_pieces
