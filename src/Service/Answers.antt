-- ===== src/Service/Answers.antt =====
-- librcom/src/service.c: what a client of a service is sent.
use rcom.Response.{new_response, response_set_mimetype}
use rcom.Net.{Recv}
use rcom.Http.{Header}
use rcom.Service.{
  service_export, errors, service_get_export, Answer, export_callback, answer,
  service_client_handle, Callbacks, error_headers, response, Export,
}
use rcom.Rlib.{Lists, Strings}
use rcom.Request.{new_request, Request, Parser, request_parse_html, returns}
use rcom.Request.Late.{refused_late, IsPiece, IsEnd, errors_at}
use rcom.Service.Routes.{get-export}
use rcom.Base.{
  pos, negsuc, ℕ, arith, ap, List, Option, some, false, [], ◌∙◌, ◌≡◌, ◌∷◌, ◌++◌, All, Bytes,
}

module _ (S : Strings) (L : Lists Header) (run : Callbacks) where
  answer_found :
      (es : List Export) (request : Request) (uri mimetype : Bytes) (f userdata : ℕ) (e : Export)
      → request.uri ≡ some uri
      → service_get_export S uri es ≡ some e
      → e.mimetype_out ≡ some mimetype
      → e.userdata ≡ userdata
      → e.onrequest ≡ some f
      → answer S L run es request
        ≡ some (
            response
              (run f userdata request (response_set_mimetype S L (new_response 200) mimetype)))
  unfolding answer export_callback
  answer_found es request uri mimetype f userdata e u g m d c = ground arith

  parsed :
      (P : Parser) (es : List Export) (events : List Recv) (request : Request) (rest : List Recv)
      {a : Answer}
      → request_parse_html S L false P events ≡ returns (pos 0) request [] rest
      → answer S L run es request ≡ some a
      → service_client_handle S L run P es events ≡ some (a ∷ [])
  unfolding service_client_handle
  parsed P es events request rest h k = ground arith

  -- Whatever was exported before: once a name is exported with a type and a callback, a client whose
  -- request is read and has this name as its URI is sent one response, which the callback has made, with
  -- its data, from the request and a response of status 200 with that type.
  pub handle-export :
      (E : Lists Export) (es : List Export) (name mimetype : Bytes) (mimetype_in : Option Bytes)
      (f userdata : ℕ) (P : Parser) (events : List Recv) (request : Request) (rest : List Recv)
      → request_parse_html S L false P events ≡ returns (pos 0) request [] rest
      → request.uri ≡ some name
      → service_client_handle S L run P
          (service_export S E name mimetype_in (some mimetype) userdata (some f) es)
          events
        ≡ some (
            response
              (run f userdata request (response_set_mimetype S L (new_response 200) mimetype))
            ∷ [])
  handle-export E es name mimetype mimetype_in f userdata P events request rest read uri =
      let (e, found, (_, m, d, c)) =
        get-export S E name mimetype_in (some mimetype) userdata (some f) es in
      parsed P (service_export S E name mimetype_in (some mimetype) userdata (some f) es) events
        request rest read
        (answer_found (service_export S E name mimetype_in (some mimetype) userdata (some f) es)
          request name mimetype f userdata e uri found m d c)

  refused :
      (P : Parser) (es : List Export) (events : List Recv) (request : Request) (sent : List ℕ)
      (rest : List Recv)
      → request_parse_html S L false P events ≡ returns (negsuc 0) request sent rest
      → service_client_handle S L run P es events ≡ some (errors sent ++ error_headers 500 ∷ [])
  unfolding service_client_handle
  refused P es events request sent rest h = ground arith

  -- Where a request is refused, `recv` has failed or the stream has ended, after pieces that were read
  -- whole. If `recv` has failed, also by a timeout, the client is sent the headers of error 500 twice,
  -- and once if the stream has ended.
  pub refused_answers :
      (P : Parser) (es : List Export) (events : List Recv) (request : Request) (sent : List ℕ)
      (rest : List Recv)
      → request_parse_html S L false P events ≡ returns (negsuc 0) request sent rest
      → (pieces : List Recv) × (e : Recv) × All IsPiece pieces
        × IsEnd e
        × (events ≡ pieces ++ e ∷ rest)
        × (service_client_handle S L run P es events
            ≡ some (errors (errors_at e) ++ error_headers 500 ∷ []))
  unfolding request_parse_html
  refused_answers P es events request sent rest h =
      let (pieces, e, all, end, same, answered) =
        refused_late S L false P events P.start new_request h in
      (
        pieces,
        e,
        all,
        end,
        same,
        refused P es events request sent rest h
            ∙ ap (λ t. some (errors t ++ error_headers 500 ∷ [])) answered,
      )
