-- ===== src/Service.antt =====
-- librcom/src/service.c and librcom/src/export.c: a server for HTTP requests, the resources that it
-- exports, and the answer to one request. A callback is known by a number. Memory does not run out, and
-- a call is atomic, as the mutex of the exports makes it.
pub mod Routes
pub mod Answers
mod Tests
use rcom.Rlib.{Lists, Strings}
use rcom.Net.{Recv}
use rcom.Http.{Header}
use rcom.Request.{Request, Parser, Outcome, returns, waits, undefined, request_parse_html}
use rcom.Response.{Response, new_response, response_set_status, response_set_mimetype}
use rcom.Base.{
  Bool, List, Option, none, some, false, true, [], ◌∷◌, ◌++◌, ◌||◌, if◌then◌else◌, ◌==◌, Bytes, ℕ,
  ℤ, pos, negsuc, codes,
}

-- `onrequest` is the number of a callback, none for NULL.
pub record Export : Type 0 where
  pub name : Bytes
  pub mimetype_in : Option Bytes
  pub mimetype_out : Option Bytes
  pub userdata : ℕ
  pub onrequest : Option ℕ

-- `name + 1` where `name[0] == '/'`
abbrev pub behind_slash : Bytes → Option Bytes
behind_slash [] = none
behind_slash (c ∷ s) = if c == 47 then some s else none

-- `new_export` and `export_set_onrequest`
abbrev pub new_export : Bytes → Option Bytes → Option Bytes → ℕ → Option ℕ → Export
new_export name mimetype_in mimetype_out userdata onrequest = record {
  name = name;
  mimetype_in = mimetype_in;
  mimetype_out = mimetype_out;
  userdata = userdata;
  onrequest = onrequest;
}

abbrev pub export_clone : Export → Export
export_clone e = new_export e.name e.mimetype_in e.mimetype_out e.userdata e.onrequest

-- `export_set_mimetypes` and `export_set_onrequest`
abbrev pub reset : Export → Option Bytes → Option Bytes → ℕ → Option ℕ → Export
reset e mimetype_in mimetype_out userdata onrequest = record e {
  mimetype_in = mimetype_in;
  mimetype_out = mimetype_out;
  userdata = userdata;
  onrequest = onrequest;
}

module _ (S : Strings) where
  unfoldable pub export_matches : Export → Bytes → Bool
  export_matches e name =
      S.rstreq name e.name
      || (elim (behind_slash name) [ none ↦ false | some s ↦ S.rstreq s e.name ])

  -- the first export that passes a test
  abbrev pub first : (Export → Bool) → List Export → Option Export
  first test [] = none
  first test (e ∷ es) = let rest = first test es in if test e then some e else rest

  abbrev pub is_wildcard : Export → Bool
  is_wildcard e = S.rstreq (codes "*") e.name

  -- the first match or, without one, the wildcard
  abbrev pub pick : Option Export → Option Export → Option Export
  pick (some e) wildcard = some (export_clone e)
  pick none (some e) = some (export_clone e)
  pick none none = none

  unfoldable pub service_get_export : Bytes → List Export → Option Export
  service_get_export name es = pick (first (λ e. export_matches e name) es) (first is_wildcard es)

  -- The loop of `service_export`: the exports with the first match set anew, none if nothing matches.
  abbrev pub replace : (Export → Bool) → (Export → Export) → List Export → Option (List Export)
  replace test f [] = none
  replace test f (e ∷ es) =
      let rest = replace test f es in
      if test e then some (f e ∷ es) else elim rest [ none ↦ none | some es' ↦ some (e ∷ es') ]

  unfoldable pub service_export :
      Lists Export → Bytes → Option Bytes → Option Bytes → ℕ → Option ℕ → List Export → List Export
  service_export L name mimetype_in mimetype_out userdata onrequest es =
      elim (replace (λ e. export_matches e name)
        (λ e. reset e mimetype_in mimetype_out userdata onrequest) es) [
          | some es' ↦ es'
          | none ↦ L.list_prepend es (new_export name mimetype_in mimetype_out userdata onrequest)
        ]

-- what a client is sent: the headers of an error, or a response
pub data Answer : Type 0 where
  error_headers : ℕ → Answer
  response : Response → Answer

-- What the callbacks do: the number of the callback, its `userdata`, the request and the response.
abbrev pub Callbacks : Type 0
Callbacks = ℕ → ℕ → Request → Response → Response

unfoldable pub export_callback : Callbacks → Export → Request → Response → Response
export_callback run e request r = elim e.onrequest [
  | none ↦ response_set_status r 500
  | some f ↦ run f e.userdata request r
]

abbrev pub errors : List ℕ → List Answer
errors [] = []
errors (n ∷ ns) = error_headers n ∷ errors ns

module _ (S : Strings) (L : Lists Header) (run : Callbacks) where
  -- The answer to a request that is parsed; none where the type of the answer is NULL, which the header
  -- `Content-Type` would then hold.
  unfoldable pub answer : List Export → Request → Option Answer
  unfolding service_get_export export_callback
  answer es request = elim request.uri [
    | none ↦ some (error_headers 400)
    | some uri ↦ elim (service_get_export S uri es) [
      | none ↦ some (error_headers 400)
      | some e ↦ elim e.mimetype_out [
        | none ↦ none
        | some mimetype ↦ some (
            response (
              export_callback run e request
                (response_set_mimetype S L (new_response 200) mimetype)))
      ]
    ]
  ]

  -- `service_client_handle` on what `recv` will return: all that the client is sent, in its order; none
  -- where the parser waits for ever, or where the behaviour is undefined.
  unfoldable pub service_client_handle : Parser → List Export → List Recv → Option (List Answer)
  unfolding answer
  service_client_handle P es events = elim (request_parse_html S L false P events) [
    | waits ↦ none
    | undefined ↦ none
    | returns v request sent rest ↦ elim v [
      | negsuc n ↦ some (errors sent ++ error_headers 500 ∷ [])
      | pos n ↦
          if n == 0
          then elim (answer es request) [ none ↦ none | some a ↦ some (errors sent ++ a ∷ []) ]
          else some (errors sent ++ error_headers 500 ∷ [])
    ]
  ]
