-- ===== src/Request/Uri.antt =====
-- librcom/src/request.c: the URI and the arguments of a request.
use rcom.Data.{c_string}
use rcom.Http.{on_headers_complete, on_header_value, on_header_field, new_reader, Header, Reader}
use rcom.Request.{
  method_of, complete, deliver, new_request, Request, deliver_all, split_uri, Call, url,
  header_field, header_value, headers_complete, body_part, message_complete,
}
use rcom.Rlib.{Lists, Strings, text-snoc_zero}
use rcom.Base.{
  concat, none, ◌≤◌, if◌then◌else◌, append_assoc, append-nil, ℕ, arith, ap, Bool, List, Option,
  some, false, true, [], ◌∙◌, ◌<◌, ◌≡◌, ◌∷◌, ◌++◌, map, All-append, All, length-append, length,
  ◌==◌, ltb, Bytes, refl,
}

-- a text that may stand before the `?`
abbrev pub IsPath : Bytes → Type 0
IsPath u = All (λ c. ((c == 0) ≡ false) × ((c == 63) ≡ false)) u

abbrev pub IsText : Bytes → Type 0
IsText a = All (λ c. (c == 0) ≡ false) a

abbrev pub IsHeaderCall : Call → Type 0
IsHeaderCall (url s) = ⊥
IsHeaderCall (header_field s) = Unit
IsHeaderCall (header_value s) = Unit
IsHeaderCall (headers_complete n) = ⊥
IsHeaderCall (body_part s) = ⊥
IsHeaderCall message_complete = ⊥

split-path : (u a : Bytes) → IsPath u → split_uri (u ++ 63 ∷ a) ≡ (u, some a)
unfolding split_uri
split-path [] a v = refl
split-path (c ∷ u) a v =
    rw v.0.1 (ap (λ (t : Bytes × Option Bytes). (c ∷ t.0, t.1)) (split-path u a v.1))

c_string-text : (t : Bytes) → IsText t → c_string t ≡ t
c_string-text [] v = refl
c_string-text (c ∷ t) v = rw v.0 (ap (λ s. c ∷ s) (c_string-text t v.1))

path-IsText : (u : Bytes) → IsPath u → IsText u
path-IsText [] v = tt
path-IsText (c ∷ u) v = (v.0.0, path-IsText u v.1)

-- the request before the headers are complete
abbrev waiting : Bytes → Reader → Request
waiting text reader = record new_request {
  buffers = some (record { uri_buffer = text; reader = reader });
}

module _ (S : Strings) (L : Lists Header) (only_headers : Bool) where
  urls :
      (ps : List Bytes) (rest : List Call) (text : Bytes) (reader : Reader)
      → deliver_all S L only_headers (map url ps ++ rest) (waiting text reader)
        ≡ deliver_all S L only_headers rest (waiting (text ++ concat ps) reader)
  unfolding deliver_all deliver
  urls [] rest text reader = rw (append-nil text)
  urls (s ∷ ss) rest text reader =
      urls ss rest (text ++ s) reader
      ∙ ap (λ t. deliver_all S L only_headers rest (waiting t reader))
          (append_assoc text s (concat ss))

  header_calls :
      (hs rest : List Call) (text : Bytes) (reader : Reader)
      → All IsHeaderCall hs
      → (reader' : Reader) × (deliver_all S L only_headers (hs ++ rest) (waiting text reader)
          ≡ deliver_all S L only_headers rest (waiting text reader'))
  unfolding deliver_all deliver
  header_calls [] rest text reader v = (reader, refl)
  header_calls (header_field s ∷ hs) rest text reader v =
      header_calls hs rest text (on_header_field S L s reader) v.1
  header_calls (header_value s ∷ hs) rest text reader v =
      header_calls hs rest text (on_header_value S L s reader) v.1
  header_calls (url s ∷ hs) rest text reader v = absurd v.0
  header_calls (headers_complete n ∷ hs) rest text reader v = absurd v.0
  header_calls (body_part s ∷ hs) rest text reader v = absurd v.0
  header_calls (message_complete ∷ hs) rest text reader v = absurd v.0

  before_complete :
      (ps : List Bytes) (hs : List Call) (n : ℕ)
      → All IsHeaderCall hs
      → (reader : Reader) × (deliver_all S L only_headers
            (map url ps ++ (hs ++ headers_complete n ∷ []))
            new_request
          ≡ deliver_all S L only_headers (headers_complete n ∷ []) (waiting (concat ps) reader))
  before_complete ps hs n v =
      let (reader, e) = header_calls hs (headers_complete n ∷ []) (concat ps) new_reader v in
      (reader, urls ps (hs ++ headers_complete n ∷ []) [] new_reader ∙ e)

  abbrev parsed : ℕ → Bytes → Option Bytes → Reader → Request
  parsed n u a reader = record {
    method = method_of n;
    uri = some u;
    arg = a;
    body = none;
    headers = on_headers_complete S L reader;
    buffers = none;
    continue_parsing = (if only_headers then false else true);
  }

  finished :
      (n : ℕ) (text u : Bytes) (a : Option Bytes) (reader : Reader)
      → ltb 2048 (length (text ++ 0 ∷ [])) ≡ false
      → split_uri (c_string (text ++ 0 ∷ [])) ≡ (u, a)
      → deliver_all S L only_headers (headers_complete n ∷ []) (waiting text reader)
        ≡ some (true, parsed n u a reader)
  unfolding deliver_all deliver complete
  finished n text u a reader fits parts = ground arith

  too_long :
      (n : ℕ) (text : Bytes) (reader : Reader)
      → ltb 2048 (length (text ++ 0 ∷ [])) ≡ true
      → (r : Request) × (deliver_all S L only_headers
            (headers_complete n ∷ [])
            (waiting text reader)
          ≡ some (false, r))
        × (r.uri ≡ none)
  unfolding deliver_all deliver complete
  too_long n text reader long = (
    record (waiting (text ++ 0 ∷ []) reader) { headers = on_headers_complete S L reader },
    ground arith,
    refl,
  )

  -- A request line in any pieces, any headers and their end: a URI with arguments, of fewer than 2048
  -- bytes, is split at its first `?` into what `request_uri` and `request_args` return.
  pub uri_parts :
      (ps : List Bytes) (hs : List Call) (n : ℕ) (u a : Bytes)
      → All IsHeaderCall hs
      → concat ps ≡ u ++ 63 ∷ a
      → IsPath u
      → IsText a
      → length (u ++ 63 ∷ a) < 2048
      → (r : Request) × (deliver_all S L only_headers
            (map url ps ++ (hs ++ headers_complete n ∷ []))
            new_request
          ≡ some (true, r))
        × (r.uri ≡ some u)
        × (r.arg ≡ some a)
  uri_parts ps hs n u a v same p q short =
      let (reader, e) = before_complete ps hs n v in
      let text = u ++ 63 ∷ a in
      let fits : ltb 2048 (length (text ++ 0 ∷ [])) ≡ false =
        ground (arith, short, length-append text (0 ∷ [])) in
      let parts : split_uri (c_string (text ++ 0 ∷ [])) ≡ (u, some a) =
        ap split_uri (
          text-snoc_zero text
          ∙ c_string-text text
              (All-append (λ c. (c == 0) ≡ false) u (63 ∷ a) (path-IsText u p) (refl, q)))
        ∙ split-path u a p in
      (
        parsed n u (some a) reader,
        rw e (rw same (finished n text u (some a) reader fits parts)),
        refl,
        refl,
      )

  -- A URI of 2048 bytes or more makes the end of the headers fail, and the request has no URI then.
  pub uri_too_long :
      (ps : List Bytes) (hs : List Call) (n : ℕ)
      → All IsHeaderCall hs
      → 2048 ≤ length (concat ps)
      → (r : Request) × (deliver_all S L only_headers
            (map url ps ++ (hs ++ headers_complete n ∷ []))
            new_request
          ≡ some (false, r))
        × (r.uri ≡ none)
  uri_too_long ps hs n v long =
      let (reader, e) = before_complete ps hs n v in
      let over : ltb 2048 (length (concat ps ++ 0 ∷ [])) ≡ true =
        ground (arith, long, length-append (concat ps) (0 ∷ [])) in
      let (r, f, g) = too_long n (concat ps) reader over in (r, e ∙ f, g)
