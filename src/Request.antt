-- ===== src/Request.antt =====
-- librcom/src/request.c: a request to an HTTP server. The HTTP parser is third-party code: a Parser says
-- which calls it makes for the bytes that it is fed. A `membuf_t` is the bytes that it holds, and
-- `membuf_append_zero` adds one to them, which `membuf_len` counts. Memory does not run out, and the
-- application does not quit while a request is read.
pub mod Uri
pub mod Late
pub mod Samples
mod Tests
use rcom.Rlib.{Lists, Strings}
use rcom.Data.{c_string}
use rcom.Net.{Recv, chunk, shutdown, again, broken, leftover}
use rcom.Http.{Header, Reader, new_reader, on_header_field, on_header_value, on_headers_complete}
use rcom.Base.{
  Bool, List, Option, none, some, false, true, not, [], ◌∷◌, ◌++◌, ◌&&◌, ◌-◌, ◌≤◌, if◌then◌else◌,
  ◌==◌, Bytes, ℕ, ℤ, pos, negsuc, length, ltb,
}

pub data Method : Type 0 where
  unsupported get post : Method

-- The buffers of the parsing, which are deleted once the headers are complete.
pub record Buffers : Type 0 where
  pub uri_buffer : Bytes
  pub reader : Reader

pub record Request : Type 0 where
  pub method : Method
  pub uri : Option Bytes
  pub arg : Option Bytes
  pub body : Option Bytes
  pub headers : List Header
  pub buffers : Option Buffers
  pub continue_parsing : Bool

-- `new_request`, with `continue_parsing` as `request_parse_html` sets it
abbrev pub new_request : Request
new_request = record {
  method = unsupported;
  uri = none;
  arg = none;
  body = none;
  headers = [];
  buffers = some (record { uri_buffer = []; reader = new_reader });
  continue_parsing = true;
}

-- the calls of the parser; the number is `p->method`
pub data Call : Type 0 where
  url : Bytes → Call
  header_field : Bytes → Call
  header_value : Bytes → Call
  headers_complete : ℕ → Call
  body_part : Bytes → Call
  message_complete : Call

-- `HTTP_GET` is 1 and `HTTP_POST` is 3 in http_parser.h.
abbrev pub method_of : ℕ → Method
method_of n = if n == 1 then get else if n == 3 then post else unsupported

-- the text up to the first `?`, and what follows it
unfoldable pub split_uri : Bytes → Bytes × Option Bytes
split_uri [] = ([], none)
split_uri (c ∷ s) = let rest = split_uri s in if c == 63 then ([], some s) else (c ∷ rest.0, rest.1)

module _ (S : Strings) (L : Lists Header) (only_headers : Bool) where
  -- `request_on_headers_complete`: whether it returns 0, and the request
  unfoldable pub complete : ℕ → Buffers → Request → Bool × Request
  unfolding split_uri
  complete n b r =
      let stored : Request = record r { headers = on_headers_complete S L b.reader } in
      let text : Bytes = b.uri_buffer ++ 0 ∷ [] in
      let parts = split_uri (c_string text) in
      if ltb 2048 (length text)
      then (false, record stored { buffers = some (record b { uri_buffer = text }) })
      else (
        true,
        record stored {
          uri = some parts.0;
          arg = parts.1;
          buffers = none;
          method = method_of n;
          continue_parsing = (if only_headers then false else r.continue_parsing);
        },
      )

  -- What a call does: whether it returns 0, and the request; none where the C goes to a buffer that is
  -- deleted.
  unfoldable pub deliver : Call → Request → Option (Bool × Request)
  unfolding complete
  deliver (url s) r = elim r.buffers [
    | none ↦ none
    | some b ↦
        some (true, record r { buffers = some (record b { uri_buffer = b.uri_buffer ++ s }) })
  ]
  deliver (header_field s) r = elim r.buffers [
    | none ↦ none
    | some b ↦
        some
          (true, record r { buffers = some (record b { reader = on_header_field S L s b.reader }) })
  ]
  deliver (header_value s) r = elim r.buffers [
    | none ↦ none
    | some b ↦
        some
          (true, record r { buffers = some (record b { reader = on_header_value S L s b.reader }) })
  ]
  deliver (headers_complete n) r = elim r.buffers [ none ↦ none | some b ↦ some (complete n b r) ]
  deliver (body_part s) r =
      some (true, record r { body = some (elim r.body [ none ↦ s | some t ↦ t ++ s ]) })
  deliver message_complete r = some (true, record r { continue_parsing = false })

  -- the calls in their order, up to one that fails
  unfoldable pub deliver_all : List Call → Request → Option (Bool × Request)
  unfolding deliver
  deliver_all [] r = some (true, r)
  deliver_all (c ∷ cs) r = elim (deliver c r) [
    | none ↦ none
    | some (done, r') ↦ elim done [ true ↦ deliver_all cs r' | false ↦ some (false, r') ]
  ]

-- `http_parser_execute` on at most one byte, none at the end of the input: the calls, and the number of
-- bytes that it has parsed; `fail` is what it does after a call that failed.
pub record Parser : Type 1 where
  pub State : Type 0
  pub start : State
  pub feed : State → Bytes → State × List Call × ℕ
  pub fail : State → Bytes → State × ℕ
  pub feed_bound : (s : State) (b : Bytes) → (feed s b).2 ≤ length b
  pub fail_bound : (s : State) (b : Bytes) → (fail s b).1 ≤ length b

-- What `request_parse_html` comes to: its value, the request, the statuses of the errors that it sent,
-- and what it left in the socket.
pub data Outcome : Type 0 where
  returns : ℤ → Request → List ℕ → List Recv → Outcome
  waits undefined : Outcome

pub data Round (State : Type 0) : Type 0 where
  stops : ℤ → Request → Round State
  goes : State → Request → Round State
  crashes : Round State

module _ (S : Strings) (L : Lists Header) (only_headers : Bool) (P : Parser) where
  unfoldable pub execute : P.State → Request → Bytes → Option (P.State × Request × ℕ)
  unfolding deliver_all
  execute st r bytes =
      let (st', calls, n) = P.feed st bytes in
      elim (deliver_all S L only_headers calls r) [
        | none ↦ none
        | some (done, r') ↦
            let (failed, m) = P.fail st' bytes in
            if done then some (st', r', n) else some (failed, r', m)
      ]

  -- the body of the loop, once bytes are received
  unfoldable pub round : P.State → Request → Bytes → Round P.State
  unfolding execute
  round st r bytes = elim (execute st r bytes) [
    | none ↦ crashes
    | some (st', r', parsed) ↦
        if (length bytes == 0) && not r'.continue_parsing
        then stops (pos 0) r'
        else if length bytes == 0
        then stops (negsuc 0) r'
        else if not (parsed == length bytes)
            && not (parsed == length bytes - 1)
            && r'.continue_parsing
        then stops (negsuc 0) r'
        else if r'.continue_parsing
        then goes st' r'
        else stops (pos 0) r'
  ]

  abbrev pub resume : Round P.State → List Recv → (P.State → Request → Outcome) → Outcome
  resume crashes es more = undefined
  resume (stops v r) es more = returns v r [] es
  resume (goes st r) es more = more st r

  -- one byte at a time, as `len` is 1; `more` reads on after these
  unfoldable pub read_bytes :
      (P.State → Request → Outcome) → List Recv → ℕ → Bytes → P.State → Request → Outcome
  read_bytes more es b [] st r = resume (round st r (b ∷ [])) es more
  read_bytes more es b (c ∷ cs) st r =
      resume (round st r (b ∷ [])) (chunk c cs ∷ es) (read_bytes more es c cs)

  unfoldable pub read_request : List Recv → P.State → Request → Outcome
  read_request [] st r = waits
  read_request (chunk b bs ∷ es) st r = read_bytes (read_request es) es b bs st r
  read_request (shutdown ∷ es) st r = resume (round st r []) es (λ _ _. waits)
  read_request (again ∷ es) st r = returns (negsuc 0) r (500 ∷ []) es
  read_request (broken ∷ es) st r = returns (negsuc 0) r (500 ∷ []) es

  unfoldable pub request_parse_html : List Recv → Outcome
  request_parse_html es = read_request es P.start new_request
