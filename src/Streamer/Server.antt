-- ===== src/Streamer/Server.antt =====
-- librcom/src/streamer.c: what the server's thread does with a connection that it has accepted. The pages
-- of the index are not written out.
use rcom.Rlib.{Strings}
use rcom.Request.{Outcome, Request, returns, waits, undefined}
use rcom.Base.{
  ◌≢◌, pos, negsuc, ℕ, Bool, List, Option, none, some, false, true, [], ◌⊎◌, ◌||◌, ◌≡◌, ◌∷◌, ◌++◌,
  ℤ, if◌then◌else◌, ◌==◌, Bytes, codes,
}

pub data Sent : Type 0 where
  error_headers : ℕ → Sent
  index_html index_json : Sent

-- What the client was sent so far, whether the server closes the socket, and whether it puts the client
-- into its list and starts the client's thread.
pub record Handled : Type 0 where
  pub answers : List Sent
  pub closes : Bool
  pub starts : Bool

-- the headers of an error, or a page, and then `delete_streamer_client` or `close_tcp_socket`
abbrev pub ended : List Sent → Sent → Handled
ended before answer = record { answers = before ++ answer ∷ []; closes = true; starts = false }

-- Whether `streamer_onclient` returns 0, given what the callback returns, none if there is no callback.
abbrev pub streamer_onclient : Option ℤ → Bool
streamer_onclient none = true
streamer_onclient (some (pos n)) = n == 0
streamer_onclient (some (negsuc n)) = false

unfoldable pub streamer_start_stream : Option ℤ → List Sent → Handled
streamer_start_stream onclient before =
    if streamer_onclient onclient
    then record { answers = before; closes = false; starts = true }
    else record { answers = before ++ error_headers 500 ∷ []; closes = false; starts = false }

abbrev pub errors_sent : List ℕ → List Sent
errors_sent [] = []
errors_sent (n ∷ ns) = error_headers n ∷ errors_sent ns

-- which answer fits a request that `request_parse_html` returned with a result
pub data Fits : ℤ → Request → Sent → Type 0 where
  not_read : (v : ℤ) (r : Request) → v ≢ pos 0 → Fits v r (error_headers 500)
  root_page : (r : Request) → r.uri ≡ some (codes "/") → Fits (pos 0) r index_html
  html_page : (r : Request) → r.uri ≡ some (codes "/index.html") → Fits (pos 0) r index_html
  json_page : (r : Request) → r.uri ≡ some (codes "/index.json") → Fits (pos 0) r index_json
  unknown :
      (r : Request)
      → r.uri ≢ some (codes "/")
      → r.uri ≢ some (codes "/index.html")
      → r.uri ≢ some (codes "/index.json")
      → r.uri ≢ some (codes "/stream.html")
      → Fits (pos 0) r (error_headers 400)

module _ (S : Strings) (onclient : Option ℤ) where
  -- the dispatch on the URI
  unfoldable pub route : List Sent → Bytes → Handled
  unfolding streamer_start_stream
  route before uri =
      if S.rstreq uri (codes "/") || S.rstreq uri (codes "/index.html")
      then ended before index_html
      else if S.rstreq uri (codes "/index.json")
      then ended before index_json
      else if S.rstreq uri (codes "/stream.html")
      then streamer_start_stream onclient before
      else ended before (error_headers 400)

  -- One round of `streamer_run_server`, with `streamer_client_parse_request`, on what
  -- `request_parse_html` comes to; none where that waits for ever or is undefined.
  unfoldable pub streamer_run_server : Outcome → Option Handled
  unfolding route
  streamer_run_server waits = none
  streamer_run_server undefined = none
  streamer_run_server (returns (negsuc n) r sent rest) =
      some (ended (errors_sent sent) (error_headers 500))
  streamer_run_server (returns (pos n) r sent rest) =
      if n == 0
      then some (elim r.uri [
        | none ↦ ended (errors_sent sent) (error_headers 400)
        | some uri ↦ route (errors_sent sent) uri
      ])
      else some (ended (errors_sent sent) (error_headers 500))

  -- The request is answered behind what was sent before, and the connection is closed. The answer is a page
  -- just if the request was read and asks for it.
  pub record IsAnswered (before : List Sent) (v : ℤ) (r : Request) (h : Handled) : Type 0 where
    pub answer : Sent
    pub sent : h.answers ≡ before ++ answer ∷ []
    pub fits : Fits v r answer
    pub closed : h.closes ≡ true
    pub idle : h.starts ≡ false

  -- the client gets a thread, which answers it
  pub record IsStarted (before : List Sent) (r : Request) (h : Handled) : Type 0 where
    pub asked : r.uri ≡ some (codes "/stream.html")
    pub accepted : streamer_onclient onclient ≡ true
    pub unanswered : h.answers ≡ before
    pub left_open : h.closes ≡ false
    pub started : h.starts ≡ true

  -- the client is refused and forgotten: its socket stays open for ever
  pub record IsForgotten (before : List Sent) (r : Request) (h : Handled) : Type 0 where
    pub asked : r.uri ≡ some (codes "/stream.html")
    pub refused : streamer_onclient onclient ≡ false
    pub failed : h.answers ≡ before ++ error_headers 500 ∷ []
    pub left_open : h.closes ≡ false
    pub idle : h.starts ≡ false

  -- what a connection may come to
  abbrev pub Settled : List Sent → ℤ → Request → Handled → Type 0
  Settled before v r h = IsAnswered before v r h ⊎ (IsStarted before r h ⊎ IsForgotten before r h)
