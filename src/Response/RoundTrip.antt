-- ===== src/Response/RoundTrip.antt =====
-- librcom/src/http.c: what the text of a response tells a reader.
use rcom.Http.{Header}
use rcom.Addr.{split_at}
use rcom.Response.{Response, http_status_string, crlf, colon}
use rcom.Base.{
  ◌||◌, leb, ℕ, not, codes, Bool, List, Option, none, some, false, true, [], ◌&&◌, ◌≡◌, ◌++◌, map,
  All, length, if◌then◌else◌, ◌==◌, Bytes, refl, ◌∷◌,
}

-- A reader of the head of an HTTP message: the lines up to the empty one, and the rest. A line ends at a
-- line feed, with a carriage return before it or, as `http_parser.c` has it, without. The Boolean value
-- is whether a carriage return comes before, behind which nothing but a line feed may stand.
abbrev add_line : Bytes → Option (List Bytes × Bytes) → Option (List Bytes × Bytes)
add_line line none = none
add_line line (some (ls, s)) = some (line ∷ ls, s)

pub read_lines : Bool → Bytes → Bytes → Option (List Bytes × Bytes)
read_lines cr line [] = none
read_lines cr line (c ∷ s) = elim (c == 10) [
  | true ↦ elim (length line == 0) [
    | true ↦ some ([], s)
    | false ↦ add_line line (read_lines false [] s)
  ]
  | false ↦ elim cr [
    | true ↦ none
    | false ↦ read_lines (c == 13) (if c == 13 then line else line ++ c ∷ []) s
  ]
]

abbrev pub is_blank : ℕ → Bool
is_blank c = c == 32 || c == 9

pub skip_blanks : Bytes → Bytes
skip_blanks [] = []
skip_blanks (c ∷ s) = elim (is_blank c) [ true ↦ skip_blanks s | false ↦ c ∷ s ]

-- a header: its name ends at the first colon, and spaces and tabs before its value are skipped
abbrev pub header_of : Bytes → Header
header_of line = elim (split_at 58 line) [
  | none ↦ record { name = line; value = [] }
  | some (name, value) ↦ record { name = name; value = skip_blanks value }
]

-- the status line, the headers and the body
abbrev pub Message : Type 0
Message = Bytes × List Header × Bytes

abbrev pub message_of : Option (List Bytes × Bytes) → Option Message
message_of none = none
message_of (some ([], body)) = none
message_of (some (line ∷ ls, body)) = some (line, map header_of ls, body)

pub read_response : Bytes → Option Message
read_response s = message_of (read_lines false [] s)

-- no carriage return and no line feed
abbrev pub IsLine : Bytes → Type 0
IsLine s = All (λ c. ((c == 13) ≡ false) × ((c == 10) ≡ false)) s

abbrev pub IsName : Bytes → Type 0
IsName s = All (λ c. (leb c 32 ≡ false) × ((c == 58) ≡ false)) s

-- a value, which does not begin with a blank
abbrev pub IsValue : Bytes → Type 0
IsValue s = IsLine s × (skip_blanks s ≡ s)

pub visible-IsValue : (c : ℕ) (s : Bytes) → is_blank c ≡ false → IsLine (c ∷ s) → IsValue (c ∷ s)
unfolding skip_blanks
visible-IsValue c s v w = (w, rw (skip_blanks, v) refl)

abbrev pub IsHeader : Header → Type 0
IsHeader h = IsName h.name × IsValue h.value

abbrev print_lines : List Bytes → Bytes
print_lines [] = crlf
print_lines (l ∷ ls) = l ++ (crlf ++ print_lines ls)

abbrev IsFull : Bytes → Type 0
IsFull l = IsLine l × ((length l == 0) ≡ false)

abbrev line_of : Header → Bytes
line_of h = h.name ++ (colon ++ h.value)

-- Are all these texts lines?
abbrev no_return : Bytes → Bool
no_return [] = true
no_return (c ∷ s) = not (c == 13) && not (c == 10) && no_return s

abbrev all_return_free : List (ℕ × Bytes) → Bool
all_return_free [] = true
all_return_free ((n, s) ∷ cases) = no_return s && all_return_free cases

module _ (decimal : ℕ → Bytes) (r : Response) where
  abbrev pub status_line : Bytes
  status_line = codes "HTTP/1.1 " ++ (decimal r.status ++ 32 ∷ http_status_string r.status)

  -- the headers with the two that every response has
  abbrev pub all_headers : List Header
  all_headers =
      record { name = codes "Content-Length"; value = decimal (length r.body) }
      ∷ record { name = codes "Connection"; value = codes "close" }
      ∷ r.headers
