-- ===== src/Http.antt =====
-- librcom/src/http.c, request.c, response.c and messagelink.c: the headers of an HTTP message. The
-- three files have the same code for the list of the headers and for the calls that the HTTP parser
-- makes on its way through them. A `membuf_t` is the bytes that it holds. Memory does not run out.
pub mod Headers
pub mod Chunks
mod Tests
use rcom.Rlib.{Lists, Strings}
use rcom.Data.{c_string}
use rcom.Base.{
  Bool, List, Option, none, some, false, true, not, [], ◌∷◌, ◌++◌, ◌&&◌, if◌then◌else◌, ◌==◌, Bytes,
  ℕ, length,
}

pub record Header : Type 0 where
  pub name : Bytes
  pub value : Bytes

pub data HeaderState : Type 0 where
  k_header_new k_header_field k_header_value : HeaderState

-- `headers`, `parser_header_state`, `header_name` and `header_value`
pub record Reader : Type 0 where
  pub headers : List Header
  pub state : HeaderState
  pub header_name : Bytes
  pub header_value : Bytes

abbrev pub new_reader : Reader
new_reader = record { headers = []; state = k_header_new; header_name = []; header_value = [] }

module _ (S : Strings) (L : Lists Header) where
  unfoldable pub get_header : Bytes → List Header → Option Header
  get_header key [] = none
  get_header key (h ∷ hs) =
      let rest = get_header key hs in if S.rstreq key h.name then some h else rest

  -- `http_header_set_value` on the header that `get_header` finds
  abbrev pub replace_value : Bytes → Bytes → List Header → List Header
  replace_value key value [] = []
  replace_value key value (h ∷ hs) =
      let rest = replace_value key value hs in
      if S.rstreq key h.name then record h { value = value } ∷ hs else h ∷ rest

  unfoldable pub set_header : Bytes → Bytes → List Header → List Header
  unfolding get_header
  set_header key value hs = elim (get_header key hs) [
    | none ↦ L.list_prepend hs (record { name = key; value = value })
    | some h ↦ replace_value key value hs
  ]

  -- "Store the previous header", where neither of its texts is empty
  unfoldable pub store : Bytes → Bytes → List Header → List Header
  unfolding set_header
  store name value hs =
      if not (length name == 0) && not (length value == 0)
      then set_header (c_string name) (c_string value) hs
      else hs

  -- the branch for a name that begins
  abbrev pub begin_field : Bytes → Reader → Reader
  begin_field bytes r = record {
    headers = store r.header_name r.header_value r.headers;
    state = k_header_field;
    header_name = bytes;
    header_value = [];
  }

  pub on_header_field : Bytes → Reader → Reader
  unfolding store
  on_header_field bytes r = elim r.state [
    | k_header_new ↦ begin_field bytes r
    | k_header_value ↦ begin_field bytes r
    | k_header_field ↦ record r { header_name = r.header_name ++ bytes }
  ]

  pub on_header_value : Bytes → Reader → Reader
  on_header_value bytes r =
      let appended : Reader = record r {
        header_value = r.header_value ++ bytes;
        state = k_header_value;
      } in
      elim r.state [ k_header_new ↦ r | k_header_field ↦ appended | k_header_value ↦ appended ]

  -- the headers once they are complete
  unfoldable pub on_headers_complete : Reader → List Header
  unfolding store
  on_headers_complete r = store r.header_name r.header_value r.headers
