-- ===== src/Http/Chunks.antt =====
-- librcom/src/http.c, request.c, response.c and messagelink.c: the pieces in which the parser
-- passes the headers on.
use rcom.Rlib.{Lists, Strings}
use rcom.Base.{arith, refl, ap, List, false, true, [], ◌∷◌, ◌++◌, ◌≡◌, ◌∙◌, Bytes}
use rcom.Http.{
  HeaderState, Header, Reader, k_header_new, k_header_field, k_header_value, new_reader, store,
  on_header_field, on_header_value, on_headers_complete,
}

-- the pieces of the name of a header and of its value, at least one of each
pub record Pieces : Type 0 where
  pub name : Bytes
  pub more_name : List Bytes
  pub value : Bytes
  pub more_value : List Bytes

abbrev pub joined : Bytes → List Bytes → Bytes
joined s [] = s
joined s (t ∷ ts) = joined (s ++ t) ts

module _ (S : Strings) (L : Lists Header) where
  abbrev pub fields : List Bytes → Reader → Reader
  fields [] r = r
  fields (s ∷ ss) r = fields ss (on_header_field S L s r)

  abbrev pub values : List Bytes → Reader → Reader
  values [] r = r
  values (s ∷ ss) r = values ss (on_header_value S L s r)

  -- the calls that the parser makes for headers
  abbrev pub calls : List Pieces → Reader → Reader
  calls [] r = r
  calls (h ∷ hs) r = calls hs (values (h.value ∷ h.more_value) (fields (h.name ∷ h.more_name) r))

  -- each header stored as a whole
  abbrev pub whole : List Pieces → List Header → List Header
  whole [] hs = hs
  whole (h ∷ ps) hs =
      whole ps (store S L (joined h.name h.more_name) (joined h.value h.more_value) hs)

  -- between headers
  abbrev Between : HeaderState → Type 0
  Between k_header_new = Unit
  Between k_header_field = true ≡ false
  Between k_header_value = Unit

  fields_lem :
      (hs : List Header) (name value : Bytes) (ss : List Bytes)
      → fields ss (record {
        headers = hs;
        state = k_header_field;
        header_name = name;
        header_value = value;
      })
        ≡ record {
          headers = hs;
          state = k_header_field;
          header_name = joined name ss;
          header_value = value;
        }
  unfolding on_header_field
  fields_lem hs name value [] = refl
  fields_lem hs name value (s ∷ ss) = fields_lem hs (name ++ s) value ss

  values_lem :
      (hs : List Header) (name value : Bytes) (ss : List Bytes)
      → values ss (record {
        headers = hs;
        state = k_header_value;
        header_name = name;
        header_value = value;
      })
        ≡ record {
          headers = hs;
          state = k_header_value;
          header_name = name;
          header_value = joined value ss;
        }
  unfolding on_header_value
  values_lem hs name value [] = refl
  values_lem hs name value (s ∷ ss) = values_lem hs name (value ++ s) ss

  one_header :
      (h : Pieces) (hs : List Header) (state : HeaderState) (name value : Bytes)
      → Between state
      → values (h.value ∷ h.more_value) (
          fields
            (h.name ∷ h.more_name)
            (record { headers = hs; state = state; header_name = name; header_value = value }))
        ≡ record {
          headers = store S L name value hs;
          state = k_header_value;
          header_name = joined h.name h.more_name;
          header_value = joined h.value h.more_value;
        }
  unfolding on_header_field on_header_value
  one_header h hs k_header_field name value v = absurd (ground (arith, v))
  one_header h hs k_header_new name value v =
      ap (λ r. values h.more_value (on_header_value S L h.value r))
        (fields_lem (store S L name value hs) h.name [] h.more_name)
      ∙ values_lem (store S L name value hs) (joined h.name h.more_name) h.value h.more_value
  one_header h hs k_header_value name value v =
      ap (λ r. values h.more_value (on_header_value S L h.value r))
        (fields_lem (store S L name value hs) h.name [] h.more_name)
      ∙ values_lem (store S L name value hs) (joined h.name h.more_name) h.value h.more_value

  calls_lem :
      (ps : List Pieces) (hs : List Header) (state : HeaderState) (name value : Bytes)
      → Between state
      → on_headers_complete S L (
          calls ps
            (record { headers = hs; state = state; header_name = name; header_value = value }))
        ≡ whole ps (store S L name value hs)
  unfolding on_headers_complete
  calls_lem [] hs state name value v = refl
  calls_lem (h ∷ ps) hs state name value v =
      ap (λ r. on_headers_complete S L (calls ps r)) (one_header h hs state name value v)
      ∙ calls_lem ps (store S L name value hs) k_header_value (joined h.name h.more_name)
          (joined h.value h.more_value) tt

  -- However the parser cuts the names and the values of the headers into pieces, at least one of each,
  -- the headers that are there in the end are those that one gets by storing each name with its value,
  -- in their order.
  pub headers_whole :
      (ps : List Pieces) → on_headers_complete S L (calls ps new_reader) ≡ whole ps []
  unfolding store
  headers_whole ps = calls_lem ps [] k_header_new [] [] tt
