-- ===== src/Registry/Select.antt =====
-- librcom/src/registry.c: `registry_count` counts what `registry_select` returns, and that is the
-- matching entries, the last one first.
use rcom.Rlib.{Lists, Strings}
use rcom.Addr.{addr_eq, Addr, Inet}
use rcom.Registry.{
  type_any, number, EntryType, endpoint_matches, type_matches, test_addr, text_matches, clone,
  count_from, select_from, matches, Entry, Query, registry_count, registry_select,
}
use rcom.Base.{
  ◌||◌, Bool-cases, ◌==◌, Bytes, onto, is_some, ◌&&◌, inr, inl, arith, ap, sym, refl, Bool, List,
  Option, none, some, false, true, [], ◌∙◌, ◌≡◌, ◌∷◌, length, Option-cases, if◌then◌else◌, ℕ,
}
use rcom.Registry.Store.{clone_sound, IsSound, AllSound}

-- the number of results
abbrev pub size_of : Option (List (Option Entry)) → Option ℕ
size_of none = none
size_of (some l) = some (length l)

module _ (I : Inet) (S : Strings) (L : Lists Entry) (R : Lists (Option Entry)) where
  count_from-select_from :
      (q : Query) (results : List (Option Entry)) (es : List Entry)
      → count_from I S L R q (length results) es ≡ size_of (select_from I S L R q results es)
  unfolding count_from select_from
  count_from-select_from q results [] = refl
  count_from-select_from q results (e ∷ es) = elim (Option-cases (matches I S L R q e)) [
    | inl o ↦ rw (count_from, select_from, o) refl
    | inr (true, o) ↦
        rw (count_from, select_from, o)
          (ap (λ n. count_from I S L R q n es)
              (sym (ap length (R.prepend_lem results (clone e)) ∙ omega arith))
            ∙ count_from-select_from q (R.list_prepend results (clone e)) es)
    | inr (false, o) ↦ rw (count_from, select_from, o) (count_from-select_from q results es)
  ]

  -- `registry_count` is the number of results of `registry_select`, and reads an address that is not
  -- there just when that does.
  pub count-select :
      (q : Query) (es : List Entry)
      → registry_count I S L R q es ≡ size_of (registry_select I S L R q es)
  unfolding registry_count registry_select
  count-select q es = count_from-select_from q [] es

  -- what a query asks for, one by one: a part that is not given asks for nothing
  abbrev asks_text : Option Bytes → Bytes → Bool
  asks_text none t = true
  asks_text (some s) t = S.rstreq t s

  abbrev asks_kind : EntryType → EntryType → Bool
  asks_kind wanted kind = number wanted == number type_any || number kind == number wanted

  abbrev asks_addr : Option Addr → Option Addr → Bool
  asks_addr none addr = true
  asks_addr (some a) none = false
  asks_addr (some a) (some b) = addr_eq I S b a

  abbrev pub asks_endpoint : Option ℕ → Option ℕ → Bool
  asks_endpoint none e = true
  asks_endpoint (some p) none = false
  asks_endpoint (some p) (some r) = p == r

  -- whether an entry has all that the query asks for
  abbrev pub is_match : Query → Entry → Bool
  is_match q e =
      asks_text q.id e.id
      && asks_kind q.kind e.kind
      && asks_text q.name e.name
      && asks_text q.topic e.topic
      && asks_addr q.addr e.addr
      && asks_endpoint q.endpoint e.endpoint

  -- the matching entries, in the order of the registry
  abbrev pub matching : Query → List Entry → List (Option Entry)
  matching q [] = []
  matching q (e ∷ es) = let rest = matching q es in if is_match q e then some e ∷ rest else rest

  text_asked : (p : Option Bytes) (t : Bytes) → text_matches I S L R p t ≡ asks_text p t
  text_asked none t = refl
  text_asked (some s) t = refl

  kind_asked : (p k : EntryType) → type_matches p k ≡ asks_kind p k
  kind_asked p k = refl

  endpoint_asked : (p e : Option ℕ) → endpoint_matches p e ≡ asks_endpoint p e
  endpoint_asked none e = refl
  endpoint_asked (some p) none = refl
  endpoint_asked (some p) (some r) = refl

  addr_asked :
      (texts rest : Bool) (p o : Option Addr)
      → is_some o ≡ true
      → (if texts then test_addr I S L R p o rest else some false)
        ≡ some (texts && asks_addr p o && rest)
  addr_asked false rest p o v = refl
  addr_asked true rest none o v = refl
  addr_asked true rest (some a) none v = absurd (ground (arith, v))
  addr_asked true rest (some a) (some c) v = refl

  matches-is_match : (q : Query) (e : Entry) → IsSound e → matches I S L R q e ≡ some (is_match q e)
  unfolding matches
  matches-is_match q e v =
      rw
        (
          matches,
          text_asked q.id e.id,
          text_asked q.name e.name,
          text_asked q.topic e.topic,
          kind_asked q.kind e.kind,
          endpoint_asked q.endpoint e.endpoint,
        )
        (addr_asked
            (asks_text q.id e.id
              && asks_kind q.kind e.kind
              && asks_text q.name e.name
              && asks_text q.topic e.topic)
            (asks_endpoint q.endpoint e.endpoint) q.addr e.addr v.has_addr
          ∙ ap some (ground arith))

  select_from_sound :
      (q : Query) (results : List (Option Entry)) (es : List Entry)
      → AllSound es
      → select_from I S L R q results es ≡ some (onto results (matching q es))
  unfolding select_from
  select_from_sound q results [] v = refl
  select_from_sound q results (e ∷ es) v = elim (Bool-cases (is_match q e)) [
    | inl found ↦
        rw
          (
            select_from,
            matches-is_match q e v.0,
            found,
            R.prepend_lem results (clone e),
            clone_sound e v.0,
          )
          (select_from_sound q (some e ∷ results) es v.1)
    | inr other ↦
        rw (select_from, matches-is_match q e v.0, other) (select_from_sound q results es v.1)
  ]

  -- On entries that all have an address and a type, `registry_select` returns copies of those that have
  -- the identifier, the type, the name, the topic, the address and the endpoint that the query asks for,
  -- where it asks for one, the last one first, and no NULL.
  pub select_sound :
      (q : Query) (es : List Entry)
      → AllSound es
      → registry_select I S L R q es ≡ some (onto [] (matching q es))
  unfolding registry_select
  select_sound q es v = select_from_sound q [] es v
