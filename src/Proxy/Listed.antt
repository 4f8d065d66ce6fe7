-- ===== src/Proxy/Listed.antt =====
-- librcom/src/proxy.c: the loops of `proxy_handle_update_list` on a list that has what the registry has.
use rcom.Addr.RoundTrip.{addr_eq_same}
use rcom.Registry.Listing.{encode_list}
use rcom.Rlib.{Lists, Strings}
use rcom.Base.{
  suc, length, append_assoc, append-nil, subst, ◌&&◌, All-get, is_some, if_both, some-inj,
  Option-cases, ==_true, ◌==◌, inl, inr, arith, refl, ap, sym, map, All, All-onto, List, Bool,
  Option, none, some, false, true, [], ◌∷◌, ◌++◌, ◌≡◌, ◌≢◌, ◌∙◌, onto,
}
use rcom.Addr.{Inet, Addr}
use rcom.Registry.{registry_select_all, Entry, registry_count, number}
use rcom.Registry.Parse.{EntryObject}
use rcom.Registry.Store.{IsSound, AllSound}
use rcom.Registry.Listing.RoundTrip.{select_all-clone, remote}
use rcom.Proxy.{Proxy, Outside}
use rcom.Proxy.Events.{
  like, list_contains, delete_vanished, insert_all_missing, connect_all, entry_equals, same_addr,
}
use rcom.Proxy.Quiet.{insert_missing-new, add_connection-remote}
use rcom.Proxy.Loops.{Present, Kept, IsRemote}

-- what holds of every element of a list where it stands in it
All_places {ℓ κ} :
    {A : Type ℓ} (P : A → Type κ) (xs ys : List A)
    → ((us vs : List A) (x : A) → xs ++ ys ≡ us ++ x ∷ vs → P x)
    → All P ys
All_places P xs [] f = tt
All_places P xs (y ∷ ys) f = (
  f xs ys y refl,
  All_places P (xs ++ y ∷ []) ys (λ us vs x q. f us vs x (sym (append_assoc xs (y ∷ []) ys) ∙ q)),
)

All-map-some : (P : Entry → Type 0) (es : List Entry) → All P es → Present P (map some es)
All-map-some P [] v = tt
All-map-some P (e ∷ es) v = ((e, refl, v.0), All-map-some P es v.1)

pub Present-all :
    (P : Entry → Type 0) (es : List Entry) → All P es → Present P (onto [] (map some es))
Present-all P es v =
    All-onto (λ o. (e : Entry) × (o ≡ some e) × P e) [] (map some es) tt (All-map-some P es v)

pub all-IsRemote : (es : List Entry) → All IsRemote (map remote es)
all-IsRemote [] = tt
all-IsRemote (e ∷ es) = (refl, all-IsRemote es)

pub cons≢nil {ℓ} : {A : Type ℓ} {x : A} {xs : List A} → (x ∷ xs) ≢ []
cons≢nil {xs = xs} e = let clash : suc (length xs) ≡ 0 = ap length e in omega (arith, clash)

module _ (I : Inet) (S : Strings) (L : Lists Entry) (R : Lists (Option Entry)) where
  -- No entry agrees in its name, topic, type and address with one before it.
  abbrev pub Apart : List Entry → List Entry → Type 0
  Apart seen [] = Unit
  Apart seen (e ∷ es) = (registry_count I S L R (like e) seen ≡ some 0) × Apart (seen ++ e ∷ []) es

  pub insert_all-Apart :
      (seen es : List Entry)
      → AllSound es
      → Apart seen es
      → insert_all_missing I S L R es seen ≡ some (seen ++ es)
  unfolding insert_all_missing
  insert_all-Apart seen [] v a = ap some (sym (append-nil seen))
  insert_all-Apart seen (e ∷ es) v a =
      rw (insert_all_missing, insert_missing-new I S L R e seen a.0 v.0)
        (insert_all-Apart (seen ++ e ∷ []) es v.1 a.1 ∙ ap some (append_assoc seen (e ∷ []) es))

  same_addr-defined :
      (a b : Option Addr)
      → is_some a ≡ true
      → is_some b ≡ true
      → is_some (same_addr I S L R a b) ≡ true
  same_addr-defined none b u v = u
  same_addr-defined (some a) none u v = v
  same_addr-defined (some a) (some b) u v = refl

  same_addr_same : (a : Option Addr) → is_some a ≡ true → same_addr I S L R a a ≡ some true
  same_addr_same none u = absurd (ground (arith, u))
  same_addr_same (some a) u = ap some (addr_eq_same I S a)

  entry_equals-defined :
      (e f : Entry) → IsSound e → IsSound f → is_some (entry_equals I S L R e f) ≡ true
  unfolding entry_equals
  entry_equals-defined e f u v =
      if_both {A = Option Bool} (λ o. is_some o ≡ true)
        (number f.kind == number e.kind && S.rstreq f.name e.name && S.rstreq f.topic e.topic)
        (same_addr-defined f.addr e.addr v.has_addr u.has_addr) refl

  entry_equals_same : (e : Entry) → IsSound e → entry_equals I S L R e e ≡ some true
  unfolding entry_equals
  entry_equals_same e v =
      rw (==_true (number e.kind) (number e.kind) refl, S.rstreq_same e.name, S.rstreq_same e.topic)
        (same_addr_same e.addr v.has_addr)

  contains-here :
      (xs ys : List Entry) (e : Entry)
      → AllSound (xs ++ e ∷ ys)
      → IsSound e
      → list_contains I S L R (xs ++ e ∷ ys) e ≡ some true
  unfolding list_contains
  contains-here [] ys e v w = rw (list_contains, entry_equals_same e w) refl
  contains-here (x ∷ xs) ys e v w = elim (Option-cases (entry_equals I S L R e x)) [
    | inl n ↦ absurd (let d = entry_equals-defined e x w v.0 in ground (arith, d, ap is_some n))
    | inr (true, n) ↦ rw (list_contains, n) refl
    | inr (false, n) ↦ rw (list_contains, n) (contains-here xs ys e v.1 w)
  ]

  pub all_contained :
      (es : List Entry) → AllSound es → All (λ e. list_contains I S L R es e ≡ some true) es
  all_contained es v =
      All_places (λ e. list_contains I S L R es e ≡ some true) [] es
        (λ us vs x q.
          let w : AllSound (us ++ x ∷ vs) = rw q at v in
          rw q (contains-here us vs x w (All-get IsSound us vs x w)))

  pub delete_vanished-none :
      (known es : List Entry) (l : List (Option Entry))
      → Present (λ e. list_contains I S L R known e ≡ some true) l
      → delete_vanished I S L R known l es ≡ some es
  unfolding delete_vanished
  delete_vanished-none known es [] v = refl
  delete_vanished-none known es (none ∷ l) v =
      absurd (let (e, q, w) = v.0 in ground (arith, ap is_some q))
  delete_vanished-none known es (some e ∷ l) v =
      let (f, q, w) = v.0 in
      let here : list_contains I S L R known e ≡ some true =
        ap (list_contains I S L R known) (some-inj q) ∙ w in
      rw (delete_vanished, here) (delete_vanished-none known es l v.1)

  pub empty_list :
      (es : List Entry) (l : List (Option Entry)) (a : List EntryObject)
      → map remote es ≡ []
      → registry_select_all I S L R es ≡ some l
      → encode_list I S l ≡ some a
      → a ≡ []
  unfolding encode_list
  empty_list [] l a n q r =
      let none_selected : l ≡ [] = some-inj (sym q ∙ select_all-clone I S L R []) in
      some-inj (sym (subst (λ k. encode_list I S k ≡ some a) none_selected r))
  empty_list (e ∷ es) l a n q r = absurd (cons≢nil n)

  module _ (W : Outside) where
    pub connect_all-Kept :
        (P : Entry → Type 0) (l : List (Option Entry)) (p : Proxy)
        → Present P l
        → AllSound p.entries
        → All IsRemote p.entries
        → Kept p (connect_all I S L R W l p)
    unfolding connect_all
    connect_all-Kept P [] p k u v = (p, refl, refl)
    connect_all-Kept P (none ∷ l) p k u v =
        absurd (let (e, q, w) = k.0 in ground (arith, ap is_some q))
    connect_all-Kept P (some e ∷ l) p k u v =
        let (p1, q1, r1) = add_connection-remote I S L R W e p u v in
        let (p2, q2, r2) =
          connect_all-Kept P l p1 k.1 (subst AllSound (sym r1) u)
            (subst (All IsRemote) (sym r1) v) in
        (p2, rw (connect_all, q1) q2, r2 ∙ r1)
