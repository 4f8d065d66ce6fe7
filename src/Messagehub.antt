-- ===== src/Messagehub.antt =====
-- librcom/src/messagehub.c: the links of a message hub, over the links of Link. A link lies somewhere:
-- its `pointer` says where, as `list_remove` and the test of what to exclude compare pointers. A call
-- is atomic, as the mutex of the links makes it.
pub mod Broadcast
pub mod Life
pub mod Texts
mod Tests
use rcom.Rlib.{Lists}
use rcom.Link.{Link, send_text, send_ping}
use rcom.Base.{
  is_zero, Bool, List, Option, none, some, false, true, [], ◌∷◌, ◌+◌, ◌==◌, ℤ, pos, negsuc,
  if◌then◌else◌, map, Bytes, ℕ,
}

pub record Member : Type 0 where
  pub pointer : ℕ
  pub link : Link

-- `links` and `closed_links`
pub record Hub : Type 0 where
  pub links : List Member
  pub closed_links : List Member

abbrev pub pointers : List Member → List ℕ
pointers ms = map (λ m. m.pointer) ms

-- the place of a pointer, counted from `i`
abbrev pub place : ℕ → ℕ → List ℕ → Option ℕ
place p i [] = none
place p i (q ∷ qs) = let rest = place p (i + 1) qs in if q == p then some i else rest

-- `list_remove` of a pointer, which may not be in the list
abbrev pub remove_member : Lists Member → ℕ → List Member → List Member
remove_member L p ms = elim (place p 0 (pointers ms)) [ none ↦ ms | some i ↦ L.list_remove ms i ]

module _ (L : Lists Member) where
  pub messagehub_add_link : Hub → Member → Hub
  messagehub_add_link hub m = record hub { links = L.list_append hub.links m }

  pub messagehub_remove_link : Hub → Member → Hub
  messagehub_remove_link hub m = record {
    links = remove_member L m.pointer hub.links;
    closed_links = L.list_prepend hub.closed_links m;
  }

-- with the links that are deleted
pub messagehub_delete_closed_links : Hub → Hub × List Member
messagehub_delete_closed_links hub = (record hub { closed_links = [] }, hub.closed_links)

abbrev pub is_excluded : Option ℕ → Member → Bool
is_excluded none m = false
is_excluded (some p) m = m.pointer == p

-- The loop of `messagehub_broadcast_text` with its error so far, over the links that are left: the
-- error and these links.
pub broadcast_from : Option ℕ → Bytes → ℤ → List Member → ℤ × List Member
unfolding send_text
broadcast_from exclude text err [] = (err, [])
broadcast_from exclude text err (m ∷ ms) = elim (is_excluded exclude m) [
  | true ↦ let rest = broadcast_from exclude text err ms in (rest.0, m ∷ rest.1)
  | false ↦
      let (e, link) = send_text m.link text in
      let rest = broadcast_from exclude text (if is_zero e then err else negsuc 0) ms in
      (rest.0, record m { link = link } ∷ rest.1)
]

pub messagehub_broadcast_text : Hub → Option ℕ → Bytes → ℤ × Hub
unfolding broadcast_from
messagehub_broadcast_text hub exclude text =
    let r = broadcast_from exclude text (pos 0) hub.links in (r.0, record hub { links = r.1 })

-- the loop of `messagehub_send_ping`
pub ping_from : Bytes → ℤ → List Member → ℤ × List Member
unfolding send_ping
ping_from payload err [] = (err, [])
ping_from payload err (m ∷ ms) =
    let (done, link) = send_ping m.link payload in
    let rest = ping_from payload (if done then err else negsuc 0) ms in
    (rest.0, record m { link = link } ∷ rest.1)

pub messagehub_send_ping : Hub → Bytes → ℤ × Hub
unfolding ping_from
messagehub_send_ping hub payload =
    let r = ping_from payload (pos 0) hub.links in (r.0, record hub { links = r.1 })
