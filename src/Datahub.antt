-- ===== src/Datahub.antt =====
-- librcom/src/datahub.c: the links of a data hub, and the packets that it sends to them and reads. A
-- link is an address that lies somewhere: its `pointer` says where, as `list_remove` and the test of
-- what to exclude compare pointers. The client's callbacks do not change the links. What the hub sends
-- is a list, the latest first.
pub mod Links
pub mod Broadcast
pub mod Reading
pub mod Texts
pub mod Delivered
pub mod Sent
mod Tests
use rcom.Base.{
  Bool, List, Option, none, some, false, true, [], ◌∷◌, ◌+◌, ℤ, pos, negsuc, if◌then◌else◌, ◌==◌,
  Bytes, ℕ,
}
use rcom.Addr.{Addr, Inet, addr_eq}
use rcom.Rlib.{Strings, Lists}
use rcom.Data.{Data, set_timestamp, udp_read}
use rcom.Datalink.{Wire, udp_socket_send}

pub record Link : Type 0 where
  pub pointer : ℕ
  pub addr : Addr

-- `links` and `input`, with what was sent
pub record Hub : Type 0 where
  pub links : List Link
  pub input : Data
  pub sent : List (Addr × Bytes)

-- the place of a pointer in the list, counted from `i`
abbrev pub place : ℕ → ℕ → List Link → Option ℕ
place p i [] = none
place p i (l ∷ ls) = let rest = place p (i + 1) ls in if l.pointer == p then some i else rest

-- `list_remove` of a pointer, which may not be in the list
abbrev pub remove_pointer : Lists Link → ℕ → List Link → List Link
remove_pointer L p ls = elim (place p 0 ls) [ none ↦ ls | some i ↦ L.list_remove ls i ]

module _ (I : Inet) (S : Strings) where
  pub datahub_find : Addr → List Link → Option Link
  datahub_find addr [] = none
  datahub_find addr (l ∷ ls) =
      let rest = datahub_find addr ls in if addr_eq I S addr l.addr then some l else rest

  module _ (L : Lists Link) where
    -- `clone` is where `addr_clone` puts the copy
    pub datahub_add_link : ℕ → Hub → Addr → Hub
    unfolding datahub_find
    datahub_add_link clone hub addr = elim (datahub_find addr hub.links) [
      | some a ↦ hub
      | none ↦ record hub {
        links = L.list_append hub.links (record { pointer = clone; addr = addr });
      }
    ]

    pub datahub_remove_link : Hub → Addr → Hub
    unfolding datahub_find
    datahub_remove_link hub addr = elim (datahub_find addr hub.links) [
      | none ↦ hub
      | some a ↦ record hub { links = remove_pointer L a.pointer hub.links }
    ]

-- `data_set_timestamp` if the caller asks for it
abbrev pub stamped : Option ℕ → Data → Data
stamped none packet = packet
stamped (some time) packet = set_timestamp packet time

-- whether a link is the one to exclude
abbrev pub is_excluded : Option ℕ → Link → Bool
is_excluded none l = false
is_excluded (some p) l = l.pointer == p

module _ (W : Wire) (L : Lists Link) where
  -- the result of `udp_socket_send`
  abbrev pub sent_to : Hub → ℕ → Option (ℤ × List (Addr × Bytes)) → Option (ℤ × Hub)
  sent_to hub p none = none
  sent_to hub p (some (pos n, sent)) = some (pos 0, record hub { sent = sent })
  sent_to hub p (some (negsuc n, sent)) =
      some (negsuc 0, record hub { links = remove_pointer L p hub.links; sent = sent })

  -- `datahub_send_locked` of a packet that is not NULL, with the time if it is to be stamped
  pub datahub_send_locked : Hub → Option Link → Data → Option ℕ → Option (ℤ × Hub)
  datahub_send_locked hub none packet time = some (negsuc 0, hub)
  datahub_send_locked hub (some link) packet time =
      sent_to hub link.pointer (udp_socket_send W hub.sent link.addr (stamped time packet))

  -- The first loop of `datahub_broadcast_locked`: the links that failed, the latest first, and what was
  -- sent. None where a packet has a length below -PACKET_HEADER.
  pub broadcast_to :
      Option ℕ
      → Data
      → List Link
      → List Link
      → List (Addr × Bytes)
      → Option (List Link × List (Addr × Bytes))
  broadcast_to exclude packet [] rm sent = some (rm, sent)
  broadcast_to exclude packet (l ∷ ls) rm sent =
      if is_excluded exclude l
      then broadcast_to exclude packet ls rm sent
      else elim (udp_socket_send W sent l.addr packet) [
        | none ↦ none
        | some (pos n, sent') ↦ broadcast_to exclude packet ls rm sent'
        | some (negsuc n, sent') ↦ broadcast_to exclude packet ls (L.list_prepend rm l) sent'
      ]

  -- the second loop
  pub remove_all : List Link → List Link → List Link
  remove_all [] ls = ls
  remove_all (l ∷ rm) ls = remove_all rm (remove_pointer L l.pointer ls)

  pub datahub_broadcast_locked : Hub → Option ℕ → Data → Option ℕ → Option Hub
  unfolding broadcast_to remove_all
  datahub_broadcast_locked hub exclude packet time =
      elim (broadcast_to exclude (stamped time packet) hub.links [] hub.sent) [
        | none ↦ none
        | some (rm, sent) ↦ some (record hub { links = remove_all rm hub.links; sent = sent })
      ]

-- what `recvfrom` gives: -1, or the sender and the datagram
pub data Recv : Type 0 where
  failed : Recv
  received : Addr → Bytes → Recv

-- What `datahub_read` comes to: a state, the calls of `ondata` with the link and the packet, the latest
-- first, and whether the call still waits in `recvfrom`, with the mutex of the hub locked.
pub record Progress : Type 0 where
  pub hub : Hub
  pub calls : List (Link × Data)
  pub waits : Bool

-- `udp_socket_read` stores the sender's address where the link's lies
abbrev pub overwrite : ℕ → Addr → List Link → List Link
overwrite p addr [] = []
overwrite p addr (l ∷ ls) =
    (if l.pointer == p then record l { addr = addr } else l) ∷ overwrite p addr ls

module _ (L : Lists Link) where
  -- The loop of `datahub_read` over the links that are left, with what `recvfrom` gives; it waits where
  -- that is used up.
  pub read_links : List Link → Hub → List (Link × Data) → List Recv → Progress
  read_links [] hub calls rs = record { hub = hub; calls = calls; waits = false }
  read_links (l ∷ ls) hub calls [] = record { hub = hub; calls = calls; waits = true }
  read_links (l ∷ ls) hub calls (failed ∷ rs) =
      read_links ls (record hub { links = remove_pointer L l.pointer hub.links }) calls rs
  read_links (l ∷ ls) hub calls (received addr b ∷ rs) =
      let input = (udp_read hub.input (some b)).1 in
      read_links ls (record hub { links = overwrite l.pointer addr hub.links; input = input })
        ((record l { addr = addr }, input) ∷ calls) rs

  pub datahub_read : Hub → List Recv → Progress
  unfolding read_links
  datahub_read hub rs = read_links hub.links hub [] rs
