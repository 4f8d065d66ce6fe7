-- ===== src/Datahub/Tests.antt =====
-- librcom/src/datahub.c: a hub of two links, one of which fails, and the theorems on it.
use rcom.Data.Bounds.{new-IsValid}
use rcom.Data.Datagram.{datagram-content}
use rcom.Data.Content.{content}
use rcom.Base.{pos, arith, false, refl, true, none, some, [], ◌≡◌, ◌∷◌, ◌==◌, not, Bytes, ℕ}
use rcom.Rlib.{list_strings, list_lists, list_membuf, list_terminated}
use rcom.Addr.{addr_eq, Addr}
use rcom.Addr.Instance.{one_inet}
use rcom.Data.{Data, new_data, datagram}
use rcom.Datalink.{Datalink, Wire}
use rcom.Datahub.{Link, Hub, datahub_find, datahub_broadcast_locked, datahub_read, received}
use rcom.Datahub.Broadcast.{broadcast_locked_lem}
use rcom.Datahub.Reading.{read_redirects}
use rcom.Datahub.Texts.{Sender, datahub_broadcast_str}
use rcom.Datahub.Delivered.{datahub_broadcast_str-read, after}
use rcom.Datalink.Delivery.{Arrives}
use rcom.Util.Escape.{read_string}

abbrev at_port : ℕ → Addr
at_port n = record { sin_addr = 127; sin_port = n }

abbrev left : Link
left = record { pointer = 1; addr = at_port 80 }

abbrev right : Link
right = record { pointer = 2; addr = at_port 81 }

abbrev hub : Hub
hub = record { links = left ∷ right ∷ []; input = new_data; sent = [] }

-- no packet goes to port 80
abbrev wire : Wire
wire = record { sendto = λ sent. elim sent [ [] ↦ true | ◌∷◌ s l ↦ not (s.0.sin_port == 80) ] }

abbrev empty_datagram : Bytes
empty_datagram = 0 ∷ 0 ∷ 0 ∷ 0 ∷ 0 ∷ 0 ∷ 0 ∷ 0 ∷ 0 ∷ 0 ∷ 0 ∷ 0 ∷ []

new_datagram : datagram new_data ≡ some empty_datagram
unfolding new_data content
new_datagram = (datagram-content 0 new-IsValid refl).0

unlisted : datahub_find one_inet list_strings (at_port 82) hub.links ≡ none
unfolding datahub_find addr_eq
unlisted = refl

broadcast_locked_lem_example :
    datahub_broadcast_locked wire list_lists hub none new_data none
    ≡ some (record hub {
      links = right ∷ [];
      sent = (at_port 81, empty_datagram) ∷ (at_port 80, empty_datagram) ∷ [];
    })
broadcast_locked_lem_example =
    broadcast_locked_lem wire none empty_datagram list_lists hub new_data none new_datagram
      ((refl, tt), (tt, tt))

read_redirects_example :
    (hub' : Hub) × (datahub_broadcast_locked wire list_lists
        (datahub_read list_lists
          (record { links = left ∷ []; input = new_data; sent = [] })
          (received (at_port 90) [] ∷ [])).hub
        none
        new_data
        none
      ≡ some hub')
    × (hub'.sent ≡ (at_port 90, empty_datagram) ∷ [])
read_redirects_example =
    read_redirects list_lists wire left new_data new_data [] (at_port 90) [] empty_datagram
      new_datagram

abbrev sender : Sender
sender = record { hub = hub; output = new_data }

datahub_broadcast_str-read_example :
    (b : Bytes) × (out : Data) × (text : Bytes) × (datahub_broadcast_str wire list_lists list_membuf
        list_terminated sender
        (some 1)
        []
        (34 ∷ 10 ∷ [])
        5
      ≡ some (pos 0, after wire list_lists (some 1) b hub out))
    × ((other : Datalink) → Arrives b (34 ∷ text) 5 other)
    × (read_string false text ≡ some (34 ∷ 10 ∷ [], []))
unfolding rcom.Util.escape_string
datahub_broadcast_str-read_example =
    datahub_broadcast_str-read wire list_lists list_membuf list_terminated sender (some 1) []
      (34 ∷ 10 ∷ []) 5 refl (refl, (refl, tt)) new-IsValid ((refl, tt), (tt, tt)) (omega arith)
      (omega arith)
