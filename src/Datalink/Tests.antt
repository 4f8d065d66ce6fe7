-- ===== src/Datalink/Tests.antt =====
-- librcom/src/datalink.c: a link that sends a short text, and the theorems on it.
use rcom.Base.{refl, arith, true, some, pos, [], ◌≡◌, ◌∷◌, ◌↔◌, ℤ, Bytes, codes}
use rcom.Addr.{Addr}
use rcom.Addr.RoundTrip.{IsValid}
use rcom.Data.{new_data, timestamp}
use rcom.Data.Bounds.{new-IsValid}
use rcom.Data.Content.{content}
use rcom.Datalink.{Datalink, Wire, wait_ok, datalink_send_f, datalink_read}
use rcom.Datalink.Delivery.{send_f-read}

abbrev peer : Addr
peer = record { sin_addr = 127; sin_port = 80 }

abbrev other_peer : Addr
other_peer = record { sin_addr = 127; sin_port = 81 }

abbrev wire : Wire
wire = record { sendto = λ sent. true }

abbrev link : Datalink
link = record { remote_addr = some peer; input = new_data; out = new_data; sent = [] }

peer-IsValid : IsValid peer
peer-IsValid = record { addr_bound = omega arith; port_bound = omega arith }

other_peer-IsValid : IsValid other_peer
other_peer-IsValid = record { addr_bound = omega arith; port_bound = omega arith }

send_f-read_example :
    (err : ℤ) × (link' : Datalink) × (b : Bytes) × (datalink_send_f wire link (some (codes "on")) 5
      ≡ some (err, link'))
    × (link'.sent ≡ (peer, b) ∷ [])
    × ((err ≡ pos 0) ↔ (true ≡ true))
    × ((datalink_read link (wait_ok (some b))).1 ≡ true)
    × (content (datalink_read link (wait_ok (some b))).0.input ≡ codes "on")
    × (timestamp (datalink_read link (wait_ok (some b))).0.input ≡ 5)
send_f-read_example =
    send_f-read wire link link peer (codes "on") 5 new-IsValid refl (omega arith) (omega arith)
