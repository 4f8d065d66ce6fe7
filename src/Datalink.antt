-- ===== src/Datalink.antt =====
-- librcom/src/datalink.c: the end of a data link, over the packets of librcom/src/data.c. What it
-- sends is a list, the latest first; whether `sendto` takes a packet is a function of that list. The
-- clock, the formatted text and what arrives are arguments. A call is none where the length of a
-- packet is below -PACKET_HEADER.
pub mod Remote
pub mod Delivery
mod Tests
use rcom.Base.{
  Bool, List, Option, none, some, false, true, [], ◌∷◌, ◌&&◌, ℤ, pos, negsuc, if◌then◌else◌, ◌==◌,
  Bytes, ℕ,
}
use rcom.Addr.{Addr, Inet, addr_eq}
use rcom.Rlib.{Strings}
use rcom.Data.{Data, datagram, vprintf, set_timestamp, set_len, udp_read}

-- `sendto`, as whether it succeeds on the latest packet
pub record Wire : Type 0 where
  pub sendto : List (Addr × Bytes) → Bool

-- `remote_addr`, `in` and `out`, with what was sent
pub record Datalink : Type 0 where
  pub remote_addr : Option Addr
  pub input : Data
  pub out : Data
  pub sent : List (Addr × Bytes)

-- `udp_socket_send`
pub udp_socket_send : Wire → List (Addr × Bytes) → Addr → Data → Option (ℤ × List (Addr × Bytes))
udp_socket_send W sent addr packet = elim (datagram packet) [
  | none ↦ none
  | some b ↦
      let sent' = (addr, b) ∷ sent in some (if W.sendto sent' then pos 0 else negsuc 0, sent')
]

module _ (I : Inet) (S : Strings) where
  abbrev same_remote : Option Addr → Option Addr → Bool
  same_remote none none = true
  same_remote none (some b) = false
  same_remote (some a) none = false
  same_remote (some a) (some b) = addr_eq I S a b

  pub datalink_set_remote_addr : Datalink → Option Addr → Datalink
  datalink_set_remote_addr link addr =
      if same_remote link.remote_addr addr then link else record link { remote_addr = addr }

-- what `udp_socket_wait_data` returns, and the datagram if there is one
pub data Arrival : Type 0 where
  wait_timeout wait_error : Arrival
  wait_ok : Option Bytes → Arrival

-- The link, and whether the result is its input rather than NULL.
pub datalink_read : Datalink → Arrival → Datalink × Bool
datalink_read link wait_timeout = (link, false)
datalink_read link wait_error = (link, false)
datalink_read link (wait_ok none) = (record link { input = (udp_read link.input none).1 }, false)
datalink_read link (wait_ok (some b)) =
    (record link { input = (udp_read link.input (some b)).1 }, true)

module _ (W : Wire) where
  abbrev with_sent : Datalink → Option (ℤ × List (Addr × Bytes)) → Option (ℤ × Datalink)
  with_sent link none = none
  with_sent link (some (err, sent)) = some (err, record link { sent = sent })

  pub datalink_send : Datalink → Data → Option (ℤ × Datalink)
  unfolding udp_socket_send
  datalink_send link packet = elim link.remote_addr [
    | none ↦ some (pos 0, link)
    | some addr ↦ with_sent link (udp_socket_send W link.sent addr packet)
  ]

  pub datalink_sendto : Datalink → Addr → Data → Option (ℤ × Datalink)
  unfolding udp_socket_send
  datalink_sendto link addr packet = with_sent link (udp_socket_send W link.sent addr packet)

  -- the result of `data_vprintf`
  abbrev formatted : Datalink → ℕ → ℤ × Data → Option (ℤ × Datalink)
  formatted link time (pos n, out) =
      let out' = set_timestamp out time in
      if n == 0
      then datalink_send (record link { out = out' }) out'
      else some (pos n, record link { out = out })
  formatted link time (negsuc n, out) = some (negsuc n, record link { out = out })

  -- `datalink_send_f`, given what is formatted and the time
  pub datalink_send_f : Datalink → Option Bytes → ℕ → Option (ℤ × Datalink)
  datalink_send_f link text time = formatted link time (vprintf link.out text)

  -- the reply of the client, if it has a length
  abbrev reply : Datalink → ℤ → Option (ℤ × Datalink)
  reply link (pos n) = if n == 0 then some (pos 0, link) else datalink_send link link.out
  reply link (negsuc n) = some (pos 0, link)

  -- `ondata` on a link with input, where it is not NULL: what the client writes into the output
  abbrev answered : Option (Data → Data → Data) → ℕ → Datalink × Bool → Option (ℤ × Datalink)
  answered none time (link, got) = some (pos 0, link)
  answered (some f) time (link, false) = some (pos 0, link)
  answered (some f) time (link, true) =
      let out = f link.input (set_len (set_timestamp link.out time) (pos 0)) in
      reply (record link { out = out }) out.len

  -- one turn of the loop of `datalink_run`
  pub datalink_handle_input :
      Datalink → Option (Data → Data → Data) → ℕ → Arrival → Option (ℤ × Datalink)
  unfolding datalink_read datalink_send
  datalink_handle_input link ondata time arrival = elim link.remote_addr [
    | none ↦ some (pos 0, link)
    | some addr ↦ answered ondata time (datalink_read link arrival)
  ]
