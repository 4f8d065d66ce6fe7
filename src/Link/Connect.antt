-- ===== src/Link/Connect.antt =====
-- librcom/src/messagelink.c: client_messagelink_connect. Whether the socket can be connected, and whether
-- the handshake succeeds on it, are arguments; Handshake has the latter.
use rcom.Addr.{Addr, Inet, addr_eq}
use rcom.Rlib.{Strings}
use rcom.Link.{Link, opened, client_connecting, close_socket, is_opened}
use rcom.Base.{
  arith, ◌⊎◌, ◌≡◌, pos, negsuc, Bool, Option, none, some, not, false, true, ◌&&◌, ℤ, if◌then◌else◌,
}

-- a link with its field `remote_addr`
pub record Client : Type 0 where
  pub link : Link
  pub remote_addr : Option Addr

module _ (I : Inet) (S : Strings) where
  -- `link->remote_addr != NULL && addr_eq(link->remote_addr, addr)`
  abbrev pub is_at : Addr → Option Addr → Bool
  is_at addr none = false
  is_at addr (some a) = addr_eq I S a addr

  -- `link->remote_addr != NULL && !addr_eq(link->remote_addr, addr)`
  abbrev pub is_elsewhere : Addr → Option Addr → Bool
  is_elsewhere addr none = false
  is_elsewhere addr (some a) = not (addr_eq I S a addr)

  -- the two tests that close the connection there was
  unfoldable pub close_old : Link → Option Addr → Addr → Link
  close_old link remote addr =
      let link1 =
        (if is_at addr remote && not (is_opened link.state) then close_socket link else link) in
      if is_elsewhere addr remote then close_socket link1 else link1

  -- `connects` is whether `open_tcp_socket` succeeds, `upgrades` whether
  -- `client_messagelink_open_websocket` returns 0.
  unfoldable pub client_messagelink_connect : Bool → Bool → Client → Addr → ℤ × Client
  unfolding close_old
  client_messagelink_connect connects upgrades c addr =
      let link = record (c.link) { is_client = true } in
      let old = close_old link c.remote_addr addr in
      let connecting = record old { socket = true; state = client_connecting } in
      if is_at addr c.remote_addr && is_opened link.state
      then (negsuc 1, record c { link = link })
      else if not connects
      then (negsuc 0, record c { link = record old { socket = false } })
      else if not upgrades
      then (negsuc 0, record c { link = close_socket connecting })
      else (pos 0, record { link = record connecting { state = opened }; remote_addr = some addr })

  abbrev pub is_some : Option Addr → Bool
  is_some none = false
  is_some (some a) = true

  -- an open link has a socket and knows its address
  abbrev pub IsClient : Client → Type 0
  IsClient c =
      (is_opened c.link.state ≡ false) ⊎ ((c.link.socket ≡ true) × (is_some c.remote_addr ≡ true))

  -- what `client_messagelink_connect` may come to
  abbrev pub Connected : Client → Addr → ℤ × Client → Type 0
  Connected c addr (r, c') =
      ((r ≡ pos 0)
        × (c'.link.state ≡ opened)
        × (c'.link.socket ≡ true)
        × (c'.remote_addr ≡ some addr))
      ⊎ (((r ≡ negsuc 1)
            × (c'.link ≡ record (c.link) { is_client = true })
            × (c'.link.state ≡ opened)
            × (c'.remote_addr ≡ c.remote_addr)
            × (is_at addr c.remote_addr ≡ true))
          ⊎ ((r ≡ negsuc 0)
              × (c'.link.socket ≡ false)
              × (is_opened c'.link.state ≡ false)
              × (c'.remote_addr ≡ c.remote_addr)))

  -- Whether the socket can be connected and whether the handshake succeeds: from a link that has a
  -- socket and an address if it is open, `client_messagelink_connect` returns 0 with a link that is open
  -- to the address, or -2 with the link unchanged but for `is_client`, where it was open to that address
  -- already, or -1 with a link that is not open and has no socket.
  pub connect_lem :
      (connects upgrades : Bool) (c : Client) (addr : Addr)
      → IsClient c
      → Connected c addr (client_messagelink_connect connects upgrades c addr)
        × IsClient (client_messagelink_connect connects upgrades c addr).1
  unfolding client_messagelink_connect close_socket
  connect_lem connects upgrades c addr v = (ground arith, ground arith)
