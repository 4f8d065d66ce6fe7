-- ===== src/Link.antt =====
-- librcom/src/messagelink.c: the state of one connected message link, and the calls that read, send
-- and close. A frame is a message here, which is sent as a whole or
-- not at all: `Messagelink` has its bytes, and Link.Blocks the calls that send those of a text. What `tcp_socket_wait_data`,
-- the clock and `app_quit` tell a link while it waits is a list of polls; what
-- `tcp_socket_send` will return is a list of Booleans, true when it runs out. `onclose` is a count of
-- calls. A call that is still waiting when the polls run out is `waiting`. Calls are atomic: the
-- mutexes of the links and the thread that reads are not modelled.
pub mod Loop
pub mod Invariant
pub mod Preserve
pub mod Closing
pub mod Texts
pub mod Connect
pub mod Blocks
mod Tests
use rcom.Base.{
  pos, negsuc, ℕ, Bool, List, Option, none, some, not, false, true, [], ◌||◌, ◌^◌, ◌%◌, ◌*◌, ◌+◌,
  ◌∷◌, ℤ, if◌then◌else◌, ◌==◌, Bytes,
}
use rcom.Net.{octet, swap16}
use rcom.Messagelink.{Frame}

-- the states, but for WS_OPEN under the names of the source; a closing state other than `closed` is
-- never set
pub data State : Type 0 where
  created client_connecting server_connecting opened : State
  closing close_received finalizing_close closed : State

abbrev pub is_opened : State → Bool
is_opened opened = true
is_opened _ = false

-- `state == WS_CLOSED || state == WS_CLOSING`
abbrev pub is_over : State → Bool
is_over closed = true
is_over closing = true
is_over _ = false

abbrev pub ws_continuation : ℕ
ws_continuation = 0

abbrev pub ws_text : ℕ
ws_text = 1

abbrev pub ws_binary : ℕ
ws_binary = 2

abbrev pub ws_close : ℕ
ws_close = 8

abbrev pub ws_ping : ℕ
ws_ping = 9

abbrev pub ws_pong : ℕ
ws_pong = 10

-- The fields of `messagelink_t` that these calls use, and what went out: the opcodes and payloads
-- of the frames sent, the last one first.
pub record Link : Type 0 where
  pub state : State
  pub close_code : ℕ
  pub is_client : Bool
  pub socket : Bool
  pub has_onclose : Bool
  pub closed_calls : ℕ
  pub pongs : List Bytes
  pub sends : List Bool
  pub sent : List (ℕ × Bytes)

pub data Poll : Type 0 where
  silent : Poll
  expired : Poll
  quitting : Poll
  failure : ℤ → Poll
  message : Frame → Bytes → Poll

-- `frame_make` and `tcp_socket_send`, which fails on an invalid socket.
pub transmit_by : List Bool → Link → ℕ → Bytes → Bool × Link
transmit_by [] link opcode payload = (true, record link { sent = (opcode, payload) ∷ link.sent })
transmit_by (true ∷ later) link opcode payload =
    (true, record link { sends = later; sent = (opcode, payload) ∷ link.sent })
transmit_by (false ∷ later) link opcode payload = (false, record link { sends = later })

pub transmit : Link → ℕ → Bytes → Bool × Link
unfolding transmit_by
transmit link opcode payload =
    if link.socket then transmit_by link.sends link opcode payload else (false, link)

-- the payload of a close frame: `htons(code)`, low byte first
abbrev pub close_payload : ℕ → Bytes
close_payload code = octet (swap16 (code % 2 ^ 16)) 0 ∷ octet (swap16 (code % 2 ^ 16)) 8 ∷ []

-- `messagelink_send_close`
pub send_close : Link → ℕ → Bool × Link
unfolding transmit
send_close link code = transmit link ws_close (close_payload code)

-- `messagelink_send_ping` and `messagelink_send_pong`
unfoldable pub send_ping : Link → Bytes → Bool × Link
unfolding transmit
send_ping link payload = transmit link ws_ping payload

pub send_pong : Link → Bytes → Bool × Link
unfolding transmit
send_pong link payload = transmit link ws_pong payload

-- `messagelink_send_text`, up to its blocks of 1024 bytes: -2 if the link is not open, -1 if the
-- socket fails.
unfoldable pub send_text : Link → Bytes → ℤ × Link
unfolding transmit
send_text link text =
    if not link.socket || not (is_opened link.state)
    then (negsuc 1, link)
    else let (done, link') = transmit link ws_text text in (if done then pos 0 else negsuc 0, link')

-- `messagelink_close_socket`
unfoldable pub close_socket : Link → Link
close_socket link = if link.socket then record link { socket = false; state = closed } else link

-- `owner_messagelink_wait_close`: what is left of the polls. Its return value only picks a warning.
pub wait_close : List Poll → Option (List Poll)
wait_close [] = none
wait_close (silent ∷ ps) = wait_close ps
wait_close (expired ∷ ps) = some ps
wait_close (quitting ∷ ps) = wait_close ps
wait_close (failure c ∷ ps) = some ps
wait_close (message f payload ∷ ps) = elim (f.opcode == ws_close) [
  | true ↦ some ps
  | false ↦ wait_close ps
]

-- `owner_messagelink_close`
pub owner_close : Link → ℕ → List Poll → Option (Link × List Poll)
unfolding send_close close_socket wait_close
owner_close link code ps =
    let (done, link') = send_close (record link { close_code = code }) code in
    if is_over link.state
    then some (link, ps)
    else if done
    then elim (wait_close ps) [ none ↦ none | some ps' ↦ some (close_socket link', ps') ]
    else some (close_socket link', ps)

-- `owner_messagelink_close_oneway`
pub owner_close_oneway : Link → ℕ → Link
unfolding send_close close_socket
owner_close_oneway link code = close_socket (send_close (record link { state = closed }) code).1

-- `remote_messagelink_close_code`
pub remote_close_code : Bytes → ℕ
remote_close_code (b ∷ c ∷ bs) = swap16 (b + c * 2 ^ 8)
remote_close_code _ = 1005

-- the callback `onclose`
abbrev pub notify : Link → Link
notify link =
    if link.has_onclose then record link { closed_calls = link.closed_calls + 1 } else link

-- `remote_messagelink_close`
pub remote_close : Link → Bytes → Link
unfolding send_close close_socket remote_close_code
remote_close link payload =
    let code = remote_close_code payload in
    let link' =
      (if is_opened link.state
        then (send_close (record link { close_code = code }) code).1
        else link) in
    notify (close_socket (record link' { state = closed }))
