-- ===== src/Link/Invariant.antt =====
-- messagelink.c: after a close frame nothing is sent, so that each connection sees one at most.
use rcom.Base.{
  subst, sym, inr, inl, arith, Bool, not, false, ◌&&◌, Bool-cases, ℕ, List, true, [], ◌+◌, ◌≢◌, ◌≡◌,
  ◌∷◌, if◌then◌else◌, ◌==◌, Bytes,
}
use rcom.Link.{
  Link, is_opened, is_over, ws_close, transmit_by, transmit, send_close, close_socket,
  close_payload,
}

-- The close frames among those sent.
abbrev pub closes : List (ℕ × Bytes) → ℕ
closes [] = 0
closes ((opcode, payload) ∷ sent) = (if opcode == ws_close then 1 else 0) + closes sent

-- All but the last frame sent.
abbrev pub behind : List (ℕ × Bytes) → List (ℕ × Bytes)
behind [] = []
behind (x ∷ sent) = sent

-- While the socket is there no close frame went out; whatever went out before the last frame was no
-- close frame; an open link has its socket, and a link that is over has none.
pub record Inv (link : Link) : Type 0 where
  pub unclosed : (if link.socket then closes link.sent else 0) ≡ 0
  pub last : closes (behind link.sent) ≡ 0
  pub alive : (is_opened link.state && not link.socket) ≡ false
  pub over : (is_over link.state && link.socket) ≡ false

transmit_by-Inv :
    (sends : List Bool) (link : Link) (opcode : ℕ) (payload : Bytes)
    → opcode ≢ ws_close
    → link.socket ≡ true
    → Inv link
    → Inv (transmit_by sends link opcode payload).1
unfolding transmit_by
transmit_by-Inv [] link opcode payload ne s v = ground arith
transmit_by-Inv (true ∷ later) link opcode payload ne s v = ground arith
transmit_by-Inv (false ∷ later) link opcode payload ne s v = ground arith

pub transmit-Inv :
    (link : Link) (opcode : ℕ) (payload : Bytes)
    → opcode ≢ ws_close
    → Inv link
    → Inv (transmit link opcode payload).1
unfolding transmit
transmit-Inv link opcode payload ne v = elim (Bool-cases link.socket) [
  | inl s ↦ ground (arith, transmit_by-Inv link.sends link opcode payload ne s v)
  | inr s ↦ ground arith
]

-- What `Inv` says of the frames alone.
pub record Log (link : Link) : Type 0 where
  pub unclosed : (if link.socket then closes link.sent else 0) ≡ 0
  pub last : closes (behind link.sent) ≡ 0

-- A close frame that is sent is the last one, since the socket is closed next.
close_sent-Inv :
    (sends : List Bool) (link : Link) (payload : Bytes)
    → Log link
    → link.socket ≡ true
    → Inv (close_socket (transmit_by sends link ws_close payload).1)
unfolding transmit_by close_socket
close_sent-Inv [] link payload v s = ground arith
close_sent-Inv (true ∷ later) link payload v s = ground arith
close_sent-Inv (false ∷ later) link payload v s = ground arith

transmit_live :
    (link : Link) (opcode : ℕ) (payload : Bytes)
    → link.socket ≡ true
    → transmit link opcode payload ≡ transmit_by link.sends link opcode payload
unfolding transmit
transmit_live link opcode payload s = ground arith

transmit_dead :
    (link : Link) (opcode : ℕ) (payload : Bytes)
    → link.socket ≡ false
    → transmit link opcode payload ≡ (false, link)
unfolding transmit
transmit_dead link opcode payload s = ground arith

close_socket_dead : (link : Link) → link.socket ≡ false → close_socket link ≡ link
unfolding close_socket
close_socket_dead link s = ground arith

-- Sending a close frame and closing the socket, from a link that may hold any state but an open one
-- without a socket.
pub send_close-Inv :
    (link : Link) (code : ℕ)
    → Log link
    → (is_opened link.state && not link.socket) ≡ false
    → Inv (close_socket (send_close link code).1)
unfolding send_close
send_close-Inv link code v a = elim (Bool-cases link.socket) [
  | inl s ↦
      subst (λ q. Inv (close_socket q.1)) (sym (transmit_live link ws_close (close_payload code) s))
        (close_sent-Inv link.sends link (close_payload code) v s)
  | inr s ↦
      subst (λ q. Inv (close_socket q.1)) (sym (transmit_dead link ws_close (close_payload code) s))
        (subst Inv (sym (close_socket_dead link s)) (ground arith))
]

pub close_socket-Inv :
    (link : Link)
    → Log link
    → (is_opened link.state && not link.socket) ≡ false
    → Inv (close_socket link)
unfolding close_socket
close_socket-Inv link v a = elim (Bool-cases link.socket) [
  | inl s ↦ ground arith
  | inr s ↦ ground arith
]
