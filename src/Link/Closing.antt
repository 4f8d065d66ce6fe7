-- ===== src/Link/Closing.antt =====
-- messagelink.c: the close code on the wire, the echo of a close frame and what follows a close.
use rcom.Base.{
  if_both, inr, inl, ap₂, Bool, List, Bool-cases, arith, ap, refl, false, true, [], ◌∙◌, ◌<◌, ◌^◌,
  ◌+◌, ◌≡◌, ◌∷◌, if◌then◌else◌, Bytes, ℕ,
}
use rcom.Link.{
  is_opened, transmit_by, ws_close, closed, opened, transmit, notify, Link, send_close,
  close_socket, remote_close, remote_close_code, close_payload,
}

-- The code that a close frame was sent with, below 2 ^ 16, is read from its payload.
pub remote_close_code-close_payload :
    (code : ℕ) → code < 2 ^ 16 → remote_close_code (close_payload code) ≡ code
unfolding remote_close_code
remote_close_code-close_payload code l = ground arith

send_close_live :
    (link : Link) (code : ℕ)
    → link.socket ≡ true
    → link.sends ≡ []
    → (send_close link code).1 ≡ record link { sent = (ws_close, close_payload code) ∷ link.sent }
unfolding send_close transmit transmit_by
send_close_live link code s t = rw (s, t) refl

sent-close_socket : (link : Link) → (close_socket link).sent ≡ link.sent
unfolding close_socket
sent-close_socket link = ground arith

sent-notify : (link : Link) → (notify link).sent ≡ link.sent
sent-notify link = ground arith

remote_close_open :
    (link : Link) (payload : Bytes)
    → link.state ≡ opened
    → (remote_close link payload).sent
      ≡ (send_close
          (record link { close_code = remote_close_code payload })
          (remote_close_code payload)).1.sent
unfolding remote_close
remote_close_open link payload o =
    let code = remote_close_code payload in
    let coded = (send_close (record link { close_code = code }) code).1 in
    let oo : is_opened link.state ≡ true = ap is_opened o in
    rw oo (
      sent-notify (close_socket (record coded { state = closed }))
      ∙ sent-close_socket (record coded { state = closed }))

-- An open link whose socket works answers a close frame with one that has the same code, if it is
-- below 2 ^ 16.
pub remote_close_answers :
    (link : Link) (code : ℕ)
    → code < 2 ^ 16
    → link.state ≡ opened
    → link.socket ≡ true
    → link.sends ≡ []
    → (remote_close link (close_payload code)).sent ≡ (ws_close, close_payload code) ∷ link.sent
remote_close_answers link code l o s t =
    remote_close_open link (close_payload code) o
    ∙ (rw (remote_close_code-close_payload code l)
        (ap (λ k. k.sent) (send_close_live (record link { close_code = code }) code s t)))

-- A link after a close frame: closed, without its socket, with one more call of `onclose` if it is set.
pub record Ended (before after : Link) : Type 0 where
  pub state : after.state ≡ closed
  pub socket : after.socket ≡ false
  pub calls : after.closed_calls ≡ before.closed_calls + (if before.has_onclose then 1 else 0)

ended : (link : Link) → Ended link (notify (close_socket (record link { state = closed })))
unfolding close_socket
ended link = elim (Bool-cases link.socket) [
  | inl s ↦ elim (Bool-cases link.has_onclose) [
    | inl o ↦ record { state = rw (s, o) refl; socket = rw (s, o) refl; calls = rw (s, o) refl }
    | inr o ↦ record {
      state = rw (s, o) refl;
      socket = rw (s, o) refl;
      calls = rw (s, o) (omega arith);
    }
  ]
  | inr s ↦ elim (Bool-cases link.has_onclose) [
    | inl o ↦ record { state = rw (s, o) refl; socket = rw (s, o) refl; calls = rw (s, o) refl }
    | inr o ↦ record {
      state = rw (s, o) refl;
      socket = rw (s, o) refl;
      calls = rw (s, o) (omega arith);
    }
  ]
]

calls-transmit_by :
    (sends : List Bool) (link : Link) (opcode : ℕ) (payload : Bytes)
    → let after = (transmit_by sends link opcode payload).1 in
      (after.closed_calls ≡ link.closed_calls) × (after.has_onclose ≡ link.has_onclose)
unfolding transmit_by
calls-transmit_by [] link opcode payload = (refl, refl)
calls-transmit_by (true ∷ later) link opcode payload = (refl, refl)
calls-transmit_by (false ∷ later) link opcode payload = (refl, refl)

calls-send_close :
    (link : Link) (code : ℕ)
    → let after = (send_close link code).1 in
      (after.closed_calls ≡ link.closed_calls) × (after.has_onclose ≡ link.has_onclose)
unfolding send_close transmit
calls-send_close link code =
    if_both {A = Bool × Link}
      (λ r. (r.1.closed_calls ≡ link.closed_calls) × (r.1.has_onclose ≡ link.has_onclose))
      link.socket (calls-transmit_by link.sends link ws_close (close_payload code)) (refl, refl)

-- A close frame, whatever its payload and whatever the link's state, leaves the link closed and
-- without its socket, and `onclose` is called once if it is set.
pub remote_close_ends : (link : Link) (payload : Bytes) → Ended link (remote_close link payload)
unfolding remote_close
remote_close_ends link payload =
    let code = remote_close_code payload in
    elim (Bool-cases (is_opened link.state)) [
      | inl o ↦
          let same = calls-send_close (record link { close_code = code }) code in
          let e = ended (send_close (record link { close_code = code }) code).1 in
          rw o (record {
            state = e.state;
            socket = e.socket;
            calls = e.calls ∙ ap₂ (λ n b. n + (if b then 1 else 0)) same.0 same.1;
          })
      | inr o ↦ rw o (ended link)
    ]
