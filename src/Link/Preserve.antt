-- ===== src/Link/Preserve.antt =====
-- messagelink.c: every call keeps the invariant of a link.
use rcom.Base.{
  subst, sym, not, ◌||◌, ℕ, inr, inl, arith, refl, Bool, List, Option, none, some, false, true, [],
  ◌∙◌, ◌≡◌, ◌∷◌, Option-cases, Bool-cases, Bytes,
}
use rcom.Link.{
  ws_text, Link, closed, Poll, is_opened, is_over, ws_close, transmit_by, transmit, send_close,
  send_text, close_socket, wait_close, owner_close, owner_close_oneway, remote_close,
  remote_close_code, close_payload, notify,
}
use rcom.Link.Invariant.{Inv, Log, transmit-Inv, send_close-Inv, close_socket-Inv}

to_Log : {link : Link} → Inv link → Log link
to_Log v = record { unclosed = v.unclosed; last = v.last }

code_Log : (link : Link) (code : ℕ) → Log link → Log (record link { close_code = code })
code_Log link code v = record { unclosed = v.unclosed; last = v.last }

state_Log : (link : Link) → Log link → Log (record link { state = closed })
state_Log link v = record { unclosed = v.unclosed; last = v.last }

-- what a call that may wait leaves, if it comes back
abbrev pub AfterInv : Option (Link × List Poll) → Type 0
AfterInv none = Unit
AfterInv (some (link, ps)) = Inv link

pub owner_close-Inv :
    (link : Link) (code : ℕ) (ps : List Poll) → Inv link → AfterInv (owner_close link code ps)
unfolding owner_close
owner_close-Inv link code ps v =
    let sent-Inv =
      send_close-Inv (record link { close_code = code }) code (code_Log link code (to_Log v))
        v.alive in
    elim (Bool-cases (is_over link.state)) [
      | inl o ↦ rw o v
      | inr o ↦ rw o (elim (Bool-cases (send_close (record link { close_code = code }) code).0) [
        | inl d ↦
            rw d (elim (Option-cases (wait_close ps)) [
              | inl w ↦ rw w tt
              | inr (ps', w) ↦ rw w sent-Inv
            ])
        | inr d ↦ rw d sent-Inv
      ])
    ]

pub owner_close_oneway-Inv :
    (link : Link) (code : ℕ) → Inv link → Inv (owner_close_oneway link code)
unfolding owner_close_oneway
owner_close_oneway-Inv link code v =
    send_close-Inv (record link { state = closed }) code (state_Log link (to_Log v)) refl

notify-Inv : (link : Link) → Inv link → Inv (notify link)
notify-Inv link v = ground arith

socket-transmit_by :
    (sends : List Bool) (link : Link) (opcode : ℕ) (payload : Bytes)
    → (transmit_by sends link opcode payload).1.socket ≡ link.socket
unfolding transmit_by
socket-transmit_by [] link opcode payload = refl
socket-transmit_by (true ∷ later) link opcode payload = refl
socket-transmit_by (false ∷ later) link opcode payload = refl

socket-send_close : (link : Link) (code : ℕ) → (send_close link code).1.socket ≡ link.socket
unfolding send_close transmit
socket-send_close link code =
    ground (arith, socket-transmit_by link.sends link ws_close (close_payload code))

close_socket_live :
    (link : Link)
    → link.socket ≡ true
    → close_socket (record link { state = closed }) ≡ close_socket link
unfolding close_socket
close_socket_live link s = ground arith

pub remote_close-Inv : (link : Link) (payload : Bytes) → Inv link → Inv (remote_close link payload)
unfolding remote_close
remote_close-Inv link payload v =
    let code = remote_close_code payload in
    let coded = record link { close_code = code } in
    elim (Bool-cases (is_opened link.state)) [
      | inl o ↦
          let live : link.socket ≡ true = ground arith in
          let same =
            close_socket_live (send_close coded code).1 (socket-send_close coded code ∙ live) in
          let closed-Inv =
            subst Inv (sym same)
              (send_close-Inv coded code (code_Log link code (to_Log v)) v.alive) in
          rw o (
            notify-Inv (close_socket (record (send_close coded code).1 { state = closed }))
              closed-Inv)
      | inr o ↦
          let closed-Inv =
            close_socket-Inv (record link { state = closed }) (state_Log link (to_Log v)) refl in
          rw o (notify-Inv (close_socket (record link { state = closed })) closed-Inv)
    ]

pub send_text-Inv : (link : Link) (text : Bytes) → Inv link → Inv (send_text link text).1
unfolding send_text
send_text-Inv link text v =
    let sent-Inv = transmit-Inv link ws_text text (λ e. omega arith) v in
    elim (Bool-cases (not link.socket || not (is_opened link.state))) [
      | inl o ↦ rw o v
      | inr o ↦ rw o sent-Inv
    ]
