-- ===== src/Link/Loop.antt =====
-- messagelink.c: `_messagelink_read`, the loop that waits for a message and answers the control
-- frames meanwhile.
pub mod Rounds
pub mod Fuel
use rcom.Base.{
  negsuc, pos, ℕ, List, Option, none, some, suc, zero, not, [], ◌&&◌, ◌∷◌, length, if◌then◌else◌,
  ◌==◌, ltb, Bytes,
}
use rcom.Data.{c_string}
use rcom.Messagelink.{Frame}
use rcom.Link.{
  Link, Poll, silent, expired, quitting, failure, message, is_opened, ws_continuation, ws_text,
  ws_binary, ws_close, ws_ping, ws_pong, send_pong, owner_close, owner_close_oneway, remote_close,
}

-- How a read comes back: with a value or JSON's null, the link and what is left of the polls. It is
-- `waiting` if it has not come back when the polls run out, and `starved` if its fuel runs out.
pub data Outcome (J : Type 0) : Type 0 where
  waiting : Outcome J
  starved : Outcome J
  done : Option J → Link → List Poll → Outcome J

-- What follows a close that the owner starts.
abbrev pub after_close {ℓ} :
    {A : Type ℓ} → A → Option (Link × List Poll) → (Link → List Poll → A) → A
after_close wait none k = wait
after_close wait (some (link, ps)) k = k link ps

-- The JSON parser is libr's.
module _ {J : Type 0} (json_parse : Bytes → Option J) where
  -- the `switch` on the opcode; `again` is the next round of the loop
  pub on_message : (Link → List Poll → Outcome J) → Link → Frame → Bytes → List Poll → Outcome J
  unfolding send_pong owner_close remote_close
  on_message again link f payload ps =
      if not link.is_client && ltb 0 (length payload) && f.mask == 0
      then after_close waiting (owner_close link 1002 ps) (done none)
      else if f.opcode == ws_text
      then done (json_parse (c_string payload)) link ps
      else if f.opcode == ws_binary
      then after_close waiting (owner_close link 1003 ps) (done none)
      else if f.opcode == ws_close
      then done none (remote_close link payload) ps
      else if f.opcode == ws_continuation
      then after_close waiting (owner_close link 1003 ps) again
      else if f.opcode == ws_ping
      then again (send_pong link payload).1 ps
      else if f.opcode == ws_pong
      then again (record link { pongs = payload ∷ link.pongs }) ps
      else again link ps

  -- the body of the loop: `messagelink_try_read_message`, then the tests on its result
  pub on_poll : (Link → List Poll → Outcome J) → Link → List Poll → Outcome J
  unfolding on_message owner_close_oneway
  on_poll again link [] = waiting
  on_poll again link (silent ∷ ps) = again link ps
  on_poll again link (expired ∷ ps) = again link ps
  on_poll again link (quitting ∷ ps) = done none link (quitting ∷ ps)
  on_poll again link (failure c ∷ ps) = elim c [
    | pos n ↦ again link ps
    | negsuc n ↦
        if n == 0
        then done none (owner_close_oneway link 1011) ps
        else if n == 1
        then done none (owner_close_oneway link 1009) ps
        else done none link ps
  ]
  on_poll again link (message f payload ∷ ps) = on_message again link f payload ps

  -- `_messagelink_read`
  unfoldable pub read : ℕ → Link → List Poll → Outcome J
  unfolding on_poll
  read zero link ps = starved
  read (suc fuel) link ps =
      if is_opened link.state then on_poll (read fuel) link ps else done none link ps
