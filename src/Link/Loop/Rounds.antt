-- ===== src/Link/Loop/Rounds.antt =====
-- messagelink.c: the loop `_messagelink_read` keeps the invariant of a link.
use rcom.Link.Preserve.{remote_close-Inv, owner_close_oneway-Inv, owner_close-Inv, AfterInv}
use rcom.Base.{
  if_both, negsuc, pos, arith, List, Option, none, some, suc, zero, not, [], ◌&&◌, ◌∷◌, length,
  ◌==◌, ltb, Bytes, ℕ,
}
use rcom.Messagelink.{Frame}
use rcom.Link.{
  silent, expired, quitting, failure, message, ws_ping, ws_continuation, ws_close, ws_binary,
  ws_text, ws_pong, owner_close, is_opened, send_pong, Poll, Link,
}
use rcom.Link.Loop.{after_close, on_poll, on_message, read, Outcome, waiting, starved, done}
use rcom.Link.Invariant.{transmit-Inv, Inv}

-- what a read comes back with, if it does
abbrev pub OutcomeInv : {J : Type 0} → Outcome J → Type 0
OutcomeInv waiting = Unit
OutcomeInv starved = Unit
OutcomeInv (done value link ps) = Inv link

module _ {J : Type 0} (json_parse : Bytes → Option J) where
  after_close-Inv :
      (again : Link → List Poll → Outcome J) (o : Option (Link × List Poll))
      → ((link : Link) (ps : List Poll) → Inv link → OutcomeInv (again link ps))
      → AfterInv o
      → OutcomeInv (after_close waiting o again)
  after_close-Inv again none h v = tt
  after_close-Inv again (some (link, ps)) h v = h link ps v

  on_message-Inv :
      (again : Link → List Poll → Outcome J) (link : Link) (f : Frame) (payload : Bytes)
      (ps : List Poll)
      → ((link : Link) (ps : List Poll) → Inv link → OutcomeInv (again link ps))
      → Inv link
      → OutcomeInv (on_message json_parse again link f payload ps)
  unfolding on_message send_pong
  on_message-Inv again link f payload ps h v =
      let shut : (code : ℕ)
          → OutcomeInv (after_close waiting (owner_close link code ps) (done none)) =
        (λ code.
          after_close-Inv (done none) (owner_close link code ps) (λ l q w. w)
            (owner_close-Inv link code ps v)) in
      let cont =
        after_close-Inv again (owner_close link 1003 ps) h (owner_close-Inv link 1003 ps v) in
      let pong-Inv =
        h (send_pong link payload).1 ps (transmit-Inv link ws_pong payload (λ e. omega arith) v) in
      if_both OutcomeInv (not link.is_client && ltb 0 (length payload) && f.mask == 0) (shut 1002) (
        if_both OutcomeInv (f.opcode == ws_text) v (
          if_both OutcomeInv (f.opcode == ws_binary) (shut 1003) (
            if_both OutcomeInv (f.opcode == ws_close) (remote_close-Inv link payload v) (
              if_both OutcomeInv (f.opcode == ws_continuation) cont (
                if_both OutcomeInv (f.opcode == ws_ping) pong-Inv (
                  if_both OutcomeInv (f.opcode == ws_pong)
                    (h (record link { pongs = payload ∷ link.pongs }) ps
                      (record {
                        unclosed = v.unclosed;
                        last = v.last;
                        alive = v.alive;
                        over = v.over;
                      }))
                    (h link ps v)))))))

  on_poll-Inv :
      (again : Link → List Poll → Outcome J) (link : Link) (ps : List Poll)
      → ((link : Link) (ps : List Poll) → Inv link → OutcomeInv (again link ps))
      → Inv link
      → OutcomeInv (on_poll json_parse again link ps)
  unfolding on_poll
  on_poll-Inv again link [] h v = tt
  on_poll-Inv again link (silent ∷ ps) h v = h link ps v
  on_poll-Inv again link (expired ∷ ps) h v = h link ps v
  on_poll-Inv again link (quitting ∷ ps) h v = v
  on_poll-Inv again link (failure (pos n) ∷ ps) h v = h link ps v
  on_poll-Inv again link (failure (negsuc n) ∷ ps) h v =
      if_both OutcomeInv (n == 0) (owner_close_oneway-Inv link 1011 v)
        (if_both OutcomeInv (n == 1) (owner_close_oneway-Inv link 1009 v) v)
  on_poll-Inv again link (message f payload ∷ ps) h v = on_message-Inv again link f payload ps h v

  -- From a link that keeps the invariant, a read that comes back leaves one that does.
  pub read-Inv :
      (fuel : ℕ) (link : Link) (ps : List Poll)
      → Inv link
      → OutcomeInv (read json_parse fuel link ps)
  unfolding read
  read-Inv zero link ps v = tt
  read-Inv (suc fuel) link ps v =
      if_both OutcomeInv (is_opened link.state)
        (on_poll-Inv (read json_parse fuel) link ps (read-Inv fuel) v) v
