-- ===== src/Link/Loop/Fuel.antt =====
-- messagelink.c: with more fuel than polls `_messagelink_read` comes back or is waiting.
use rcom.Base.{
  if_both, subst, some-inj, negsuc, pos, inr, inl, arith, refl, Bool, List, Option, none, some, suc,
  zero, not, false, true, [], ◌&&◌, ◌<◌, ◌≤◌, ◌≡◌, ◌∷◌, length, Option-cases, Bool-cases, ◌==◌, ltb,
  Bytes, ℕ,
}
use rcom.Messagelink.{Frame}
use rcom.Link.{
  silent, expired, quitting, failure, message, ws_pong, send_pong, ws_ping, ws_continuation,
  ws_close, ws_binary, send_close, ws_text, is_over, is_opened, wait_close, Poll, owner_close, Link,
}
use rcom.Link.Loop.{after_close, read, Outcome, waiting, starved, done, on_message, on_poll}

abbrev pub is_starved : {J : Type 0} → Outcome J → Bool
is_starved starved = true
is_starved _ = false

-- the result does not say starved
abbrev Fed : {J : Type 0} → Outcome J → Type 0
Fed o = is_starved o ≡ false

length-wait_close : (ps qs : List Poll) → wait_close ps ≡ some qs → length qs ≤ length ps
unfolding wait_close
length-wait_close [] qs e = ground arith
length-wait_close (silent ∷ ps) qs e = ground (arith, length-wait_close ps qs e)
length-wait_close (expired ∷ ps) qs e = ground arith
length-wait_close (quitting ∷ ps) qs e = ground (arith, length-wait_close ps qs e)
length-wait_close (failure c ∷ ps) qs e = ground arith
length-wait_close (message f payload ∷ ps) qs e = elim (Bool-cases (f.opcode == ws_close)) [
  | inl o ↦
      let same : some ps ≡ some qs =
        subst (λ b. elim b [ true ↦ some ps | false ↦ wait_close ps ] ≡ some qs) o e in
      subst (λ q. length q ≤ suc (length ps)) (some-inj same) (omega arith)
  | inr o ↦
      let rest : wait_close ps ≡ some qs =
        subst (λ b. elim b [ true ↦ some ps | false ↦ wait_close ps ] ≡ some qs) o e in
      omega (arith, length-wait_close ps qs rest)
]

abbrev Shorter : List Poll → Option (Link × List Poll) → Type 0
Shorter ps none = Unit
Shorter ps (some (link, qs)) = length qs ≤ length ps

length-owner_close :
    (link : Link) (code : ℕ) (ps : List Poll) → Shorter ps (owner_close link code ps)
unfolding owner_close
length-owner_close link code ps = elim (Bool-cases (is_over link.state)) [
  | inl o ↦ rw o (omega arith)
  | inr o ↦ rw o (elim (Bool-cases (send_close (record link { close_code = code }) code).0) [
    | inl d ↦ rw d (elim (Option-cases (wait_close ps)) [
      | inl w ↦ rw w tt
      | inr (qs, w) ↦ rw w (length-wait_close ps qs w)
    ])
    | inr d ↦ rw d (omega arith)
  ])
]

module _ {J : Type 0} (json_parse : Bytes → Option J) where
  after_close-Fed :
      (again : Link → List Poll → Outcome J) (ps : List Poll) (o : Option (Link × List Poll))
      → ((link : Link) (qs : List Poll) → length qs ≤ length ps → Fed (again link qs))
      → Shorter ps o
      → Fed (after_close waiting o again)
  after_close-Fed again ps none h v = refl
  after_close-Fed again ps (some (link, qs)) h v = h link qs v

  on_message-Fed :
      (again : Link → List Poll → Outcome J) (link : Link) (f : Frame) (payload : Bytes)
      (ps : List Poll)
      → ((link : Link) (qs : List Poll) → length qs ≤ length ps → Fed (again link qs))
      → Fed (on_message json_parse again link f payload ps)
  unfolding on_message
  on_message-Fed again link f payload ps h =
      let shut : (code : ℕ) → Fed (after_close waiting (owner_close link code ps) (done none)) =
        (λ code.
          after_close-Fed (done none) ps (owner_close link code ps) (λ l q w. refl)
            (length-owner_close link code ps)) in
      let cont =
        after_close-Fed again ps (owner_close link 1003 ps) h (length-owner_close link 1003 ps) in
      if_both Fed (not link.is_client && ltb 0 (length payload) && f.mask == 0) (shut 1002) (
        if_both Fed (f.opcode == ws_text) refl (
          if_both Fed (f.opcode == ws_binary) (shut 1003) (
            if_both Fed (f.opcode == ws_close) refl (
              if_both Fed (f.opcode == ws_continuation) cont (
                if_both Fed (f.opcode == ws_ping) (h (send_pong link payload).1 ps (omega arith)) (
                  if_both Fed (f.opcode == ws_pong)
                    (h (record link { pongs = payload ∷ link.pongs }) ps (omega arith))
                    (h link ps (omega arith))))))))

  on_poll-Fed :
      (again : Link → List Poll → Outcome J) (link : Link) (ps : List Poll)
      → ((link : Link) (qs : List Poll) → length qs < length ps → Fed (again link qs))
      → Fed (on_poll json_parse again link ps)
  unfolding on_poll
  on_poll-Fed again link [] h = refl
  on_poll-Fed again link (silent ∷ ps) h = h link ps (omega arith)
  on_poll-Fed again link (expired ∷ ps) h = h link ps (omega arith)
  on_poll-Fed again link (quitting ∷ ps) h = refl
  on_poll-Fed again link (failure (pos n) ∷ ps) h = h link ps (omega arith)
  on_poll-Fed again link (failure (negsuc n) ∷ ps) h =
      if_both Fed (n == 0) refl (if_both Fed (n == 1) refl refl)
  on_poll-Fed again link (message f payload ∷ ps) h =
      on_message-Fed again link f payload ps (λ l qs w. h l qs (omega arith))

  -- A read whose fuel is more than the number of polls does not run out of it.
  pub read-Fed :
      (fuel : ℕ) (link : Link) (ps : List Poll)
      → length ps < fuel
      → is_starved (read json_parse fuel link ps) ≡ false
  unfolding read
  read-Fed zero link ps l = absurd (omega arith)
  read-Fed (suc fuel) link ps l =
      if_both Fed (is_opened link.state)
        (on_poll-Fed (read json_parse fuel) link ps (λ k qs w. read-Fed fuel k qs (omega arith)))
        refl
