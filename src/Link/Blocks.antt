-- ===== src/Link/Blocks.antt =====
-- librcom/src/messagelink.c: messagelink_send_text down to its calls of `tcp_socket_send`, which Link takes
-- as one. The mask is an argument.
use rcom.Rlib.{Membuf}
use rcom.Messagelink.{frame_make, frame_make_header, mask_bytes, mask_pos}
use rcom.Messagelink.Mask.{mask_bytes-nil, mask_bytes-append, bytes-frame_append_payload}
use rcom.Link.Texts.{can_send, send_text_lem}
use rcom.Link.{opened, send_text, Link, ws_text, is_opened}
use rcom.Base.{
  ℕ, zero, suc, Bool, true, false, List, [], ◌∷◌, ◌++◌, ◌≡◌, ◌∙◌, ◌⊎◌, inl, inr, not, ◌||◌, ℤ, pos,
  negsuc, if◌then◌else◌, take, drop, length, length-drop, take-append-drop, append_assoc,
  append-nil, ap, sym, refl, subst, Bytes, ◌≤◌, ◌&&◌, ap₂, arith,
}

-- what a call of `tcp_socket_send` comes to: 0, or -1 when it has sent some bytes
pub data Result : Type 0 where
  sends : Result
  fails : ℕ → Result

-- the bytes that went out, the first one first, and what the next calls come to; then all succeed
pub record Wire : Type 0 where
  pub out : Bytes
  pub results : List Result

abbrev pub send_with : List Result → Bytes → Bytes → Bool × Wire
send_with [] out b = (true, record { out = out ++ b; results = [] })
send_with (sends ∷ rs) out b = (true, record { out = out ++ b; results = rs })
send_with (fails k ∷ rs) out b = (false, record { out = out ++ take k b; results = rs })

abbrev pub tcp_socket_send : Wire → Bytes → Bool × Wire
tcp_socket_send w b = send_with w.results w.out b

module _ (masked : Bool) (mask : Bytes) where
  -- the bytes of one block, masked from the position `j`
  abbrev pub block_bytes : ℕ → Bytes → Bytes
  block_bytes j block = if masked then mask_bytes mask j block else block

  -- The loop over the blocks; the number of bytes is fuel enough.
  pub send_blocks : ℕ → Wire → ℕ → Bytes → Bool × Wire
  send_blocks zero w j text = (true, w)
  send_blocks (suc fuel) w j [] = (true, w)
  send_blocks (suc fuel) w j (b ∷ bs) =
      let block = take 1024 (b ∷ bs) in
      let (done, w') = tcp_socket_send w (block_bytes j block) in
      let rest = send_blocks fuel w' (mask_pos j block) (drop 1024 (b ∷ bs)) in
      if done then rest else (false, w')

  pub send_frame : Wire → Bytes → Bool × Wire
  unfolding send_blocks
  send_frame w text =
      let (done, w') = tcp_socket_send w (frame_make_header ws_text masked mask (length text)) in
      let rest = send_blocks (length text) w' 0 text in if done then rest else (false, w')

-- `messagelink_send_text`: -2 if the link is not open, -1 if a call of `tcp_socket_send` fails.
pub messagelink_send_text : Link → Wire → Bytes → Bytes → ℤ × Wire
unfolding send_frame
messagelink_send_text link w mask text =
    if not link.socket || not (is_opened link.state)
    then (negsuc 1, w)
    else let (done, w') = send_frame link.is_client mask w text in
      (if done then pos 0 else negsuc 0, w')

abbrev pub all_send : List Result → Bool
all_send [] = true
all_send (sends ∷ rs) = all_send rs
all_send (fails k ∷ rs) = false

-- The call sends the whole text `b`, or the first part of it, and then one of its calls has failed.
pub record Sends (w : Wire) (b : Bytes) (r : Bool × Wire) : Type 0 where
  pub gone : Bytes
  pub left : Bytes
  pub whole : gone ++ left ≡ b
  pub wire : r.1.out ≡ w.out ++ gone
  pub ended : ((r.0 ≡ true) × (left ≡ [])) ⊎ ((r.0 ≡ false) × (all_send w.results ≡ false))

abbrev then_next : Bool × Wire → (Wire → Bool × Wire) → Bool × Wire
then_next (done, w) next = if done then next w else (false, w)

-- one call, and then others
call-Sends :
    (rs : List Result) (out x y : Bytes) (next : Wire → Bool × Wire)
    → ((w : Wire) → Sends w y (next w))
    → Sends (record { out = out; results = rs }) (x ++ y) (then_next (send_with rs out x) next)
call-Sends [] out x y next h =
    let n = h (record { out = out ++ x; results = [] }) in
    record {
      gone = x ++ n.gone;
      left = n.left;
      whole = append_assoc x n.gone n.left ∙ ap (λ t. x ++ t) n.whole;
      wire = n.wire ∙ append_assoc out x n.gone;
      ended = n.ended;
    }
call-Sends (sends ∷ rs) out x y next h =
    let n = h (record { out = out ++ x; results = rs }) in
    record {
      gone = x ++ n.gone;
      left = n.left;
      whole = append_assoc x n.gone n.left ∙ ap (λ t. x ++ t) n.whole;
      wire = n.wire ∙ append_assoc out x n.gone;
      ended = n.ended;
    }
call-Sends (fails k ∷ rs) out x y next h = record {
  gone = take k x;
  left = drop k x ++ y;
  whole = sym (append_assoc (take k x) (drop k x) y) ∙ ap (λ t. t ++ y) (take-append-drop k x);
  wire = refl;
  ended = inr (refl, refl);
}

nothing-Sends : (w : Wire) (b : Bytes) → b ≡ [] → Sends w b (true, w)
nothing-Sends w b e = record {
  gone = [];
  left = [];
  whole = sym e;
  wire = sym (append-nil w.out);
  ended = inl (refl, refl);
}

no_block : (masked : Bool) (mask : Bytes) (j : ℕ) → block_bytes masked mask j [] ≡ []
no_block true mask j = mask_bytes-nil mask j
no_block false mask j = refl

cut_block :
    (masked : Bool) (mask : Bytes) (j : ℕ) (text : Bytes)
    → block_bytes masked mask j (take 1024 text)
        ++ block_bytes masked mask (mask_pos j (take 1024 text)) (drop 1024 text)
      ≡ block_bytes masked mask j text
cut_block true mask j text =
    sym (mask_bytes-append mask j (take 1024 text) (drop 1024 text))
    ∙ ap (mask_bytes mask j) (take-append-drop 1024 text)
cut_block false mask j text = take-append-drop 1024 text

blocks-Sends :
    (masked : Bool) (mask : Bytes) (fuel : ℕ) (w : Wire) (j : ℕ) (text : Bytes)
    → length text ≤ fuel
    → Sends w (block_bytes masked mask j text) (send_blocks masked mask fuel w j text)
unfolding send_blocks
blocks-Sends masked mask zero w j [] h = nothing-Sends w _ (no_block masked mask j)
blocks-Sends masked mask zero w j (b ∷ bs) h = absurd (omega (arith, h))
blocks-Sends masked mask (suc fuel) w j [] h = nothing-Sends w _ (no_block masked mask j)
blocks-Sends masked mask (suc fuel) w j (b ∷ bs) h =
    let text : Bytes = b ∷ bs in
    let block = take 1024 text in
    let rest = drop 1024 text in
    subst (λ t. Sends w t (send_blocks masked mask (suc fuel) w j text))
      (cut_block masked mask j text)
      (call-Sends w.results w.out (block_bytes masked mask j block)
        (block_bytes masked mask (mask_pos j block) rest)
        (λ w'. send_blocks masked mask fuel w' (mask_pos j block) rest)
        (λ w'.
          blocks-Sends masked mask fuel w' (mask_pos j block) rest
            (omega (arith, h, length-drop 1024 text))))

module _ (M : Membuf) where
  open M use {Buf, bytes, clear, append, bytes-clear, bytes-append}

  frame_bytes :
      (out : Buf) (masked : Bool) (mask text : Bytes)
      → bytes (frame_make M (clear out) ws_text masked mask text)
        ≡ frame_make_header ws_text masked mask (length text) ++ block_bytes masked mask 0 text
  unfolding frame_make
  frame_bytes out masked mask text =
      let header = frame_make_header ws_text masked mask (length text) in
      bytes-frame_append_payload M (append (clear out) header) masked mask text
      ∙ ap (λ t. t ++ block_bytes masked mask 0 text)
          (bytes-append (clear out) header ∙ ap (λ t. t ++ header) (bytes-clear out))

  -- On an open link, `messagelink_send_text` returns 0 when it has sent the whole frame that
  -- `frame_make` makes of the text, or returns -1 when it has sent a first part of it and a call of
  -- `tcp_socket_send` has failed. In the model of links it does the same as one call that succeeds just
  -- if all these did: it returns the same, and the message is sent just if its frame is.
  pub send_text-refines :
      (link : Link) (w : Wire) (out : Buf) (mask text : Bytes)
      → link.socket ≡ true
      → link.state ≡ opened
      → (r : Bool × Wire) × (messagelink_send_text link w mask text
          ≡ (if r.0 then pos 0 else negsuc 0, r.1))
        × Sends w (bytes (frame_make M (clear out) ws_text link.is_client mask text)) r
        × (send_text (record link { sends = r.0 ∷ [] }) text ≡ (
          if r.0 then pos 0 else negsuc 0,
          record link { sends = []; sent = if r.0 then (ws_text, text) ∷ link.sent else link.sent },
        ))
  unfolding messagelink_send_text send_frame
  send_text-refines link w out mask text s o =
      let masked = link.is_client in
      let r = send_frame masked mask w text in
      let is_open : (not link.socket || not (is_opened link.state)) ≡ false =
        ap₂ (λ x y. not x || not (is_opened y)) s o in
      let able : can_send (record link { sends = r.0 ∷ [] }) ≡ true =
        ap₂ (λ x y. x && is_opened y) s o in
      (
        r,
        rw (messagelink_send_text, is_open) refl,
        subst (λ t. Sends w t r) (sym (frame_bytes out masked mask text))
            (call-Sends w.results w.out (frame_make_header ws_text masked mask (length text))
              (block_bytes masked mask 0 text)
              (λ w'. send_blocks masked mask (length text) w' 0 text)
              (λ w'. blocks-Sends masked mask (length text) w' 0 text (omega arith))),
        send_text_lem (record link { sends = r.0 ∷ [] }) text ∙ rw able refl,
      )
