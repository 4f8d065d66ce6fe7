-- ===== src/Link/Texts.antt =====
-- librcom/src/messagelink.c: the calls that format a text before they send it.
use rcom.Data.{c_string}
use rcom.Rlib.{Membuf, Terminated}
use rcom.Util.{escape_string}
use rcom.Util.Escape.{IsPrintable, read_string, read-escape_string}
use rcom.Link.{transmit_by, transmit, is_opened, Link, send_text, opened, ws_text}
use rcom.Net.{Recv}
use rcom.Net.Stream.{Gives, stream, IsPieces}
use rcom.Messagelink.{Frame, frame_make, read_message}
use rcom.Messagelink.RoundTrip.{read_message-frame_make}
use rcom.Base.{
  subst, not, ◌≤◌, ◌≢◌, length, negsuc, inr, inl, refl, Bool, List, ◌&&◌, drop, Bool-cases, is_zero,
  pos, arith, some, false, true, [], ◌≡◌, ◌∷◌, ◌++◌, ℤ, if◌then◌else◌, Bytes,
}

-- a link on which a text is sent, whether the socket works then, and the link after it
abbrev pub can_send : Link → Bool
can_send link = link.socket && is_opened link.state

abbrev pub works : List Bool → Bool
works [] = true
works (b ∷ bs) = b

abbrev pub after_text : Bytes → Link → Link
after_text text link = record link {
  sends = drop 1 link.sends;
  sent = if works link.sends then (ws_text, text) ∷ link.sent else link.sent;
}

sent_text :
    (link : Link) (text : Bytes) (ss : List Bool)
    → link.sends ≡ ss
    → transmit link ws_text text
      ≡ (if link.socket then (works link.sends, after_text text link) else (false, link))
unfolding transmit transmit_by
sent_text link text [] e = rw (transmit, e) refl
sent_text link text (true ∷ ss) e = rw (transmit, e) refl
sent_text link text (false ∷ ss) e = rw (transmit, e) refl

-- What `send_text` comes to: -2 where the link has no socket or is not open, and otherwise what the
-- socket does.
pub send_text_lem :
    (link : Link) (text : Bytes)
    → send_text link text ≡ (
        if can_send link
        then (if works link.sends then pos 0 else negsuc 0, after_text text link)
        else (negsuc 1, link))
unfolding send_text
send_text_lem link text = elim (Bool-cases link.socket) [
  | inr no_socket ↦ rw (send_text, no_socket) refl
  | inl socket ↦ elim (Bool-cases (is_opened link.state)) [
    | inr not_open ↦ rw (send_text, socket, not_open) refl
    | inl is_open ↦ rw (send_text, sent_text link text link.sends refl, socket, is_open) refl
  ]
]

-- `messagelink_send_num`, `_send_obj`, `_send_f` and `_send_v`, given what the formatting returns and the
-- text that it leaves in `out`
unfoldable pub messagelink_send_printed : Link → ℤ × Bytes → ℤ × Link
messagelink_send_printed link (err, text) = if is_zero err then send_text link text else (err, link)

-- `"\"%s\""`
abbrev pub quoted : Bytes → Bytes
quoted s = 34 ∷ (c_string s ++ 34 ∷ [])

module _ (M : Membuf) (Z : Terminated M) where
  -- `messagelink_send_str`; `empty` is the new buffer of `escape_string`, and `err` what `membuf_printf`
  -- returns
  unfoldable pub messagelink_send_str : Link → M.Buf → ℤ → Bytes → ℤ × Link
  unfolding messagelink_send_printed
  messagelink_send_str link empty err value =
      messagelink_send_printed link (err, quoted (M.bytes (escape_string M Z empty value)))

  -- A string that is sent on an open link whose socket works goes out as one text message, and the other
  -- end, whatever pieces the frame of this message comes in, reads the message and stops behind it: a
  -- quote, and then what a reader of JSON strings reads as this string, up to its first zero, and nothing
  -- more. The string has no control character but tabs and line ends; the text with its quotes has at
  -- most 16 MB, and not 65536 bytes.
  pub send_str-read :
      (link : Link) (empty out buf : M.Buf) (value mask rest : Bytes) (is_client : Bool)
      → (es : List Recv) → link.socket ≡ true
      → link.state ≡ opened
      → link.sends ≡ []
      → link.is_client ≡ not is_client
      → M.bytes empty ≡ []
      → IsPrintable (c_string value)
      → length (quoted (M.bytes (escape_string M Z empty value))) ≤ 16777216
      → length (quoted (M.bytes (escape_string M Z empty value))) ≢ 65536
      → length mask ≡ 4
      → stream es
        ≡ M.bytes (
            frame_make M
              (M.clear out)
              ws_text
              link.is_client
              mask
              (quoted (M.bytes (escape_string M Z empty value))))
          ++ rest
      → IsPieces es
      → (text : Bytes) × (messagelink_send_str link empty (pos 0) value
          ≡ (pos 0, record link { sent = (ws_text, 34 ∷ text) ∷ link.sent }))
        × (frame : Frame) × (buf' : M.Buf) × Gives
            (read_message M is_client buf)
            es
            (frame, buf')
            rest
        × (frame.opcode ≡ ws_text)
        × (M.bytes buf' ≡ 34 ∷ text)
        × (read_string false text ≡ some (c_string value, []))
  unfolding messagelink_send_str send_text
  send_str-read link empty out buf value mask rest is_client es s o f c e v big ne m q p =
      let inside = c_string (M.bytes (escape_string M Z empty value)) in
      let text : Bytes = 34 ∷ (inside ++ 34 ∷ []) in
      let wire =
        subst (λ b. stream es ≡ M.bytes (frame_make M (M.clear out) ws_text b mask text) ++ rest) c
          q in
      let (frame, buf', given, whole, kind, fin, masked) =
        read_message-frame_make M is_client ws_text mask text rest out buf es (omega arith) m big ne
          wire p in
      (
        inside ++ 34 ∷ [],
        ground arith,
        frame,
        buf',
        given,
        kind,
        whole,
        read-escape_string M Z value [] empty e v,
      )
