-- ===== src/Messagelink/Faults.antt =====
-- messagelink.c: what becomes of the frames that the other end does not read as they were sent.
use rcom.Base.{
  negsuc, ℕ, arith, refl, Bool, List, some, suc, not, [], ◌∙◌, ◌<◌, ◌^◌, ◌≡◌, ◌∷◌, ◌++◌, length,
  ==_false, ==_true, lt→ltb, Bytes,
}
use rcom.Rlib.{Membuf}
use rcom.Net.{Recv, again, err, tcp_socket_recv}
use rcom.Net.Stream.{stream, IsPieces, Gives}
use rcom.Messagelink.{Frame, frame_make, read_message, read_payload}
use rcom.Messagelink.Header.{sent_frame, short_length}
use rcom.Messagelink.RoundTrip.{after_header, sent_stream, wire_payload}

module _ (M : Membuf) where
  open M use {Buf, bytes, clear, bytes-clear}

  -- A message of 65536 bytes, which `length <= 65536` sends with a 16-bit length, is read as an empty
  -- message, and its payload stays in the stream as if it were the next frames.
  pub read_message_lost :
      (is_client : Bool) (opcode : ℕ) (mask payload rest : Bytes) (out buf : Buf) (es : List Recv)
      → opcode < 16
      → length mask ≡ 4
      → length payload ≡ 65536
      → stream es ≡ bytes (frame_make M (clear out) opcode (not is_client) mask payload) ++ rest
      → IsPieces es
      → (frame : Frame) × (buf' : Buf) × Gives
          (read_message M is_client buf)
          es
          (frame, buf')
          (wire_payload (not is_client) mask payload ++ rest)
        × (bytes buf' ≡ [])
  unfolding read_payload
  read_message_lost is_client opcode mask payload rest out buf es o m n s p =
      let (es', e, s', p') =
        after_header M is_client opcode mask (length payload)
          (wire_payload (not is_client) mask payload ++ rest) buf es o (omega (arith, n)) m
          (sent_stream M is_client opcode mask payload rest out es o s) p in
      let same = ==_true (length payload) 65536 n in
      (
        sent_frame opcode (not is_client) (short_length (length payload)),
        clear buf,
        (es', e ∙ rw (same, read_payload), s', p'),
        bytes-clear buf,
      )

  -- A frame of more than 16 MB (below 4 GB) is refused with -2 when its header has been read.
  pub read_message_too_large :
      (is_client : Bool) (opcode : ℕ) (mask payload rest : Bytes) (out buf : Buf) (es : List Recv)
      → opcode < 16
      → length mask ≡ 4
      → 16777216 < length payload
      → length payload < 2 ^ 32
      → stream es ≡ bytes (frame_make M (clear out) opcode (not is_client) mask payload) ++ rest
      → IsPieces es
      → (es' : List Recv) × (read_message M is_client buf es ≡ some (err (negsuc 1), es'))
        × (stream es' ≡ wire_payload (not is_client) mask payload ++ rest)
  read_message_too_large is_client opcode mask payload rest out buf es o m big n s p =
      let (es', e, s', p') =
        after_header M is_client opcode mask (length payload)
          (wire_payload (not is_client) mask payload ++ rest) buf es o n m
          (sent_stream M is_client opcode mask payload rest out es o s) p in
      let ne = ==_false (length payload) 65536 (λ q. absurd (omega arith)) in
      let large = lt→ltb 16777216 (length payload) big in (es', e ∙ rw ne (rw large), s')

  -- A receive timeout inside a payload is reported with the same code, -2, as a message that is too
  -- large, where `tcp_socket_read` would wait on.
  pub read_payload_again :
      (fuel j left : ℕ) (is_client : Bool) (mask : Bytes) (buf : Buf) (es : List Recv)
      → read_payload M (suc fuel) is_client mask j (suc left) buf (again ∷ es)
        ≡ some (err (negsuc 1), es)
  unfolding read_payload tcp_socket_recv
  read_payload_again fuel j left is_client mask buf es = refl
