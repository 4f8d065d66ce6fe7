-- ===== src/Messagelink/RoundTrip.antt =====
-- messagelink.c: a frame that one end makes is the message that the other end reads.
use rcom.Messagelink.Payload.{read_payload-stream, decode}
use rcom.Base.Bits.{bit_or_shift}
use rcom.Base.{
  refl, false, true, ◌≤◌, ◌≢◌, drop-append_ge, take-append_le, take_all, length-append, drop, take,
  ==_false, le→ltb, negsuc, append_assoc, ℕ, arith, ap₂, ap, Bool, List, not, [], ◌∙◌, ◌<◌, ◌^◌,
  ◌+◌, ◌≡◌, ◌∷◌, ◌++◌, length, if◌then◌else◌, ltb, Bytes,
}
use rcom.Rlib.{Membuf}
use rcom.Net.{Recv, ◌>>=◌, return, fail, Reading}
use rcom.Net.Stream.{Gives, stream, IsPieces}
use rcom.Messagelink.{Frame, frame_make, frame_make_header, read_payload, read_message, mask_bytes}
use rcom.Messagelink.Mask.{mask_bytes-mask_bytes, length-mask_bytes, bytes-frame_append_payload}
use rcom.Messagelink.Header.{
  sent_frame, short_length, extended, flagged, received_length, length_field_lem, read_frame-Gives,
  read_length-Gives, read_mask-Gives,
}

-- The payload as it goes over the wire.
abbrev pub wire_payload : Bool → Bytes → Bytes → Bytes
wire_payload masked mask payload = if masked then mask_bytes mask 0 payload else payload

frame_make_header_lem :
    (opcode : ℕ) (masked : Bool) (mask : Bytes) (n : ℕ)
    → opcode < 16
    → frame_make_header opcode masked mask n
      ≡ (128 + opcode)
        ∷ flagged masked (short_length n)
        ∷ (extended n ++ (if masked then mask else []))
unfolding frame_make_header
frame_make_header_lem opcode masked mask n h =
    ap₂ ◌∷◌ (bit_or_shift 7 1 opcode (omega arith))
      (ap (λ t. t ++ (if masked then mask else [])) (length_field_lem masked n))

mask_flag :
    (is_client : Bool) → ◌≡◌ {A = ℕ} (if not is_client then 1 else 0) (if is_client then 0 else 1)
mask_flag true = refl
mask_flag false = refl

module _ (M : Membuf) where
  open M use {Buf, bytes, clear, append, bytes-clear, bytes-append}

  -- What `frame_make` puts into a buffer: the two bytes of the header, the extended length, the mask
  -- and the payload.
  pub bytes-frame_make :
      (buf : Buf) (opcode : ℕ) (masked : Bool) (mask payload : Bytes)
      → opcode < 16
      → bytes (frame_make M buf opcode masked mask payload)
        ≡ bytes buf
          ++ ((128 + opcode)
              ∷ flagged masked (short_length (length payload))
              ∷ (extended (length payload)
                  ++ ((if masked then mask else []) ++ wire_payload masked mask payload)))
  unfolding frame_make
  bytes-frame_make buf opcode masked mask payload h =
      let n = length payload in
      let header = frame_make_header opcode masked mask n in
      let key = (if masked then mask else []) in
      let wire = wire_payload masked mask payload in
      bytes-frame_append_payload M (append buf header) masked mask payload
      ∙ ap (λ t. t ++ wire) (bytes-append buf header)
      ∙ append_assoc (bytes buf) header wire
      ∙ ap (λ t. bytes buf ++ (t ++ wire)) (frame_make_header_lem opcode masked mask n h)
      ∙ ap (λ t. bytes buf ++ ((128 + opcode) ∷ flagged masked (short_length n) ∷ t))
          (append_assoc (extended n) key wire)

  -- the rest of `read_message`, once the header is read
  abbrev pub read_rest : Bool → Buf → Frame → ℕ → Bytes → Reading (Frame × Buf)
  read_rest is_client buf frame n mask =
      if ltb 16777216 n
      then fail (negsuc 1)
      else (do buf' ← read_payload M n is_client mask 0 n (clear buf); return (frame, buf'))

  -- The header of a frame sent, then the rest.
  pub after_header :
      (is_client : Bool) (opcode : ℕ) (mask : Bytes) (n : ℕ) (tail : Bytes) (buf : Buf)
      (es : List Recv)
      → opcode < 16
      → n < 2 ^ 32
      → length mask ≡ 4
      → stream es
        ≡ (128 + opcode)
          ∷ flagged (not is_client) (short_length n)
          ∷ (extended n ++ ((if not is_client then mask else []) ++ tail))
      → IsPieces es
      → (es' : List Recv) × (read_message M is_client buf es
          ≡ read_rest is_client buf
              (sent_frame opcode (not is_client) (short_length n))
              (received_length n)
              (if not is_client then mask else 0 ∷ 0 ∷ 0 ∷ 0 ∷ [])
              es')
        × (stream es' ≡ tail)
        × IsPieces es'
  unfolding read_message
  after_header is_client opcode mask n tail buf es o h m s p =
      let masked = not is_client in
      let l7 : short_length n < 128 = ground arith in
      let (es1, e1, s1, p1) = read_frame-Gives opcode (short_length n) masked _ es o l7 s p in
      let (es2, e2, s2, p2) = read_length-Gives opcode n masked _ es1 h s1 p1 in
      let (es3, e3, s3, p3) =
        read_mask-Gives opcode (short_length n) masked mask tail es2 m s2 p2 in
      (es3, rw (e1, ◌>>=◌) (rw (e2, ◌>>=◌) (rw (e3, ◌>>=◌))), s3, p3)

  -- The stream that begins with a frame, cut behind its header.
  pub sent_stream :
      (is_client : Bool) (opcode : ℕ) (mask payload rest : Bytes) (out : Buf) (es : List Recv)
      → opcode < 16
      → stream es ≡ bytes (frame_make M (clear out) opcode (not is_client) mask payload) ++ rest
      → stream es
        ≡ (128 + opcode)
          ∷ flagged (not is_client) (short_length (length payload))
          ∷ (extended (length payload)
              ++ ((if not is_client then mask else [])
                  ++ (wire_payload (not is_client) mask payload ++ rest)))
  sent_stream is_client opcode mask payload rest out es o s =
      let masked = not is_client in
      let n = length payload in
      let key = (if masked then mask else []) in
      let wire = wire_payload masked mask payload in
      let frame_bytes =
        (128 + opcode) ∷ flagged masked (short_length n) ∷ (extended n ++ (key ++ wire)) in
      s
      ∙ ap (λ t. t ++ rest)
          (bytes-frame_make (clear out) opcode masked mask payload o
            ∙ ap (λ t. t ++ frame_bytes) (bytes-clear out))
      ∙ ap (λ t. (128 + opcode) ∷ flagged masked (short_length n) ∷ t)
          (append_assoc (extended n) (key ++ wire) rest
            ∙ ap (λ t. extended n ++ t) (append_assoc key wire rest))

  decode-wire_payload :
      (is_client : Bool) (mask payload : Bytes)
      → decode is_client
          (if not is_client then mask else 0 ∷ 0 ∷ 0 ∷ 0 ∷ [])
          0
          (wire_payload (not is_client) mask payload)
        ≡ payload
  decode-wire_payload true mask payload = refl
  decode-wire_payload false mask payload = mask_bytes-mask_bytes mask 0 payload

  length-wire_payload :
      (masked : Bool) (mask payload : Bytes)
      → length (wire_payload masked mask payload) ≡ length payload
  length-wire_payload true mask payload = length-mask_bytes mask 0 payload
  length-wire_payload false mask payload = refl

  -- A frame of at most 16 MB that one end makes, and the other reads, whatever pieces the stream
  -- comes in: `messagelink_read_message` returns its opcode and payload, unmasked, and stops where the
  -- frame ends. The client end masks and the server end does not. A payload of 65536 bytes is
  -- excepted.
  pub read_message-frame_make :
      (is_client : Bool) (opcode : ℕ) (mask payload rest : Bytes) (out buf : Buf) (es : List Recv)
      → opcode < 16
      → length mask ≡ 4
      → length payload ≤ 16777216
      → length payload ≢ 65536
      → stream es ≡ bytes (frame_make M (clear out) opcode (not is_client) mask payload) ++ rest
      → IsPieces es
      → (frame : Frame) × (buf' : Buf) × Gives (read_message M is_client buf) es (frame, buf') rest
        × (bytes buf' ≡ payload)
        × (frame.opcode ≡ opcode)
        × (frame.fin ≡ 1)
        × (frame.mask ≡ (if is_client then 0 else 1))
  read_message-frame_make is_client opcode mask payload rest out buf es o m big ne s p =
      let n = length payload in
      let key = (if not is_client then mask else 0 ∷ 0 ∷ 0 ∷ 0 ∷ []) in
      let wire = wire_payload (not is_client) mask payload in
      let frame = sent_frame opcode (not is_client) (short_length n) in
      let l = length-wire_payload (not is_client) mask payload in
      let (es', e, s', p') =
        after_header is_client opcode mask n (wire ++ rest) buf es o (omega arith) m
          (sent_stream is_client opcode mask payload rest out es o s) p in
      let (buf', (es'', e'', s'', p''), held) =
        read_payload-stream M is_client key n 0 n (clear buf) es' (omega arith)
          (omega (arith, ap length s', length-append wire rest, l)) p' in
      let same = ==_false n 65536 ne in
      let small = le→ltb 16777216 n big in
      let nn : n ≡ length wire + 0 = omega (arith, l) in
      let front : take n (stream es') ≡ wire =
        ap (take n) s'
        ∙ take-append_le n wire rest (omega (arith, l))
        ∙ take_all n wire (omega (arith, l)) in
      let back : drop n (stream es') ≡ rest = ap₂ drop nn s' ∙ drop-append_ge 0 wire rest in
      (
        frame,
        buf',
        (es'', e ∙ rw same (rw small (rw (e'', ◌>>=◌))), s'' ∙ back, p''),
        held
            ∙ ap (λ t. t ++ decode is_client key 0 (take n (stream es'))) (bytes-clear buf)
            ∙ ap (decode is_client key 0) front
            ∙ decode-wire_payload is_client mask payload,
        refl,
        refl,
        mask_flag is_client,
      )
