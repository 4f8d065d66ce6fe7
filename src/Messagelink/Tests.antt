-- ===== src/Messagelink/Tests.antt =====
-- Frames at concrete inputs, over a membuf that is a list.
use rcom.Messagelink.Faults.{read_message_too_large, read_message_lost}
use rcom.Base.{
  negsuc, ℕ, ap, some, ◌++◌, length-replicate, replicate, length, arith, refl, List, false, true,
  [], ◌≡◌, ◌∷◌, Bytes,
}
use rcom.Rlib.{list_membuf}
use rcom.Net.{err, Recv, chunk}
use rcom.Net.Stream.{stream, IsPieces, Gives}
use rcom.Messagelink.{Frame, frame_make, read_message, mask_bytes, frame_append_payload}
use rcom.Messagelink.Mask.{mask_bytes-mask_bytes, bytes-frame_append_payload}
use rcom.Messagelink.RoundTrip.{bytes-frame_make, read_message-frame_make}

abbrev key : Bytes
key = 1 ∷ 2 ∷ 3 ∷ 4 ∷ []

abbrev text : Bytes
text = b'h' ∷ b'e' ∷ b'l' ∷ b'l' ∷ b'o' ∷ []

-- The text frame that a client sends, in three pieces, and the first byte of the next frame.
abbrev pieces : List Recv
pieces =
    chunk 129 (133 ∷ 1 ∷ [])
    ∷ chunk 2 (3 ∷ 4 ∷ 105 ∷ [])
    ∷ chunk 103 (111 ∷ 104 ∷ 110 ∷ 129 ∷ [])
    ∷ []

frame_bytes :
    frame_make list_membuf [] 1 true key text
    ≡ 129 ∷ 133 ∷ 1 ∷ 2 ∷ 3 ∷ 4 ∷ 105 ∷ 103 ∷ 111 ∷ 104 ∷ 110 ∷ []
unfolding frame_make mask_bytes
frame_bytes = refl

mask_bytes-mask_bytes_example : mask_bytes key 2 (mask_bytes key 2 text) ≡ text
mask_bytes-mask_bytes_example = mask_bytes-mask_bytes key 2 text

bytes-frame_append_payload_example :
    frame_append_payload list_membuf [] true key text ≡ mask_bytes key 0 text
bytes-frame_append_payload_example = bytes-frame_append_payload list_membuf [] true key text

read_message-frame_make_example :
    (frame : Frame) × (buf : Bytes) × Gives
      (read_message list_membuf false [])
      pieces
      (frame, buf)
      (129 ∷ [])
    × (buf ≡ text)
    × (frame.opcode ≡ 1)
    × (frame.fin ≡ 1)
    × (frame.mask ≡ 1)
unfolding frame_make mask_bytes
read_message-frame_make_example =
    read_message-frame_make list_membuf false 1 key text (129 ∷ []) [] [] pieces (omega arith) refl
      (omega arith) (λ e. absurd (omega arith)) refl tt

-- a stream that comes byte by byte
single : Bytes → List Recv
single [] = []
single (b ∷ bs) = chunk b [] ∷ single bs

stream-single : (bs : Bytes) → stream (single bs) ≡ bs
unfolding single
stream-single [] = refl
stream-single (b ∷ bs) = ap (◌∷◌ b) (stream-single bs)

single-IsPieces : (bs : Bytes) → IsPieces (single bs)
unfolding single
single-IsPieces [] = tt
single-IsPieces (b ∷ bs) = single-IsPieces bs

-- `n` bytes, kept shut since `n` is large
zeros : ℕ → Bytes
zeros n = replicate n 0

length-zeros : (n : ℕ) → length (zeros n) ≡ n
unfolding zeros
length-zeros n = length-replicate n 0

-- what a server sends of a payload of `n` bytes
sent : ℕ → List Recv
sent n = single (frame_make list_membuf [] 2 false key (zeros n) ++ [])

read_message_lost_example :
    (frame : Frame) × (buf : Bytes) × Gives
      (read_message list_membuf true [])
      (sent 65536)
      (frame, buf)
      (zeros 65536 ++ [])
    × (buf ≡ [])
unfolding sent
read_message_lost_example =
    read_message_lost list_membuf true 2 key (zeros 65536) [] [] [] (sent 65536) (omega arith) refl
      (length-zeros 65536) (stream-single _) (single-IsPieces _)

read_message_too_large_example :
    (es : List Recv) × (read_message list_membuf true [] (sent 20000000)
      ≡ some (err (negsuc 1), es))
    × (stream es ≡ zeros 20000000 ++ [])
unfolding sent
read_message_too_large_example =
    read_message_too_large list_membuf true 2 key (zeros 20000000) [] [] [] (sent 20000000)
      (omega arith) refl (omega (arith, length-zeros 20000000))
      (omega (arith, length-zeros 20000000)) (stream-single _) (single-IsPieces _)

bytes-frame_make_example : frame_make list_membuf (9 ∷ []) 9 false key text ≡ 9 ∷ 137 ∷ 5 ∷ text
bytes-frame_make_example = bytes-frame_make list_membuf (9 ∷ []) 9 false key text (omega arith)
