-- ===== src/Messagelink.antt =====
-- librcom/src/messagelink.c: the frames of the message links (RFC 6455), as they are built by
-- `frame_make` and taken apart by `messagelink_read_message`. The random mask is an argument. The
-- contents of `link->in` after an error are not modelled: every caller closes the connection then.
pub mod Mask
pub mod Header
pub mod Lengths
pub mod Payload
pub mod RoundTrip
pub mod Faults
mod Tests
use rcom.Base.{
  negsuc, ℕ, Bool, none, suc, zero, [], ◌^◌, ◌%◌, ◌/◌, ◌*◌, ◌-◌, ◌+◌, ◌∷◌, ◌++◌, drop, take, get_or,
  length, if◌then◌else◌, ◌==◌, leb, ltb, Bytes,
}
use Prim.Native.Nat.{bit_or, bit_xor}
use rcom.Rlib.{Membuf}
use rcom.Net.{Reading, ◌>>=◌, return, fail, tcp_socket_recv, tcp_socket_read, octet, swap16, swap32}

-- `ws_frame_t`, but for the reserved bits, which are never read or written.
pub record Frame : Type 0 where
  pub fin : ℕ
  pub opcode : ℕ
  pub mask : ℕ
  pub length7 : ℕ

-- `htonll` and `ntohll`
abbrev pub swap64 : ℕ → ℕ
swap64 x = bit_or (swap32 (x % 2 ^ 32) * 2 ^ 32) (swap32 (x / 2 ^ 32 % 2 ^ 32))

-- `if (length < 126) … else if (length <= 65536) … else …` of `frame_make_header`
pub length_field : Bool → ℕ → Bytes
length_field masked n =
    let netshort = swap16 (n % 2 ^ 16) in
    let netlong = swap64 n in
    if ltb n 126
    then (if masked then bit_or 0x80 (n % 128) else n % 128) ∷ []
    else if leb n 65536
    then (if masked then 254 else 126) ∷ octet netshort 0 ∷ octet netshort 8 ∷ []
    else (if masked then 255 else 127)
      ∷ octet netlong 0
      ∷ octet netlong 8
      ∷ octet netlong 16
      ∷ octet netlong 24
      ∷ octet netlong 32
      ∷ octet netlong 40
      ∷ octet netlong 48
      ∷ octet netlong 56
      ∷ []

-- `frame_make_header`; the mask holds four bytes.
pub frame_make_header : ℕ → Bool → Bytes → ℕ → Bytes
unfolding length_field
frame_make_header opcode masked mask n =
    bit_or 0x80 opcode ∷ (length_field masked n ++ (if masked then mask else []))

-- `j++; if (j == 4) j = 0;`
abbrev pub next : ℕ → ℕ
next j = if j + 1 == 4 then 0 else j + 1

-- The loop over one block: `out[i] = in[i] ^ mask[j]`, and `j` after it.
pub mask_bytes : Bytes → ℕ → Bytes → Bytes
mask_bytes mask j [] = []
mask_bytes mask j (b ∷ bs) = bit_xor b (get_or mask j 0) ∷ mask_bytes mask (next j) bs

pub mask_pos : ℕ → Bytes → ℕ
mask_pos j [] = j
mask_pos j (b ∷ bs) = mask_pos (next j) bs

-- `tcp_socket_read` of exactly `n` bytes, or -1.
abbrev pub read_exact : ℕ → Reading Bytes
read_exact n = do b ← tcp_socket_read n; if length b == n then return b else fail (negsuc 0)

-- `messagelink_read_frame`
pub read_frame : Reading Frame
read_frame = do
  b ← read_exact 2
  return (record {
    fin = get_or b 0 0 / 128 % 2;
    opcode = get_or b 0 0 % 16;
    mask = get_or b 1 0 / 128 % 2;
    length7 = get_or b 1 0 % 128;
  })

-- A number of the host from the bytes in memory, for two bytes and for eight.
abbrev pub le16 : Bytes → ℕ
le16 b = get_or b 0 0 + get_or b 1 0 * 2 ^ 8

abbrev pub le64 : Bytes → ℕ
le64 b =
    get_or b 0 0
    + get_or b 1 0 * 2 ^ 8
    + get_or b 2 0 * 2 ^ 16
    + get_or b 3 0 * 2 ^ 24
    + get_or b 4 0 * 2 ^ 32
    + get_or b 5 0 * 2 ^ 40
    + get_or b 6 0 * 2 ^ 48
    + get_or b 7 0 * 2 ^ 56

-- the length of the payload
pub read_length : Frame → Reading ℕ
read_length frame =
    if ltb frame.length7 126
    then return frame.length7
    else if frame.length7 == 126
    then (do b ← read_exact 2; return (swap16 (le16 b)))
    else (do b ← read_exact 8; return (swap64 (le64 b)))

-- `uint8_t mask[4] = {0}; if (frame->mask) …`
pub read_mask : Frame → Reading Bytes
read_mask frame = if frame.mask == 0 then return (0 ∷ 0 ∷ 0 ∷ 0 ∷ []) else read_exact 4

module _ (M : Membuf) where
  open M use {Buf, clear, append}

  -- The loop of `frame_append_payload` in blocks of 1024 bytes; the number of bytes is fuel enough.
  pub append_masked : ℕ → Buf → Bytes → ℕ → Bytes → Buf
  append_masked zero buf mask j payload = buf
  append_masked (suc fuel) buf mask j [] = buf
  append_masked (suc fuel) buf mask j (b ∷ bs) =
      let block = take 1024 (b ∷ bs) in
      append_masked fuel (append buf (mask_bytes mask j block)) mask (mask_pos j block)
        (drop 1024 (b ∷ bs))

  -- `frame_append_payload`
  pub frame_append_payload : Buf → Bool → Bytes → Bytes → Buf
  unfolding append_masked
  frame_append_payload buf masked mask payload =
      if masked then append_masked (length payload) buf mask 0 payload else append buf payload

  -- `frame_make`
  unfoldable pub frame_make : Buf → ℕ → Bool → Bytes → Bytes → Buf
  unfolding frame_append_payload frame_make_header
  frame_make buf opcode masked mask payload =
      frame_append_payload (append buf (frame_make_header opcode masked mask (length payload)))
        masked mask payload

  -- The loop of `messagelink_read_message` over `recv`. Each round that goes on takes a byte at
  -- least, so the number of bytes left is fuel enough; without fuel it would give `none`.
  pub read_payload : ℕ → Bool → Bytes → ℕ → ℕ → Buf → Reading Buf
  read_payload fuel is_client mask j zero buf = return buf
  read_payload zero is_client mask j (suc left) buf = λ es. none
  read_payload (suc fuel) is_client mask j (suc left) buf = do
    piece ← tcp_socket_recv (if ltb 1024 (suc left) then 1024 else suc left)
    elim piece [
      | [] ↦ fail (negsuc 0)
      | b ∷ bs ↦
          read_payload fuel is_client mask (if is_client then j else mask_pos j (b ∷ bs))
            (suc left - length (b ∷ bs))
            (append buf (if is_client then b ∷ bs else mask_bytes mask j (b ∷ bs)))
    ]

  -- `messagelink_read_message`: the frame and `link->in`, or -1 for a read error, or -2 for a message
  -- of more than 16 MB.
  pub read_message : Bool → Buf → Reading (Frame × Buf)
  unfolding read_frame read_length read_mask read_payload
  read_message is_client buf = do
    frame ← read_frame
    n ← read_length frame
    mask ← read_mask frame
    if ltb 16777216 n
        then fail (negsuc 1)
        else (do buf' ← read_payload n is_client mask 0 n (clear buf); return (frame, buf'))
