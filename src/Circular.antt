-- ===== src/Circular.antt =====
-- librcom/src/circular.c and librcom/include/rcom/circular.h: the circular byte buffer. The block
-- `r->buffer` is a list of `r->length` bytes; an operation that changes `*r` returns the new record.
-- The mutex only makes each call atomic, so a call is one function here. The `int` values are
-- natural numbers: `Circular.Bounds` shows that no subtraction below goes under zero and that no
-- index leaves the block.
pub mod Blit
pub mod Bounds
pub mod Contents
pub mod Write
pub mod Read
pub mod Session
mod Tests
use rcom.Base.{
  ℕ, ◌+◌, ◌-◌, Bool, List, [], ◌++◌, ltb, leb, if◌then◌else◌, length, take, drop, replicate, Bytes,
}

-- `circular_buffer_t`
pub record Circular : Type 0 where
  pub buffer : Bytes
  pub size : ℕ
  pub readpos : ℕ
  pub writepos : ℕ

-- `memcpy(block + at, bytes, n)` where `bytes` holds `n` bytes
abbrev pub blit : Bytes → ℕ → Bytes → Bytes
blit block start bytes = take start block ++ (bytes ++ drop (start + length bytes) block)

-- `memcpy(out, block + at, n)`
abbrev pub slice : Bytes → ℕ → ℕ → Bytes
slice block start n = take n (drop start block)

-- `new_circular_buffer`, for an allocation that succeeds
unfoldable pub new_circular_buffer : ℕ → Circular
new_circular_buffer size = record {
  buffer = replicate size 0;
  size = size;
  readpos = 0;
  writepos = 0;
}

-- `circular_buffer_data_available`
unfoldable pub data_available : Circular → ℕ
data_available r =
    if leb r.readpos r.writepos then r.writepos - r.readpos else r.size + r.writepos - r.readpos

-- `circular_buffer_space_available`
unfoldable pub space_available : Circular → ℕ
space_available r =
    if leb r.readpos r.writepos then r.size + r.readpos - r.writepos else r.readpos - r.writepos

-- `if (len1) { memcpy(r->buffer + r->writepos, buffer, len1); r->writepos += len1; }`
unfoldable pub write_first : Circular → Bytes → Circular
write_first r bytes = record r {
  buffer = blit r.buffer r.writepos bytes;
  writepos = r.writepos + length bytes;
}

-- `if (len2) { memcpy(r->buffer, buffer + len1, len2); r->writepos = len2; }`
unfoldable pub write_second : Circular → Bytes → Circular
write_second r bytes =
    if ltb 0 (length bytes)
    then record r { buffer = blit r.buffer 0 bytes; writepos = length bytes }
    else r

-- `circular_buffer_write`; the list is the caller's `len` bytes.
unfoldable pub write : Circular → Bytes → Circular
write r bytes =
    if ltb r.size (length bytes)
    then r
    else let len1 =
        (if ltb r.size (r.writepos + length bytes) then r.size - r.writepos else length bytes) in
      write_second (write_first r (take len1 bytes)) (drop len1 bytes)

-- `len` as `circular_buffer_read` caps it
abbrev pub requested_length : Circular → ℕ → ℕ
requested_length r len = if ltb r.size len then r.size else len

-- `len1` of `circular_buffer_read`
abbrev pub first_part : Circular → ℕ → ℕ
first_part r n = if ltb r.size (r.readpos + n) then r.size - r.readpos else n

-- `circular_buffer_read`: the bytes put in the caller's buffer, and the new state.
unfoldable pub read : Circular → ℕ → Bytes × Circular
read r len =
    let n = requested_length r len in
    let len1 = first_part r n in
    let len2 = n - len1 in
    (
      slice r.buffer r.readpos len1 ++ slice r.buffer 0 len2,
      record r { readpos = (if ltb 0 len2 then len2 else r.readpos + len1) },
    )
