-- ===== src/Circular/Bounds.antt =====
-- circular.c: the representation invariant, and the range of every index and `int` value.
use rcom.Base.{
  ℕ, ◌+◌, ◌-◌, ◌≤◌, ◌<◌, ◌≡◌, refl, min, ◌++◌, arith, length, take, drop, Bytes, length-append,
  lt→ltb, le→ltb, take_all, drop_all, dec_le, length-take, length-drop, length-replicate,
}
use rcom.Circular.{
  Circular, blit, slice, new_circular_buffer, data_available, space_available, write_first,
  write_second, write, read, requested_length, first_part,
}

pub record IsValid (r : Circular) : Type 0 where
  pub storage : length r.buffer ≡ r.size
  pub read_in : r.readpos ≤ r.size
  pub write_in : r.writepos ≤ r.size

pub length-blit :
    (block : Bytes) (start : ℕ) (bytes : Bytes)
    → start + length bytes ≤ length block
    → length (blit block start bytes) ≡ length block
length-blit block start bytes h = omega (
  arith,
  length-append (take start block) (bytes ++ drop (start + length bytes) block),
  length-append bytes (drop (start + length bytes) block),
  length-take start block,
  length-drop (start + length bytes) block,
)

-- A new buffer is valid, empty, and all its size is free.
pub new-IsValid :
    (size : ℕ)
    → IsValid (new_circular_buffer size)
      × (data_available (new_circular_buffer size) ≡ 0)
      × (space_available (new_circular_buffer size) ≡ size)
unfolding new_circular_buffer data_available space_available
new-IsValid size = (
  record { storage = length-replicate size 0; read_in = omega arith; write_in = omega arith },
  ground arith,
  ground arith,
)

-- In a valid buffer what is stored and what is free make up the size.
pub data_available-add-space_available :
    {r : Circular} → IsValid r → data_available r + space_available r ≡ r.size
unfolding data_available space_available
data_available-add-space_available v = ground arith

write_first-IsValid :
    {r : Circular} (bytes : Bytes)
    → IsValid r
    → r.writepos + length bytes ≤ r.size
    → IsValid (write_first r bytes)
unfolding write_first
write_first-IsValid {r} bytes v h = record {
  storage = omega (arith, length-blit r.buffer r.writepos bytes);
  read_in = v.read_in;
  write_in = h;
}

write_second-IsValid :
    {r : Circular} (bytes : Bytes)
    → IsValid r
    → length bytes ≤ r.size
    → IsValid (write_second r bytes)
unfolding write_second
write_second-IsValid {r} bytes v h = ground (arith, length-blit r.buffer 0 bytes)

size-write_first : (r : Circular) (bytes : Bytes) → (write_first r bytes).size ≡ r.size
unfolding write_first
size-write_first r bytes = refl

-- The three ways through `circular_buffer_write`.
pub write_refused : (r : Circular) (bytes : Bytes) → r.size < length bytes → write r bytes ≡ r
unfolding write
write_refused r bytes h = rw (lt→ltb _ _ h)

pub write_fits :
    (r : Circular) (bytes : Bytes)
    → length bytes ≤ r.size
    → r.writepos + length bytes ≤ r.size
    → write r bytes ≡ write_first r bytes
unfolding write write_second
write_fits r bytes h k = rw (
  le→ltb _ _ h,
  le→ltb _ _ k,
  take_all (length bytes) bytes (omega arith),
  drop_all (length bytes) bytes (omega arith),
)

pub write_wraps :
    (r : Circular) (bytes : Bytes)
    → length bytes ≤ r.size
    → r.size < r.writepos + length bytes
    → write r bytes
      ≡ write_second
          (write_first r (take (r.size - r.writepos) bytes))
          (drop (r.size - r.writepos) bytes)
unfolding write
write_wraps r bytes h k = rw (le→ltb _ _ h, lt→ltb _ _ k)

-- `circular_buffer_write` keeps the invariant, whatever it is given.
pub write-IsValid : {r : Circular} (bytes : Bytes) → IsValid r → IsValid (write r bytes)
write-IsValid {r} bytes v = elim (dec_le (length bytes) r.size) [
  | no h ↦ rw (write_refused r bytes (omega arith)) v
  | yes h ↦ elim (dec_le (r.writepos + length bytes) r.size) [
    | yes k ↦ rw (write_fits r bytes h k) (write_first-IsValid bytes v k)
    | no k ↦ rw (write_wraps r bytes h (omega arith)) (
        write_second-IsValid _
          (write_first-IsValid _ v (omega (arith, length-take (r.size - r.writepos) bytes)))
          (omega (
            arith,
            size-write_first r (take (r.size - r.writepos) bytes),
            length-drop (r.size - r.writepos) bytes,
          )))
  ]
]

-- `circular_buffer_read` keeps the invariant, whatever the length asked for.
pub read-IsValid : {r : Circular} (len : ℕ) → IsValid r → IsValid (read r len).1
unfolding read
read-IsValid {r} len v = ground arith

pub length-slice :
    (block : Bytes) (start n : ℕ) → start + n ≤ length block → length (slice block start n) ≡ n
length-slice block start n h =
    omega (arith, length-take n (drop start block), length-drop start block)

-- A read returns as many bytes as it was asked for, but never more than the size.
pub length-read : {r : Circular} (len : ℕ) → IsValid r → length (read r len).0 ≡ min len r.size
unfolding read
length-read {r} len v =
    let n = requested_length r len in
    let a = first_part r n in
    ground (
      arith,
      length-append (slice r.buffer r.readpos a) (slice r.buffer 0 (n - a)),
      length-slice r.buffer r.readpos a,
      length-slice r.buffer 0 (n - a),
    )

pub size-write : (r : Circular) (bytes : Bytes) → (write r bytes).size ≡ r.size
unfolding write write_first write_second
size-write r bytes = ground arith

pub size-read : (r : Circular) (n : ℕ) → (read r n).1.size ≡ r.size
unfolding read
size-read r n = refl
