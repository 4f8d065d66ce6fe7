-- ===== src/Circular/Write.antt =====
-- circular.c: what `circular_buffer_write` adds to the queue.
use rcom.Base.{
  ◌+◌, ◌-◌, ◌≤◌, ◌<◌, ◌≡◌, sym, ap, ap₂, ◌∙◌, ◌++◌, ltb, true, lt→ltb, arith, length, take, drop,
  Bytes, append_assoc, length-take, length-drop, take_all, drop-append_le, take-append-drop, dec_le,
}
use rcom.Circular.{
  Circular, blit, data_available, space_available, write_first, write_second, write,
}
use rcom.Circular.Blit.{take-blit, take-blit_zero, drop-blit}
use rcom.Circular.Bounds.{IsValid, length-blit, write_fits, write_wraps}
use rcom.Circular.Contents.{contents, contents_straight, contents_wrapped, HasRoom}

module _ {r : Circular} (bytes : Bytes) (v : IsValid r) where
  -- the bytes fit between `writepos` and the end of the block
  straight_straight :
      r.readpos ≤ r.writepos
      → r.writepos + length bytes ≤ r.size
      → contents (write_first r bytes) ≡ contents r ++ bytes
  unfolding write_first
  straight_straight h k =
      contents_straight (write_first r bytes) (omega arith)
      ∙ ap (drop r.readpos) (take-blit r.buffer r.writepos bytes (omega arith))
      ∙ drop-append_le r.readpos (take r.writepos r.buffer) bytes
          (omega (arith, length-take r.writepos r.buffer))
      ∙ ap (λ c. c ++ bytes) (sym (contents_straight r h))

  wrapped_wrapped :
      r.writepos + length bytes < r.readpos → contents (write_first r bytes) ≡ contents r ++ bytes
  unfolding write_first
  wrapped_wrapped h =
      contents_wrapped (write_first r bytes) h
      ∙ ap₂ ◌++◌ (drop-blit r.buffer r.writepos bytes (omega arith) r.readpos (omega arith))
          (take-blit r.buffer r.writepos bytes (omega arith))
      ∙ sym (append_assoc (drop r.readpos r.buffer) (take r.writepos r.buffer) bytes)
      ∙ ap (λ c. c ++ bytes) (sym (contents_wrapped r (omega arith)))

  -- the bytes go round the end of the block
  straight_wrapped :
      r.readpos ≤ r.writepos
      → length bytes ≤ r.size
      → r.size < r.writepos + length bytes
      → r.writepos + length bytes < r.readpos + r.size
      → contents (write r bytes) ≡ contents r ++ bytes
  unfolding write_first write_second
  straight_wrapped h k w room =
      let len1 = r.size - r.writepos in
      let b1 = take len1 bytes in
      let b2 = drop len1 bytes in
      let l1 : length b1 ≡ len1 = omega (arith, length-take len1 bytes) in
      let l2 : length b2 ≡ length bytes - len1 = length-drop len1 bytes in
      let once = blit r.buffer r.writepos b1 in
      let s1 : length once ≡ r.size = omega (arith, v, length-blit r.buffer r.writepos b1) in
      let r' = write_first r b1 in
      let pos : ltb 0 (length b2) ≡ true = lt→ltb _ _ (omega arith) in
      let e : write r bytes ≡ record r' { buffer = blit once 0 b2; writepos = length b2 } =
        write_wraps r bytes k w ∙ rw pos in
      ap contents e
      ∙ contents_wrapped (record r' { buffer = blit once 0 b2; writepos = length b2 }) (omega arith)
      ∙ ap₂ ◌++◌
          (drop-blit once 0 b2 (omega arith) r.readpos (omega arith)
            ∙ ap (drop r.readpos) (
                sym (take_all (r.writepos + length b1) once (omega arith))
                ∙ take-blit r.buffer r.writepos b1 (omega arith))
            ∙ drop-append_le r.readpos (take r.writepos r.buffer) b1
                (omega (arith, length-take r.writepos r.buffer)))
          (take-blit_zero once b2 (omega arith))
      ∙ append_assoc (drop r.readpos (take r.writepos r.buffer)) b1 b2
      ∙ ap₂ ◌++◌ (sym (contents_straight r h)) (take-append-drop len1 bytes)

-- With room, `circular_buffer_write` appends its bytes behind those stored, on every path: in one
-- piece, or in two round the end of the block.
pub contents-write :
    {r : Circular} (bytes : Bytes)
    → IsValid r
    → HasRoom r (length bytes)
    → contents (write r bytes) ≡ contents r ++ bytes
unfolding data_available
contents-write {r} bytes v room = elim (dec_le r.readpos r.writepos) [
  | yes h ↦ elim (dec_le (r.writepos + length bytes) r.size) [
    | yes k ↦ rw (write_fits r bytes (ground arith) k) (straight_straight bytes v h k)
    | no k ↦ straight_wrapped bytes v h (ground arith) (omega arith) (ground arith)
  ]
  | no h ↦
      let near : r.writepos + length bytes < r.readpos = ground arith in
      rw (write_fits r bytes (omega arith) (omega arith)) (wrapped_wrapped bytes v near)
]

-- A write that fills the buffer up to a read position past the start leaves it looking empty: all
-- that it held is out of reach, and the whole size is reported as free.
pub write_full_lem :
    {r : Circular} (bytes : Bytes)
    → IsValid r
    → 0 < r.readpos
    → 0 < length bytes
    → data_available r + length bytes ≡ r.size
    → (data_available (write r bytes) ≡ 0) × (space_available (write r bytes) ≡ r.size)
unfolding data_available space_available write_first write_second
write_full_lem {r} bytes v moved some_bytes full =
    elim (dec_le (r.writepos + length bytes) r.size) [
      | yes k ↦ rw (write_fits r bytes (ground arith) k) (ground arith)
      | no k ↦
          let len1 = r.size - r.writepos in
          rw (write_wraps r bytes (ground arith) (omega arith))
            (ground (arith, length-drop len1 bytes, length-take len1 bytes))
    ]
