-- ===== src/Circular/Read.antt =====
-- circular.c: what `circular_buffer_read` takes from the queue.
use rcom.Base.{
  ℕ, ◌+◌, ◌-◌, ◌≤◌, ◌<◌, ◌≡◌, sym, ap, ap₂, ◌∙◌, ◌++◌, lt→ltb, le→ltb, arith, length, take, drop,
  append-nil, length-drop, take_all, drop-append_le, drop-append_ge, take-append_le, take-append_ge,
  drop-drop, drop-take, take-take_le, dec_le,
}
use rcom.Circular.{Circular, data_available, read}
use rcom.Circular.Bounds.{IsValid}
use rcom.Circular.Contents.{contents, contents_straight, contents_wrapped}

module _ {r : Circular} (n : ℕ) (v : IsValid r) where
  read_straight :
      r.readpos ≤ r.writepos
      → r.readpos + n ≤ r.writepos
      → ((read r n).0 ≡ take n (contents r)) × (contents (read r n).1 ≡ drop n (contents r))
  unfolding read
  read_straight h k =
      let w = take r.writepos r.buffer in
      let d : r.writepos ≡ r.readpos + (r.writepos - r.readpos) = omega arith in
      let all : contents r ≡ take (r.writepos - r.readpos) (drop r.readpos r.buffer) =
        contents_straight r h
        ∙ ap (λ j. drop r.readpos (take j r.buffer)) d
        ∙ drop-take r.readpos (r.writepos - r.readpos) r.buffer in
      let le1 = le→ltb r.size n (omega arith) in
      let le2 = le→ltb r.size (r.readpos + n) (omega arith) in
      let rest : n - n ≡ 0 = omega arith in
      (
        rw (le1, le2, rest)
            (append-nil _
              ∙ sym
                  (take-take_le n (r.writepos - r.readpos) (drop r.readpos r.buffer) (omega arith))
              ∙ ap (take n) (sym all)),
        rw (le1, le2, rest)
            (contents_straight (record r { readpos = r.readpos + n }) k
              ∙ sym (drop-drop n r.readpos w)
              ∙ ap (drop n) (sym (contents_straight r h))),
      )

  read_wrapped_first :
      r.writepos < r.readpos
      → r.readpos + n ≤ r.size
      → ((read r n).0 ≡ take n (contents r)) × (contents (read r n).1 ≡ drop n (contents r))
  unfolding read
  read_wrapped_first h k =
      let tail = drop r.readpos r.buffer in
      let le1 = le→ltb r.size n (omega arith) in
      let le2 = le→ltb r.size (r.readpos + n) (omega arith) in
      let rest : n - n ≡ 0 = omega arith in
      let in_tail : n ≤ length tail = omega (arith, v, length-drop r.readpos r.buffer) in
      (
        rw (le1, le2, rest)
            (append-nil _
              ∙ sym (take-append_le n tail (take r.writepos r.buffer) in_tail)
              ∙ ap (take n) (sym (contents_wrapped r h))),
        rw (le1, le2, rest)
            (contents_wrapped (record r { readpos = r.readpos + n }) (omega arith)
              ∙ ap (λ t. t ++ take r.writepos r.buffer) (sym (drop-drop n r.readpos r.buffer))
              ∙ sym (drop-append_le n tail (take r.writepos r.buffer) in_tail)
              ∙ ap (drop n) (sym (contents_wrapped r h))),
      )

  read_wrapped_both :
      r.writepos < r.readpos
      → r.size < r.readpos + n
      → r.readpos + n ≤ r.size + r.writepos
      → ((read r n).0 ≡ take n (contents r)) × (contents (read r n).1 ≡ drop n (contents r))
  unfolding read
  read_wrapped_both h k room =
      let tail = drop r.readpos r.buffer in
      let front = take r.writepos r.buffer in
      let len1 = r.size - r.readpos in
      let len2 = n - len1 in
      let le1 = le→ltb r.size n (omega arith) in
      let lt2 = lt→ltb r.size (r.readpos + n) k in
      let lt3 = lt→ltb 0 len2 (omega arith) in
      let l : length tail ≡ len1 = omega (arith, v, length-drop r.readpos r.buffer) in
      let e : n ≡ length tail + len2 = omega arith in
      (
        rw (le1, lt2)
            (ap₂ ◌++◌ (take_all len1 tail (omega arith))
                (sym (take-take_le len2 r.writepos r.buffer (omega arith)))
              ∙ sym (take-append_ge len2 tail front)
              ∙ ap₂ take (sym e) (sym (contents_wrapped r h))),
        rw (le1, lt2, lt3)
            (contents_straight (record r { readpos = len2 }) (omega arith)
              ∙ sym (drop-append_ge len2 tail front)
              ∙ ap₂ drop (sym e) (sym (contents_wrapped r h))),
      )

-- `circular_buffer_read` of no more than what is stored returns the oldest bytes in order, and
-- leaves the rest.
pub read-contents :
    {r : Circular} (n : ℕ)
    → IsValid r
    → n ≤ data_available r
    → ((read r n).0 ≡ take n (contents r)) × (contents (read r n).1 ≡ drop n (contents r))
unfolding data_available
read-contents {r} n v h = elim (dec_le r.readpos r.writepos) [
  | yes k ↦ read_straight n v k (ground arith)
  | no k ↦ elim (dec_le (r.readpos + n) r.size) [
    | yes fits ↦ read_wrapped_first n v (omega arith) fits
    | no over ↦ read_wrapped_both n v (omega arith) (omega arith) (ground arith)
  ]
]
