-- ===== src/Circular/Blit.antt =====
-- What a `memcpy` into the middle of a block leaves before, in and behind the bytes written.
use rcom.Base.{
  ℕ, ◌+◌, ◌-◌, ◌≤◌, ◌≡◌, sym, ap, ◌∙◌, ◌++◌, arith, length, take, drop, Bytes, length-take,
  take_all, take-append_ge, drop-append_ge, take-append_le, drop-drop,
}
use rcom.Circular.{blit}

module _ (block : Bytes) (start : ℕ) (bytes : Bytes)
    (fits : start + length bytes ≤ length block) where
  length-take_start : length (take start block) ≡ start
  length-take_start = omega (arith, length-take start block)

  pub take-blit : take (start + length bytes) (blit block start bytes) ≡ take start block ++ bytes
  take-blit =
      ap (λ k. take (k + length bytes) (blit block start bytes)) (sym length-take_start)
      ∙ take-append_ge (length bytes) (take start block)
          (bytes ++ drop (start + length bytes) block)
      ∙ ap (λ t. take start block ++ t)
          (take-append_le (length bytes) bytes (drop (start + length bytes) block) (omega arith)
            ∙ take_all (length bytes) bytes (omega arith))

  pub drop-blit :
      (n : ℕ) → start + length bytes ≤ n → drop n (blit block start bytes) ≡ drop n block
  drop-blit n h =
      let m = n - (start + length bytes) in
      let e : n ≡ length (take start block) + (length bytes + m) =
        omega (arith, length-take_start) in
      let f : start + length bytes + m ≡ n = omega arith in
      ap (λ k. drop k (blit block start bytes)) e
      ∙ drop-append_ge (length bytes + m) (take start block)
          (bytes ++ drop (start + length bytes) block)
      ∙ drop-append_ge m bytes (drop (start + length bytes) block)
      ∙ drop-drop m (start + length bytes) block
      ∙ ap (λ k. drop k block) f

pub take-blit_zero :
    (block bytes : Bytes)
    → length bytes ≤ length block
    → take (length bytes) (blit block 0 bytes) ≡ bytes
take-blit_zero block bytes h =
    let e : length bytes ≡ 0 + length bytes = omega arith in
    ap (λ k. take k (blit block 0 bytes)) e ∙ take-blit block 0 bytes (omega arith)
