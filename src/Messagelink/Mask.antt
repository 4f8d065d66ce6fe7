-- ===== src/Messagelink/Mask.antt =====
-- messagelink.c: masking, in blocks or at once, and unmasking.
use rcom.Base.{
  append_assoc, append-nil, ℕ, arith, ap₂, ap, sym, refl, Bool, suc, zero, false, true, [], ◌∙◌,
  ◌≤◌, ◌≡◌, ◌∷◌, ◌++◌, take-append-drop, length-drop, drop, take, get_or, length, if◌then◌else◌,
  Bytes,
}
use Prim.Native.Nat.{bit_xor}
use rcom.Rlib.{Membuf}
use rcom.Base.Bits.{bit_xor_twice}
use rcom.Messagelink.{next, mask_bytes, mask_pos, append_masked, frame_append_payload}

pub length-mask_bytes :
    (mask : Bytes) (j : ℕ) (bs : Bytes) → length (mask_bytes mask j bs) ≡ length bs
unfolding mask_bytes
length-mask_bytes mask j [] = refl
length-mask_bytes mask j (b ∷ bs) = ap suc (length-mask_bytes mask (next j) bs)

-- Masking is its own inverse, from any position in the mask.
pub mask_bytes-mask_bytes :
    (mask : Bytes) (j : ℕ) (bs : Bytes) → mask_bytes mask j (mask_bytes mask j bs) ≡ bs
unfolding mask_bytes
mask_bytes-mask_bytes mask j [] = refl
mask_bytes-mask_bytes mask j (b ∷ bs) =
    ap₂ ◌∷◌ (bit_xor_twice b (get_or mask j 0)) (mask_bytes-mask_bytes mask (next j) bs)

pub mask_bytes-nil : (mask : Bytes) (j : ℕ) → mask_bytes mask j [] ≡ []
unfolding mask_bytes
mask_bytes-nil mask j = refl

pub mask_bytes-append :
    (mask : Bytes) (j : ℕ) (xs ys : Bytes)
    → mask_bytes mask j (xs ++ ys) ≡ mask_bytes mask j xs ++ mask_bytes mask (mask_pos j xs) ys
unfolding mask_bytes mask_pos
mask_bytes-append mask j [] ys = refl
mask_bytes-append mask j (x ∷ xs) ys =
    ap (◌∷◌ (bit_xor x (get_or mask j 0))) (mask_bytes-append mask (next j) xs ys)

module _ (M : Membuf) where
  open M use {Buf, bytes, bytes-append}

  append_masked-mask_bytes :
      (fuel : ℕ) (buf : Buf) (mask : Bytes) (j : ℕ) (payload : Bytes)
      → length payload ≤ fuel
      → bytes (append_masked M fuel buf mask j payload) ≡ bytes buf ++ mask_bytes mask j payload
  unfolding append_masked mask_bytes
  append_masked-mask_bytes zero buf mask j [] h = sym (append-nil (bytes buf))
  append_masked-mask_bytes zero buf mask j (b ∷ bs) h = elim h [ ]
  append_masked-mask_bytes (suc fuel) buf mask j [] h = sym (append-nil (bytes buf))
  append_masked-mask_bytes (suc fuel) buf mask j (b ∷ bs) h =
      let all = b ∷ bs in
      let block = take 1024 all in
      let rest = drop 1024 all in
      append_masked-mask_bytes fuel _ mask (mask_pos j block) rest
        (omega (arith, length-drop 1024 all))
      ∙ ap (λ t. t ++ mask_bytes mask (mask_pos j block) rest)
          (bytes-append buf (mask_bytes mask j block))
      ∙ append_assoc (bytes buf) (mask_bytes mask j block) (mask_bytes mask (mask_pos j block) rest)
      ∙ ap (λ t. bytes buf ++ t)
          (sym (mask_bytes-append mask j block rest)
            ∙ ap (mask_bytes mask j) (take-append-drop 1024 all))

  -- The blocks of 1024 bytes do not show: `frame_append_payload` appends the payload masked as one
  -- piece, or as it is.
  pub bytes-frame_append_payload :
      (buf : Buf) (masked : Bool) (mask payload : Bytes)
      → bytes (frame_append_payload M buf masked mask payload)
        ≡ bytes buf ++ (if masked then mask_bytes mask 0 payload else payload)
  unfolding frame_append_payload
  bytes-frame_append_payload buf true mask payload =
      append_masked-mask_bytes (length payload) buf mask 0 payload (omega arith)
  bytes-frame_append_payload buf false mask payload = bytes-append buf payload
