-- ===== src/Messagelink/Payload.antt =====
-- messagelink.c: the loop of `messagelink_read_message` reads the payload whatever pieces it comes in.
use rcom.Base.{
  append-nil, append_assoc, ℕ, arith, ap₂, ap, sym, refl, Bool, List, suc, zero, false, true, [],
  ◌∙◌, ◌≤◌, ◌-◌, ◌+◌, ◌≡◌, ◌∷◌, ◌++◌, drop-append_ge, take-append_ge, take-append-drop, length-take,
  length-append, drop, take, length, if◌then◌else◌, ltb, Bytes,
}
use rcom.Rlib.{Membuf}
use rcom.Net.{Recv, chunk, shutdown, again, broken, leftover, tcp_socket_recv}
use rcom.Net.Stream.{stream, IsPieces, Gives, stream-leftover, IsPieces-leftover}
use rcom.Messagelink.{mask_bytes, mask_pos, read_payload}
use rcom.Messagelink.Mask.{mask_bytes-append}

-- What the receiver makes of its bytes, from position `j` of the mask on: only a server unmasks.
abbrev pub decode : Bool → Bytes → ℕ → Bytes → Bytes
decode is_client mask j bs = if is_client then bs else mask_bytes mask j bs

abbrev pub after : Bool → ℕ → Bytes → ℕ
after is_client j bs = if is_client then j else mask_pos j bs

decode-append :
    (is_client : Bool) (mask : Bytes) (j : ℕ) (xs ys : Bytes)
    → decode is_client mask j (xs ++ ys)
      ≡ decode is_client mask j xs ++ decode is_client mask (after is_client j xs) ys
decode-append true mask j xs ys = refl
decode-append false mask j xs ys = mask_bytes-append mask j xs ys

decode-nil : (is_client : Bool) (mask : Bytes) (j : ℕ) → decode is_client mask j [] ≡ []
unfolding mask_bytes
decode-nil true mask j = refl
decode-nil false mask j = refl

abbrev limit : ℕ → ℕ
limit left = if ltb 1024 left then 1024 else left

module _ (M : Membuf) (is_client : Bool) (mask : Bytes) where
  open M use {Buf, bytes, append, bytes-append}

  -- one round of the loop, for a block of at most `suc k` bytes
  round :
      (fuel j left k b : ℕ) (bs : Bytes) (es : List Recv) (buf : Buf)
      → limit (suc left) ≡ suc k
      → read_payload M (suc fuel) is_client mask j (suc left) buf (chunk b bs ∷ es)
        ≡ read_payload M fuel is_client mask
            (after is_client j (b ∷ take k bs))
            (suc left - length (b ∷ take k bs))
            (append buf (decode is_client mask j (b ∷ take k bs)))
            (leftover (drop k bs) es)
  unfolding read_payload tcp_socket_recv
  round fuel j left k b bs es buf e = rw e

  pub read_payload-stream :
      (fuel j left : ℕ) (buf : Buf) (es : List Recv)
      → left ≤ fuel
      → left ≤ length (stream es)
      → IsPieces es
      → (buf' : Buf) × Gives
          (read_payload M fuel is_client mask j left buf)
          es
          buf'
          (drop left (stream es))
        × (bytes buf' ≡ bytes buf ++ decode is_client mask j (take left (stream es)))
  unfolding read_payload
  read_payload-stream fuel j zero buf es f h p =
      (buf, (es, refl, refl, p), rw (decode-nil is_client mask j) (sym (append-nil (bytes buf))))
  read_payload-stream zero j (suc left) buf es f h p = elim f [ ]
  read_payload-stream (suc fuel) j (suc left) buf [] f h p = elim h [ ]
  read_payload-stream (suc fuel) j (suc left) buf (shutdown ∷ es) f h p = absurd p
  read_payload-stream (suc fuel) j (suc left) buf (again ∷ es) f h p = absurd p
  read_payload-stream (suc fuel) j (suc left) buf (broken ∷ es) f h p = absurd p
  read_payload-stream (suc fuel) j (suc left) buf (chunk b bs ∷ es) f h p =
      let k = limit (suc left) - 1 in
      let e : limit (suc left) ≡ suc k = ground arith in
      let k_le : k ≤ left = ground arith in
      let piece = b ∷ take k bs in
      let rest = drop k bs in
      let l = length-take k bs in
      let left' = suc left - length piece in
      let es' = leftover rest es in
      let s' : stream es' ≡ rest ++ stream es = stream-leftover rest es in
      let whole : stream (chunk b bs ∷ es) ≡ piece ++ stream es' =
        ap (λ t. b ∷ t)
          (ap (λ t. t ++ stream es) (sym (take-append-drop k bs))
            ∙ append_assoc (take k bs) rest (stream es)
            ∙ ap (λ t. take k bs ++ t) (sym s')) in
      let n : suc left ≡ length piece + left' = omega (arith, l) in
      let fits : left' ≤ length (stream es') =
        omega (arith, ap length whole, length-append piece (stream es'), h, n) in
      let (buf', (es'', run, after_bytes, pieces), held) =
        read_payload-stream fuel (after is_client j piece) left'
          (append buf (decode is_client mask j piece)) es' (omega (arith, l)) fits
          (IsPieces-leftover rest es p) in
      let front : take (suc left) (stream (chunk b bs ∷ es)) ≡ piece ++ take left' (stream es') =
        ap₂ take n whole ∙ take-append_ge left' piece (stream es') in
      let back : drop (suc left) (stream (chunk b bs ∷ es)) ≡ drop left' (stream es') =
        ap₂ drop n whole ∙ drop-append_ge left' piece (stream es') in
      (
        buf',
        (es'', round fuel j left k b bs es buf e ∙ run, after_bytes ∙ sym back, pieces),
        held
            ∙ ap
                (λ t.
                  t ++ decode is_client mask (after is_client j piece) (take left' (stream es')))
                (bytes-append buf (decode is_client mask j piece))
            ∙ append_assoc (bytes buf) (decode is_client mask j piece) _
            ∙ ap (λ t. bytes buf ++ t)
                (sym (decode-append is_client mask j piece (take left' (stream es')))
                  ∙ ap (decode is_client mask j) (sym front)),
      )
