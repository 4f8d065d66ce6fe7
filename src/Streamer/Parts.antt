-- ===== src/Streamer/Parts.antt =====
-- librcom/src/streamer.c: what a part that is sent adds to the buffers of the clients.
use rcom.Streamer.{multipart_header, offer, streamer_send_multipart}
use rcom.Circular.{Circular, space_available, write}
use rcom.Circular.Bounds.{IsValid, write-IsValid, size-write, data_available-add-space_available}
use rcom.Circular.Contents.{contents, length-contents}
use rcom.Circular.Write.{contents-write}
use rcom.Base.{
  append_assoc, ℕ, inr, inl, arith, ap₂, ap, List, some, [], ◌∙◌, ◌<◌, ◌+◌, ◌≡◌, ◌∷◌, ◌++◌, map,
  All, length-append, length, Bool-cases, lt→ltb, if◌then◌else◌, ltb, Bytes, refl,
}

pub offer-IsValid : (header part : Bytes) (c : Circular) → IsValid c → IsValid (offer header part c)
unfolding offer
offer-IsValid header part c v =
    elim (Bool-cases (ltb (length header + length part) (space_available c))) [
      | inl fits ↦ rw fits (write-IsValid part (write-IsValid header v))
      | inr full ↦ rw full v
    ]

-- the queue of a client's bytes, with the part whole if it leaves a byte free, or without it
abbrev pub offered : Bytes → Bytes → Circular → Bytes
offered header part c =
    if ltb (length header + length part) (space_available c)
    then contents c ++ (header ++ part)
    else contents c

both :
    (header part : Bytes) (c : Circular)
    → IsValid c
    → length header + length part < space_available c
    → contents (write (write c header) part) ≡ contents c ++ (header ++ part)
both header part c v room =
    let sum = data_available-add-space_available v in
    let first = contents-write header v (inl (omega (arith, sum, room))) in
    let second = contents-write part (write-IsValid header v) (
      inl (
        omega (
          arith,
          sum,
          room,
          size-write c header,
          length-contents v,
          length-contents (write-IsValid header v),
          ap length first,
          length-append (contents c) header,
        ))) in
    second ∙ ap (λ t. t ++ part) first ∙ append_assoc (contents c) header part

pub contents-offer :
    (header part : Bytes) (c : Circular)
    → IsValid c
    → contents (offer header part c) ≡ offered header part c
unfolding offer
contents-offer header part c v =
    elim (Bool-cases (ltb (length header + length part) (space_available c))) [
      | inl fits ↦ rw fits (both header part c v (ground (arith, fits)))
      | inr full ↦ rw full refl
    ]

offers_all :
    (header part : Bytes) (cs : List Circular)
    → All IsValid cs
    → All IsValid (map (offer header part) cs)
      × (map contents (map (offer header part) cs) ≡ map (offered header part) cs)
offers_all header part [] v = (tt, refl)
offers_all header part (c ∷ cs) v =
    let (w, e) = offers_all header part cs v.1 in
    (
      (offer-IsValid header part c v.0, w),
      ap₂ (λ x xs. x ∷ xs) (contents-offer header part c v.0) e,
    )

-- If the header has fewer than 512 bytes, `streamer_send_multipart` adds to the bytes of each client the
-- header and the part, whole, where more than their length is free in the client's buffer, and leaves
-- those of the other clients as they are; the buffers stay valid.
pub send_multipart_lem :
    (decimal : ℕ → Bytes) (mimetype time part : Bytes) (cs : List Circular)
    → All IsValid cs
    → length (multipart_header decimal mimetype (length part) time) < 512
    → (cs' : List Circular) × (streamer_send_multipart decimal mimetype time part cs ≡ some cs')
      × All IsValid cs'
      × (map contents cs'
          ≡ map (offered (multipart_header decimal mimetype (length part) time) part) cs)
unfolding streamer_send_multipart
send_multipart_lem decimal mimetype time part cs v short =
    let header = multipart_header decimal mimetype (length part) time in
    let (w, e) = offers_all header part cs v in
    (map (offer header part) cs, rw (lt→ltb (length header) 512 short), w, e)
