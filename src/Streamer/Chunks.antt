-- ===== src/Streamer/Chunks.antt =====
-- librcom/src/streamer.c and librcom/src/http.c: the chunks as a reader of HTTP finds them.
use rcom.Circular.{Circular, data_available, read}
use rcom.Circular.Bounds.{IsValid, read-IsValid}
use rcom.Circular.Contents.{contents, length-contents}
use rcom.Circular.Read.{read-contents}
use rcom.Streamer.{offers, chunk_length, Turn, streamer_client_run, http_send_chunk, quits, goes_on}
use rcom.Streamer.Flow.{offers-whole}
use rcom.Base.{
  concat, append_assoc, append-nil, inr, inl, arith, subst, ap, sym, Bool, ◌∙◌, ◌<◌, drop-append_ge,
  take-append_le, take_all, length-take, Bool-cases, ℕ, List, Option, none, some, suc, zero, false,
  true, [], ◌+◌, ◌≡◌, ◌∷◌, ◌++◌, All, drop, take, length, if◌then◌else◌, ◌==◌, Bytes, refl,
}

-- The format `%x`, and how a reader takes such a number back. It has no carriage return.
pub record Hex : Type 0 where
  pub hex : ℕ → Bytes
  pub read_hex : Bytes → Option ℕ
  pub read_hex-hex : (n : ℕ) → read_hex (hex n) ≡ some n
  pub hex_line : (n : ℕ) → All (λ c. (c == 13) ≡ false) (hex n)

abbrev with_first : ℕ → Option (Bytes × Bytes) → Option (Bytes × Bytes)
with_first c none = none
with_first c (some (line, rest)) = some (c ∷ line, rest)

-- what follows the byte `b`, which must come first
abbrev skip : ℕ → Bytes → Option Bytes
skip b [] = none
skip b (c ∷ s) = if c == b then some s else none

-- what follows the end of a line, which must come first
abbrev pub skip_crlf : Bytes → Option Bytes
skip_crlf s = elim (skip 13 s) [ none ↦ none | some t ↦ skip 10 t ]

abbrev empty_line : Option Bytes → Option (Bytes × Bytes)
empty_line none = none
empty_line (some s) = some ([], s)

-- the text up to a carriage return, and what follows the line feed, which must come behind it
pub split_line : Bytes → Option (Bytes × Bytes)
split_line [] = none
split_line (c ∷ s) =
    let more = with_first c (split_line s) in if c == 13 then empty_line (skip 10 s) else more

-- one chunk in front of those that follow
abbrev prepend : Bytes → Option (Bytes × Bytes) → Option (Bytes × Bytes)
prepend b none = none
prepend b (some (bs, rest)) = some (b ++ bs, rest)

-- all the chunks that a client is sent
abbrev pub stream_text : (ℕ → Bytes) → List Bytes → Bytes
stream_text hex [] = []
stream_text hex (c ∷ cs) = http_send_chunk hex c ++ stream_text hex cs

-- the chunks of a run: none is empty but the last
abbrev pub IsStream : List Bytes → Type 0
IsStream [] = Unit
IsStream ([] ∷ cs) = cs ≡ []
IsStream ((b ∷ bs) ∷ cs) = IsStream cs

module _ (H : Hex) where
  -- A reader of the chunked coding of RFC 7230, for `fuel` chunks: the content up to the empty chunk, and
  -- the rest. A line end must stand behind each size and each content, and no trailer is read.
  pub read_chunks : ℕ → Bytes → Option (Bytes × Bytes)
  read_chunks zero s = none
  read_chunks (suc fuel) s = elim (split_line s) [
    | none ↦ none
    | some (line, rest) ↦ elim (H.read_hex line) [
      | none ↦ none
      | some n ↦ elim (n == 0) [
        | true ↦ empty_line (skip_crlf rest)
        | false ↦ elim (skip_crlf (drop n rest)) [
          | none ↦ none
          | some rest' ↦ prepend (take n rest) (read_chunks fuel rest')
        ]
      ]
    ]
  ]

  split-size :
      (line s : Bytes)
      → All (λ c. (c == 13) ≡ false) line
      → split_line (line ++ 13 ∷ 10 ∷ s) ≡ some (line, s)
  unfolding split_line
  split-size [] s v = refl
  split-size (c ∷ line) s v = rw (v.0, split-size line s v.1)

  split-chunk :
      (c rest : Bytes)
      → split_line (http_send_chunk H.hex c ++ rest)
        ≡ some (H.hex (length c), c ++ (13 ∷ 10 ∷ rest))
  unfolding http_send_chunk
  split-chunk c rest =
      let regrouped : http_send_chunk H.hex c ++ rest
          ≡ H.hex (length c) ++ 13 ∷ 10 ∷ (c ++ (13 ∷ 10 ∷ rest)) =
        simp append_assoc in
      ap split_line regrouped
      ∙ split-size (H.hex (length c)) (c ++ (13 ∷ 10 ∷ rest)) (H.hex_line (length c))

  read_chunks-last :
      (fuel : ℕ) (rest : Bytes)
      → read_chunks (suc fuel) (http_send_chunk H.hex [] ++ rest) ≡ some ([], rest)
  unfolding read_chunks
  read_chunks-last fuel rest = rw (read_chunks, split-chunk [] rest, H.read_hex-hex 0)

  read_chunks-next :
      (fuel : ℕ) (b : ℕ) (bs rest : Bytes)
      → read_chunks (suc fuel) (http_send_chunk H.hex (b ∷ bs) ++ rest)
        ≡ prepend (b ∷ bs) (read_chunks fuel rest)
  unfolding read_chunks
  read_chunks-next fuel b bs rest =
      let chunk : Bytes = b ∷ bs in
      let tail : Bytes = 13 ∷ 10 ∷ rest in
      let full : (length chunk == 0) ≡ false = ground arith in
      let front : take (length chunk) (chunk ++ tail) ≡ chunk =
        take-append_le (length chunk) chunk tail (omega arith)
        ∙ take_all (length chunk) chunk (omega arith) in
      let back : drop (length chunk) (chunk ++ tail) ≡ tail =
        let same : length chunk ≡ length chunk + 0 = omega arith in
        ap (λ n. drop n (chunk ++ tail)) same ∙ drop-append_ge 0 chunk tail in
      rw (read_chunks, split-chunk chunk rest, H.read_hex-hex (length chunk), full, back)
        (ap (λ x. prepend x (read_chunks fuel rest)) front)

  -- a stream that ends with the empty chunk
  pub read_chunks-stream :
      (cs : List Bytes) (rest : Bytes)
      → IsStream (cs ++ [] ∷ [])
      → read_chunks (length (cs ++ [] ∷ [])) (stream_text H.hex (cs ++ [] ∷ []) ++ rest)
        ≡ some (concat (cs ++ [] ∷ []), rest)
  read_chunks-stream [] rest v =
      ap (λ t. read_chunks 1 (t ++ rest)) (append-nil (http_send_chunk H.hex []))
      ∙ read_chunks-last 0 rest
  read_chunks-stream ([] ∷ []) rest v = absurd (cc)
  read_chunks-stream ([] ∷ c ∷ cs) rest v = absurd (cc)
  read_chunks-stream ((b ∷ bs) ∷ cs) rest v =
      ap (read_chunks (length ((b ∷ bs) ∷ (cs ++ [] ∷ []))))
        (append_assoc (http_send_chunk H.hex (b ∷ bs)) (stream_text H.hex (cs ++ [] ∷ [])) rest)
      ∙ read_chunks-next (length (cs ++ [] ∷ [])) b bs (stream_text H.hex (cs ++ [] ∷ []) ++ rest)
      ∙ ap (prepend (b ∷ bs)) (read_chunks-stream cs rest v)

chunk-full :
    (c : Circular)
    → IsValid c
    → (data_available c == 0) ≡ false
    → 0 < length (read c (chunk_length c)).0
chunk-full c v e =
    let out = (read-contents (chunk_length c) v (ground arith)).0 in
    ground (arith, e, ap length out, length-take (chunk_length c) (contents c), length-contents v)

IsStream-cons : (s : Bytes) (cs : List Bytes) → 0 < length s → IsStream cs → IsStream (s ∷ cs)
IsStream-cons [] cs h v = absurd (omega arith)
IsStream-cons (b ∷ bs) cs h v = v

run-IsStream :
    (turns : List Turn) (waiting : Bool) (c : Circular)
    → IsValid c
    → IsStream (streamer_client_run turns waiting c).chunks
unfolding streamer_client_run
run-IsStream [] waiting c v = tt
run-IsStream (quits ∷ turns) true c v = refl
run-IsStream (quits ∷ turns) false c v = tt
run-IsStream (goes_on parts sent ∷ turns) waiting c v =
    let c' = offers parts c in
    let w = (offers-whole parts c v).0 in
    let waits = run-IsStream turns true c' w in
    let c2 = (read c' (chunk_length c')).1 in
    let more = run-IsStream turns false c2 (read-IsValid (chunk_length c') w) in
    elim (Bool-cases (data_available c' == 0)) [
      | inl empty ↦ rw empty waits
      | inr some_bytes ↦ elim (Bool-cases sent) [
        | inl yes_sent ↦
            rw (some_bytes, yes_sent)
              (IsStream-cons (read c' (chunk_length c')).0
                (streamer_client_run turns false c2).chunks (chunk-full c' w some_bytes) more)
        | inr not_sent ↦ rw (some_bytes, not_sent) tt
      ]
    ]

-- If the last chunk of a run is the empty one, which is sent where the streamer stops while it waits for
-- data, then a reader of the chunked coding finds in what the client is sent exactly the bytes of the
-- chunks, in their order, and the end.
pub read_chunks-run :
    (H : Hex) (turns : List Turn) (waiting : Bool) (c : Circular) (cs : List Bytes) (rest : Bytes)
    → IsValid c
    → (streamer_client_run turns waiting c).chunks ≡ cs ++ [] ∷ []
    → read_chunks H
        (length (streamer_client_run turns waiting c).chunks)
        (stream_text H.hex (streamer_client_run turns waiting c).chunks ++ rest)
      ≡ some (concat (streamer_client_run turns waiting c).chunks, rest)
read_chunks-run H turns waiting c cs rest v e =
    let good = subst IsStream e (run-IsStream turns waiting c v) in
    subst (λ t. read_chunks H (length t) (stream_text H.hex t ++ rest) ≡ some (concat t, rest))
      (sym e) (read_chunks-stream H cs rest good)
