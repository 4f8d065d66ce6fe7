-- ===== src/Streamer/Flow.antt =====
-- librcom/src/streamer.c: the way of the bytes from the parts to the chunks.
use rcom.Streamer.Parts.{contents-offer, offer-IsValid}
use rcom.Circular.{Circular, data_available, space_available, read}
use rcom.Circular.Bounds.{IsValid, read-IsValid}
use rcom.Circular.Contents.{contents}
use rcom.Circular.Read.{read-contents}
use rcom.Streamer.{
  after_chunk, chunk_length, streamer_client_run, Run, offer, Turn, offers, Part, quits, goes_on,
}
use rcom.Base.{
  concat, arith, ap₂, Bool, false, true, take-append-drop, ◌==◌, append_assoc, append-nil, inr, inl,
  ap, sym, List, [], ◌∙◌, ◌+◌, ◌≡◌, ◌∷◌, ◌++◌, map, length, Bool-cases, ltb, Bytes, refl,
}

abbrev pub whole : Part → Bytes
whole p = p.header ++ p.content

-- some of the parts, in their order
pub data Chosen : List Part → List Part → Type 0 where
  finished : Chosen [] []
  taken : (p : Part) (ps qs : List Part) → Chosen ps qs → Chosen (p ∷ ps) (p ∷ qs)
  skipped : (p : Part) (ps qs : List Part) → Chosen ps qs → Chosen ps (p ∷ qs)

Chosen-append :
    (ps qs rs ss : List Part) → Chosen ps qs → Chosen rs ss → Chosen (ps ++ rs) (qs ++ ss)
Chosen-append ps qs rs ss finished d = d
Chosen-append ps qs rs ss (taken p xs ys c) d =
    taken p (xs ++ rs) (ys ++ ss) (Chosen-append xs ys rs ss c d)
Chosen-append ps qs rs ss (skipped p xs ys c) d =
    skipped p (xs ++ rs) (ys ++ ss) (Chosen-append xs ys rs ss c d)

concat-append : (xs ys : List Bytes) → concat (xs ++ ys) ≡ concat xs ++ concat ys
concat-append [] ys = refl
concat-append (x ∷ xs) ys =
    ap (λ t. x ++ t) (concat-append xs ys) ∙ sym (append_assoc x (concat xs) (concat ys))

-- all parts that are offered in these turns
abbrev pub parts_of : List Turn → List Part
parts_of [] = []
parts_of (quits ∷ turns) = []
parts_of (goes_on parts sent ∷ turns) = parts ++ parts_of turns

pub offers-whole :
    (ps : List Part) (c : Circular)
    → IsValid c
    → IsValid (offers ps c)
      × ((chosen : List Part) × Chosen chosen ps
          × (contents (offers ps c) ≡ contents c ++ concat (map whole chosen)))
offers-whole [] c v = (v, ([], finished, sym (append-nil (contents c))))
offers-whole (p ∷ ps) c v =
    let w = offer-IsValid p.header p.content c v in
    let (w', (chosen, d, e)) = offers-whole ps (offer p.header p.content c) w in
    let first = contents-offer p.header p.content c v in
    (
      w',
      elim (Bool-cases (ltb (length p.header + length p.content) (space_available c))) [
        | inl fits ↦ (
          p ∷ chosen,
          taken p chosen ps d,
          e
              ∙ ap (λ t. t ++ concat (map whole chosen)) (rw fits at first)
              ∙ append_assoc (contents c) (whole p) (concat (map whole chosen)),
        )
        | inr full ↦ (
          chosen,
          skipped p chosen ps d,
          e ∙ ap (λ t. t ++ concat (map whole chosen)) (rw full at first),
        )
      ],
    )

none_of : (ps : List Part) → Chosen [] ps
none_of [] = finished
none_of (p ∷ ps) = skipped p [] ps (none_of ps)

wholes-append :
    (q : Bytes) (a b : List Part)
    → (q ++ concat (map whole a)) ++ concat (map whole b) ≡ q ++ concat (map whole (a ++ b))
wholes-append q [] b = ap (λ t. t ++ concat (map whole b)) (append-nil q)
wholes-append q (p ∷ a) b =
    ap (λ t. t ++ concat (map whole b)) (sym (append_assoc q (whole p) (concat (map whole a))))
    ∙ wholes-append (q ++ whole p) a b
    ∙ append_assoc q (whole p) (concat (map whole (a ++ b)))

read_chunk :
    (c : Circular)
    → IsValid c
    → (read c (chunk_length c)).0 ++ contents (read c (chunk_length c)).1 ≡ contents c
read_chunk c v =
    let (out, left) = read-contents (chunk_length c) v (ground arith) in
    ap₂ ◌++◌ out left ∙ take-append-drop (chunk_length c) (contents c)

-- what has left the buffer or is still in it
abbrev pub all_bytes : Run → Bytes
all_bytes r = concat r.chunks ++ (r.lost ++ contents r.buffer)

-- the runs that are right: `q` is what the buffer held, `ps` are the parts that are offered
pub record IsFlow (q : Bytes) (ps : List Part) (r : Run) : Type 0 where
  pub valid : IsValid r.buffer
  pub chosen : List Part
  pub in_order : Chosen chosen ps
  pub same : all_bytes r ≡ q ++ concat (map whole chosen)

module _ (turns : List Turn) (parts : List Part) (c : Circular) (v : IsValid c) where
  abbrev after : Circular
  after = offers parts c

  later :
      (r : Run)
      → IsFlow (contents after) (parts_of turns) r
      → IsFlow (contents c) (parts ++ parts_of turns) r
  later r f =
      let (w, (chosen, d, e)) = offers-whole parts c v in
      record {
        valid = f.valid;
        chosen = chosen ++ f.chosen;
        in_order = Chosen-append chosen parts f.chosen (parts_of turns) d f.in_order;
        same =
            f.same
            ∙ ap (λ t. t ++ concat (map whole f.chosen)) e
            ∙ wholes-append (contents c) chosen f.chosen;
      }

  chunk_sent :
      (r : Run)
      → IsFlow (contents (read after (chunk_length after)).1) (parts_of turns) r
      → IsFlow (contents after) (parts_of turns) (after_chunk (read after (chunk_length after)).0 r)
  chunk_sent r f =
      let bytes = (read after (chunk_length after)).0 in
      record {
        valid = f.valid;
        chosen = f.chosen;
        in_order = f.in_order;
        same =
            append_assoc bytes (concat r.chunks) (r.lost ++ contents r.buffer)
            ∙ ap (λ t. bytes ++ t) f.same
            ∙ sym (
                append_assoc bytes (contents (read after (chunk_length after)).1)
                  (concat (map whole f.chosen)))
            ∙ ap (λ t. t ++ concat (map whole f.chosen))
                (read_chunk after (offers-whole parts c v).0);
      }

  chunk_lost : IsFlow (contents after) (parts_of turns) (record {
    chunks = [];
    lost = (read after (chunk_length after)).0;
    buffer = (read after (chunk_length after)).1;
  })
  chunk_lost = record {
    valid = read-IsValid (chunk_length after) (offers-whole parts c v).0;
    chosen = [];
    in_order = none_of (parts_of turns);
    same = read_chunk after (offers-whole parts c v).0 ∙ sym (append-nil (contents after));
  }

-- Whatever a streamer offers to a client, however the turns of its loops fall, and whether or not a
-- chunk cannot be sent: the chunks in their order, the one that was lost and what the buffer still holds
-- make up what the buffer held and then some of the parts, each whole and in their order; and the buffer
-- stays valid.
pub run-IsFlow :
    (turns : List Turn) (waiting : Bool) (c : Circular)
    → IsValid c
    → IsFlow (contents c) (parts_of turns) (streamer_client_run turns waiting c)
unfolding streamer_client_run
run-IsFlow [] waiting c v = record {
  valid = v;
  chosen = [];
  in_order = finished;
  same = sym (append-nil (contents c));
}
run-IsFlow (quits ∷ turns) true c v = record {
  valid = v;
  chosen = [];
  in_order = finished;
  same = sym (append-nil (contents c));
}
run-IsFlow (quits ∷ turns) false c v = record {
  valid = v;
  chosen = [];
  in_order = finished;
  same = sym (append-nil (contents c));
}
run-IsFlow (goes_on parts sent ∷ turns) waiting c v =
    let w = (offers-whole parts c v).0 in
    let waits = run-IsFlow turns true (offers parts c) w in
    let c2 = (read (offers parts c) (chunk_length (offers parts c))).1 in
    let more = run-IsFlow turns false c2 (read-IsValid (chunk_length (offers parts c)) w) in
    elim (Bool-cases (data_available (offers parts c) == 0)) [
      | inl empty ↦
          rw empty (later turns parts c v (streamer_client_run turns true (offers parts c)) waits)
      | inr some_bytes ↦ elim (Bool-cases sent) [
        | inl yes_sent ↦
            rw (some_bytes, yes_sent)
              (later turns parts c v _
                (chunk_sent turns parts c v (streamer_client_run turns false c2) more))
        | inr not_sent ↦
            rw (some_bytes, not_sent) (later turns parts c v _ (chunk_lost turns parts c v))
      ]
    ]
