-- ===== src/Circular/Session.antt =====
-- circular.c: a whole sequence of calls against a queue of bytes.
use rcom.Base.{
  ℕ, ◌+◌, ◌≤◌, ◌<◌, ◌≡◌, inl, refl, ap, ap₂, ◌∙◌, List, [], ◌∷◌, ◌++◌, arith, length, take, drop,
  Bytes,
}
use rcom.Circular.{Circular, write, read}
use rcom.Circular.Bounds.{IsValid, write-IsValid, read-IsValid, size-write, size-read}
use rcom.Circular.Contents.{contents, length-contents}
use rcom.Circular.Write.{contents-write}
use rcom.Circular.Read.{read-contents}

-- What a caller asks of a buffer.
pub data Op : Type 0 where
  put : Bytes → Op
  get : ℕ → Op

-- The calls in order, with the bytes that each read returned.
unfoldable pub run : Circular → List Op → List Bytes
run r [] = []
run r (put bytes ∷ ops) = run (write r bytes) ops
run r (get n ∷ ops) = let (bytes, r') = read r n in bytes ∷ run r' ops

-- The same calls on an unbounded queue.
pub run_queue : Bytes → List Op → List Bytes
run_queue q [] = []
run_queue q (put bytes ∷ ops) = run_queue (q ++ bytes) ops
run_queue q (get n ∷ ops) = take n q ∷ run_queue (drop n q) ops

-- The caller writes only where a byte stays free, and reads only what is stored.
abbrev pub Respects : ℕ → Bytes → List Op → Type 0
Respects size q [] = Unit
Respects size q (put bytes ∷ ops) =
    (length q + length bytes < size) × Respects size (q ++ bytes) ops
Respects size q (get n ∷ ops) = (n ≤ length q) × Respects size (drop n q) ops

-- No caller that keeps a byte free and reads only what is stored can tell a valid buffer from a
-- queue of the bytes that it holds.
pub run-run_queue :
    (ops : List Op) {r : Circular}
    → IsValid r
    → Respects r.size (contents r) ops
    → run r ops ≡ run_queue (contents r) ops
unfolding run run_queue
run-run_queue [] v h = refl
run-run_queue (put bytes ∷ ops) {r} v (room, rest) =
    let e : contents (write r bytes) ≡ contents r ++ bytes =
      contents-write bytes v (inl (omega (arith, length-contents v))) in
    let rest' : Respects (write r bytes).size (contents (write r bytes)) ops =
      rw (e, size-write r bytes) rest in
    run-run_queue ops (write-IsValid bytes v) rest' ∙ ap (λ q. run_queue q ops) e
run-run_queue (get n ∷ ops) {r} v (stored, rest) =
    let (out, left) = read-contents n v (omega (arith, length-contents v)) in
    let rest' : Respects (read r n).1.size (contents (read r n).1) ops =
      rw (left, size-read r n) rest in
    ap₂ ◌∷◌ out (run-run_queue ops (read-IsValid n v) rest' ∙ ap (λ q. run_queue q ops) left)
