-- ===== src/Circular/Contents.antt =====
-- circular.c: the bytes that a buffer holds, as a queue.
use rcom.Base.{
  ℕ, ◌+◌, ◌≤◌, ◌<◌, ◌≡◌, ◌⊎◌, ◌++◌, leb, if◌then◌else◌, arith, length, take, drop, Bytes,
  length-take, length-drop, length-append,
}
use rcom.Circular.{Circular, data_available}
use rcom.Circular.Bounds.{IsValid}

-- The bytes stored, oldest first.
unfoldable pub contents : Circular → Bytes
contents r =
    if leb r.readpos r.writepos
    then drop r.readpos (take r.writepos r.buffer)
    else drop r.readpos r.buffer ++ take r.writepos r.buffer

pub contents_straight :
    (r : Circular) → r.readpos ≤ r.writepos → contents r ≡ drop r.readpos (take r.writepos r.buffer)
unfolding contents
contents_straight r h = ground arith

pub contents_wrapped :
    (r : Circular)
    → r.writepos < r.readpos
    → contents r ≡ drop r.readpos r.buffer ++ take r.writepos r.buffer
unfolding contents
contents_wrapped r h = ground arith

-- `circular_buffer_data_available` is the number of bytes stored.
pub length-contents : {r : Circular} → IsValid r → length (contents r) ≡ data_available r
unfolding contents data_available
length-contents {r} v = ground (
  arith,
  length-drop r.readpos (take r.writepos r.buffer),
  length-take r.writepos r.buffer,
  length-drop r.readpos r.buffer,
  length-append (drop r.readpos r.buffer) (take r.writepos r.buffer),
)

-- The buffer can tell the result of writing `n` bytes from an emptier one: a byte stays free, or
-- nothing was read yet.
abbrev pub HasRoom : Circular → ℕ → Type 0
HasRoom r n = (data_available r + n < r.size) ⊎ ((r.readpos ≡ 0) × (data_available r + n ≤ r.size))
