-- ===== src/Circular/Tests.antt =====
-- The circular buffer at concrete inputs.
use rcom.Base.{◌+◌, ◌≡◌, refl, min, List, [], ◌∷◌, arith, length}
use rcom.Circular.{
  Circular, new_circular_buffer, data_available, space_available, write, write_first, write_second,
  read,
}
use rcom.Circular.Bounds.{IsValid, data_available-add-space_available, length-read}
use rcom.Circular.Contents.{contents, length-contents}
use rcom.Circular.Write.{write_full_lem}
use rcom.Circular.Session.{Op, put, get, run, run_queue, run-run_queue}

-- 5 bytes of a block of 8 written, 4 of them read
abbrev moved : Circular
moved = record { buffer = 1 ∷ 2 ∷ 3 ∷ 4 ∷ 5 ∷ 0 ∷ 0 ∷ 0 ∷ []; size = 8; readpos = 4; writepos = 5 }

-- 9, then 1 and 2 round the end of the block
abbrev wrapped : Circular
wrapped = record {
  buffer = 1 ∷ 2 ∷ 0 ∷ 0 ∷ 0 ∷ 0 ∷ 0 ∷ 9 ∷ [];
  size = 8;
  readpos = 7;
  writepos = 2;
}

abbrev script : List Op
script = put (6 ∷ 7 ∷ 8 ∷ 9 ∷ []) ∷ get 2 ∷ put (10 ∷ 11 ∷ []) ∷ get 5 ∷ []

moved-IsValid : IsValid moved
moved-IsValid = omega arith

wrapped-IsValid : IsValid wrapped
wrapped-IsValid = omega arith

run-script : run moved script ≡ (5 ∷ 6 ∷ []) ∷ (7 ∷ 8 ∷ 9 ∷ 10 ∷ 11 ∷ []) ∷ []
unfolding run read write write_first write_second
run-script = refl

new_script :
    run (new_circular_buffer 4) (put (1 ∷ 2 ∷ 3 ∷ []) ∷ get 2 ∷ put (4 ∷ 5 ∷ []) ∷ get 3 ∷ [])
    ≡ (1 ∷ 2 ∷ []) ∷ (3 ∷ 4 ∷ 5 ∷ []) ∷ []
unfolding run read write write_first write_second new_circular_buffer
new_script = refl

data_available-add-space_available_example : data_available moved + space_available moved ≡ 8
data_available-add-space_available_example = data_available-add-space_available moved-IsValid

length-read_example : length (read wrapped 12).0 ≡ min 12 8
length-read_example = length-read 12 wrapped-IsValid

length-contents_example : length (contents wrapped) ≡ data_available wrapped
length-contents_example = length-contents wrapped-IsValid

full_buffer :
    (data_available (write moved (6 ∷ 7 ∷ 8 ∷ 9 ∷ 1 ∷ 2 ∷ 3 ∷ [])) ≡ 0)
    × (space_available (write moved (6 ∷ 7 ∷ 8 ∷ 9 ∷ 1 ∷ 2 ∷ 3 ∷ [])) ≡ 8)
unfolding data_available
full_buffer =
    write_full_lem (6 ∷ 7 ∷ 8 ∷ 9 ∷ 1 ∷ 2 ∷ 3 ∷ []) moved-IsValid (omega arith) (omega arith)
      (omega arith)

run-run_queue_example : run moved script ≡ run_queue (contents moved) script
unfolding contents
run-run_queue_example = run-run_queue script moved-IsValid (omega arith)
