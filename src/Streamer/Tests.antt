-- ===== src/Streamer/Tests.antt =====
-- librcom/src/streamer.c: one part on its way to a client, and the theorems on it.
use rcom.Rlib.{list_strings}
use rcom.Request.{new_request, Request, returns}
use rcom.Streamer.Server.{streamer_start_stream, route, streamer_run_server, error_headers}
use rcom.Streamer.Parts.{send_multipart_lem, offered}
use rcom.Streamer.Chunks.{read_chunks-run, stream_text, read_chunks, Hex}
use rcom.Circular.{
  Circular, new_circular_buffer, write, write_first, write_second, read, data_available,
  space_available,
}
use rcom.Circular.Bounds.{IsValid, new-IsValid}
use rcom.Circular.Contents.{contents}
use rcom.Streamer.{
  multipart_header, offer, streamer_send_multipart, Turn, streamer_client_run, quits, goes_on,
}
use rcom.Streamer.Flow.{run-IsFlow, parts_of, IsFlow}
use rcom.Base.{
  concat, pos, negsuc, ℕ, arith, ap, List, some, suc, zero, false, true, [], ◌≡◌, ◌∷◌, ◌++◌, map,
  All, length-replicate, replicate, length, ◌==◌, refl, codes,
}

abbrev buffer : Circular
buffer = new_circular_buffer 300

abbrev turns : List Turn
turns =
    goes_on (record { header = codes "h:"; content = codes "xy" } ∷ []) true
    ∷ goes_on [] true
    ∷ quits
    ∷ []

-- as many ones as the number says
ones-line : (n : ℕ) → All (λ c. (c == 13) ≡ false) (replicate n 49)
ones-line zero = tt
ones-line (suc n) = (refl, ones-line n)

abbrev ones : Hex
ones = record {
  hex = λ n. replicate n 49;
  read_hex = λ s. some (length s);
  read_hex-hex = λ n. ap some (length-replicate n 49);
  hex_line = ones-line;
}

run-IsFlow_example :
    IsFlow (contents buffer) (parts_of turns) (streamer_client_run turns false buffer)
run-IsFlow_example = run-IsFlow turns false buffer (new-IsValid 300).0

read_chunks-run_example :
    read_chunks ones
      (length (streamer_client_run turns false buffer).chunks)
      (stream_text ones.hex (streamer_client_run turns false buffer).chunks ++ codes "!")
    ≡ some (concat (streamer_client_run turns false buffer).chunks, codes "!")
unfolding streamer_client_run offer write write_first write_second read data_available
    space_available new_circular_buffer
read_chunks-run_example =
    read_chunks-run ones turns false buffer (codes "h:xy" ∷ []) (codes "!") (new-IsValid 300).0 refl

send_multipart_lem_example :
    (cs : List Circular) × (streamer_send_multipart
        (λ n. n ∷ [])
        (codes "t")
        (codes "1.0")
        (codes "xy")
        (buffer ∷ [])
      ≡ some cs)
    × All IsValid cs
    × (map contents cs
        ≡ map
            (offered (multipart_header (λ n. n ∷ []) (codes "t") 2 (codes "1.0")) (codes "xy"))
            (buffer ∷ []))
send_multipart_lem_example =
    send_multipart_lem (λ n. n ∷ []) (codes "t") (codes "1.0") (codes "xy") (buffer ∷ [])
      ((new-IsValid 300).0, tt) (omega arith)

-- the part arrives in one chunk, and the end behind it
arrives : (streamer_client_run turns false buffer).chunks ≡ codes "h:xy" ∷ [] ∷ []
unfolding streamer_client_run offer write write_first write_second read data_available
    space_available new_circular_buffer
arrives = refl

-- a client that asks for the stream and is refused
abbrev viewer : Request
viewer = record new_request { uri = some (codes "/stream.html") }

refused_viewer :
    streamer_run_server list_strings (some (negsuc 0)) (returns (pos 0) viewer [] [])
    ≡ some (record { answers = error_headers 500 ∷ []; closes = false; starts = false })
unfolding streamer_run_server route streamer_start_stream
refused_viewer = refl
