-- ===== src/Streamer.antt =====
-- librcom/src/streamer.c, and http_send_chunk of librcom/src/http.c: the parts of a stream on their way
-- through the circular buffers of the clients, and the chunks that a client is sent. Each write and each
-- read of a buffer is atomic, as its own mutex makes it; the two writes of a part, of its header and of its
-- content, are taken as one step, so that a read between the two is not a run of the model.
pub mod Parts
pub mod Chunks
pub mod Flow
pub mod Server
mod Tests
use rcom.Response.{crlf}
use rcom.Circular.{Circular, data_available, space_available, write, read}
use rcom.Base.{
  Bool, List, Option, none, some, false, true, [], ◌∷◌, ◌++◌, ◌+◌, if◌then◌else◌, ◌==◌, ltb, Bytes,
  ℕ, length, map, codes,
}

-- the header that `streamer_send_multipart` formats; `decimal` and `time` are the texts of its numbers
abbrev pub multipart_header : (ℕ → Bytes) → Bytes → ℕ → Bytes → Bytes
multipart_header decimal mimetype len time =
    codes "--nextimage"
    ++ (crlf
        ++ (codes "Content-Type: "
            ++ (mimetype
                ++ (crlf
                    ++ (codes "Content-Length: "
                        ++ (decimal len
                            ++ (crlf
                                ++ (codes "X-LT-Timestamp: " ++ (time ++ (crlf ++ crlf))))))))))

-- what is done for the buffer of one client
unfoldable pub offer : Bytes → Bytes → Circular → Circular
offer header part c =
    if ltb (length header + length part) (space_available c) then write (write c header) part else c

-- The buffers of all clients; none where the header has not fitted in its array of 512 bytes, and the
-- C reads on behind it.
pub streamer_send_multipart :
    (ℕ → Bytes) → Bytes → Bytes → Bytes → List Circular → Option (List Circular)
unfolding offer
streamer_send_multipart decimal mimetype time part buffers =
    let header = multipart_header decimal mimetype (length part) time in
    if ltb (length header) 512 then some (map (offer header part) buffers) else none

pub record Part : Type 0 where
  pub header : Bytes
  pub content : Bytes

abbrev pub offers : List Part → Circular → Circular
offers [] c = c
offers (p ∷ ps) c = offers ps (offer p.header p.content c)

-- One test of `streamer_quit`. If it passes, parts are offered until `circular_buffer_data_available` is
-- called; the second value is whether a chunk can be sent then.
pub data Turn : Type 0 where
  quits : Turn
  goes_on : List Part → Bool → Turn

-- the chunks that were sent whole, the one that could not be sent, and the buffer
pub record Run : Type 0 where
  pub chunks : List Bytes
  pub lost : Bytes
  pub buffer : Circular

-- the length that `streamer_client_read` reads
abbrev pub chunk_length : Circular → ℕ
chunk_length c = if ltb 16384 (data_available c) then 16384 else data_available c

abbrev pub after_chunk : Bytes → Run → Run
after_chunk bytes r = record r { chunks = bytes ∷ r.chunks }

-- The loops of `streamer_client_run` and `streamer_client_read`; the Boolean value is whether the second
-- waits for data. When it stops waiting it has read nothing, and an empty chunk is sent.
pub streamer_client_run : List Turn → Bool → Circular → Run
streamer_client_run [] waiting c = record { chunks = []; lost = []; buffer = c }
streamer_client_run (quits ∷ turns) waiting c = record {
  chunks = (if waiting then [] ∷ [] else []);
  lost = [];
  buffer = c;
}
streamer_client_run (goes_on parts sent ∷ turns) waiting c =
    let c' = offers parts c in
    let (bytes, c'') = read c' (chunk_length c') in
    let waits = streamer_client_run turns true c' in
    let more = after_chunk bytes (streamer_client_run turns false c'') in
    if data_available c' == 0
    then waits
    else if sent
    then more
    else record { chunks = []; lost = bytes; buffer = c'' }

-- `http_send_chunk`; `hex` is the format `%x`
pub http_send_chunk : (ℕ → Bytes) → Bytes → Bytes
http_send_chunk hex bytes = (hex (length bytes) ++ crlf) ++ (bytes ++ crlf)
