-- ===== src/Link/Tests.antt =====
-- messagelink.c: runs of a link on concrete polls, and the theorems at these.
use rcom.Util.Escape.{read_string}
use rcom.Rlib.{list_terminated, list_strings, list_membuf}
use rcom.Link.Texts.{send_str-read, messagelink_send_str}
use rcom.Link.Connect.{Client, connect_lem, IsClient, client_messagelink_connect, Connected}
use rcom.Addr.{Addr}
use rcom.Link.Preserve.{remote_close-Inv, send_text-Inv}
use rcom.Link.Closing.{
  remote_close_answers, remote_close_code-close_payload, remote_close_ends, Ended,
}
use rcom.Messagelink.{Frame, frame_make, read_message}
use rcom.Addr.Instance.{one_inet}
use rcom.Link.Loop.Rounds.{read-Inv, OutcomeInv}
use rcom.Net.{Recv, chunk}
use rcom.Net.Stream.{Gives}
use rcom.Link.Blocks.{Wire, Sends, sends, fails, messagelink_send_text, send_text-refines}
use rcom.Base.{
  negsuc, Bool, if◌then◌else◌, pos, inr, arith, refl, List, Option, none, some, false, true, [],
  ◌≡◌, ◌∷◌, Bytes, ℕ,
}
use rcom.Link.{
  ws_text, ws_close, close_payload, Poll, remote_close_code, send_text, remote_close, Link, opened,
  closed, silent, expired, quitting, message,
}
use rcom.Link.Loop.{done, read}
use rcom.Link.Invariant.{Inv}

-- a link of a server, just opened
abbrev open_link : Link
open_link = record {
  state = opened;
  close_code = 0;
  is_client = false;
  socket = true;
  has_onclose = true;
  closed_calls = 0;
  pongs = [];
  sends = [];
  sent = [];
}

open_link-Inv : Inv open_link
open_link-Inv = record { unclosed = refl; last = refl; alive = refl; over = refl }

abbrev framed : ℕ → Frame
framed opcode = record { fin = 1; opcode = opcode; mask = 1; length7 = 0 }

-- a ping, a pong and a binary message, after which the close of the remote end arrives
abbrev ping_binary : List Poll
ping_binary =
    silent
    ∷ message (framed 9) (1 ∷ 2 ∷ [])
    ∷ message (framed 10) (3 ∷ [])
    ∷ message (framed 2) (4 ∷ [])
    ∷ silent
    ∷ message (framed 8) (3 ∷ 235 ∷ [])
    ∷ expired
    ∷ []

abbrev text_of : Bytes → Option Bytes
text_of bs = some bs

ping_binary_run :
    read text_of 8 open_link ping_binary
    ≡ done none
        (record open_link {
          state = closed;
          socket = false;
          close_code = 1003;
          pongs = (3 ∷ []) ∷ [];
          sent = (8, 3 ∷ 235 ∷ []) ∷ (10, 1 ∷ 2 ∷ []) ∷ [];
        })
        (expired ∷ [])
unfolding read
ping_binary_run = refl

text_run :
    read text_of 2 open_link (silent ∷ message (framed 1) (7 ∷ 8 ∷ []) ∷ quitting ∷ [])
    ≡ done (some (7 ∷ 8 ∷ [])) open_link (quitting ∷ [])
unfolding read
text_run = refl

read-Inv_example : OutcomeInv (read text_of 8 open_link ping_binary)
read-Inv_example = read-Inv text_of 8 open_link ping_binary open_link-Inv

remote_close-Inv_example : Inv (remote_close open_link (3 ∷ 232 ∷ []))
remote_close-Inv_example = remote_close-Inv open_link (3 ∷ 232 ∷ []) open_link-Inv

send_text-Inv_example : Inv (send_text open_link (104 ∷ 105 ∷ [])).1
send_text-Inv_example = send_text-Inv open_link (104 ∷ 105 ∷ []) open_link-Inv

remote_close_code-close_payload_example : remote_close_code (close_payload 1000) ≡ 1000
remote_close_code-close_payload_example = remote_close_code-close_payload 1000 (omega arith)

answered_close :
    (remote_close open_link (close_payload 1000)).sent ≡ (ws_close, close_payload 1000) ∷ []
answered_close = remote_close_answers open_link 1000 (omega arith) refl refl refl

remote_close_ends_example : Ended open_link (remote_close open_link (3 ∷ []))
remote_close_ends_example = remote_close_ends open_link (3 ∷ [])

-- the frame of `"\"\n"`
abbrev quote_frame : List Recv
quote_frame = chunk 129 (6 ∷ 34 ∷ 92 ∷ 34 ∷ 92 ∷ 110 ∷ []) ∷ chunk 34 [] ∷ []

send_str-read_example :
    (text : Bytes) × (messagelink_send_str list_membuf list_terminated open_link []
        (pos 0)
        (34 ∷ 10 ∷ [])
      ≡ (pos 0, record open_link { sent = (ws_text, 34 ∷ text) ∷ [] }))
    × (frame : Frame) × (buf' : Bytes) × Gives
        (read_message list_membuf true [])
        quote_frame
        (frame, buf')
        []
    × (frame.opcode ≡ ws_text)
    × (buf' ≡ 34 ∷ text)
    × (read_string false text ≡ some (34 ∷ 10 ∷ [], []))
unfolding frame_make rcom.Util.escape_string
send_str-read_example =
    send_str-read list_membuf list_terminated open_link [] [] [] (34 ∷ 10 ∷ []) (1 ∷ 2 ∷ 3 ∷ 4 ∷ [])
      [] true quote_frame refl refl refl refl refl (refl, (refl, tt)) (omega arith)
      (λ e. absurd (omega arith)) refl refl tt

-- the frame goes out, but for the second byte of the text
abbrev failing : Wire
failing = record { out = []; results = sends ∷ fails 1 ∷ [] }

send_text-refines_example :
    (r : Bool × Wire) × (messagelink_send_text open_link failing [] (104 ∷ 105 ∷ [])
      ≡ (if r.0 then pos 0 else negsuc 0, r.1))
    × Sends failing (frame_make list_membuf [] ws_text open_link.is_client [] (104 ∷ 105 ∷ [])) r
    × (send_text (record open_link { sends = r.0 ∷ [] }) (104 ∷ 105 ∷ []) ≡ (
      if r.0 then pos 0 else negsuc 0,
      record open_link { sends = []; sent = if r.0 then (ws_text, 104 ∷ 105 ∷ []) ∷ [] else [] },
    ))
send_text-refines_example =
    send_text-refines list_membuf open_link failing [] [] (104 ∷ 105 ∷ []) refl refl

-- a link that is open to one address and is asked to connect to another
abbrev client : Client
client = record { link = open_link; remote_addr = some (record { sin_addr = 127; sin_port = 80 }) }

abbrev other : Addr
other = record { sin_addr = 127; sin_port = 81 }

connect_lem_example :
    Connected one_inet list_strings client other
      (client_messagelink_connect one_inet list_strings true true client other)
    × IsClient one_inet list_strings
        (client_messagelink_connect one_inet list_strings true true client other).1
connect_lem_example = connect_lem one_inet list_strings true true client other (inr (refl, refl))
