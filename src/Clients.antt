-- ===== src/Clients.antt =====
-- librcom/src/service.c and librcom/src/streamer.c: what becomes of one client, between the thread that
-- serves it and the server's thread, which deletes the clients that are finished. Each access to the
-- client's socket is a step of its own, in any order that the two threads allow.
pub mod Life
mod Tests
use rcom.Base.{Bool, true, false, List, [], ◌∷◌, ◌≡◌, ◌+◌, ℕ, if◌then◌else◌}

-- The last calls of the client's thread: `service_remove_client` or `streamer_remove_client`,
-- `close_tcp_socket(client->socket)`, and `client->socket = INVALID_TCP_SOCKET`.
pub data Instruction : Type 0 where
  remove close forget : Instruction

-- how far the server's thread is with the deletion of the client
pub data Deletion : Type 0 where
  waits closing forgetting releasing done : Deletion

-- `socket` is whether the field holds the socket; `closes` counts how often the socket was closed,
-- and `faults` the accesses to a client that is freed.
pub record Client : Type 0 where
  pub thread : List Instruction
  pub socket : Bool
  pub closes : ℕ
  pub finished : Bool
  pub deletion : Deletion
  pub freed : Bool
  pub faults : ℕ

-- the end of `service_client_handle`
abbrev pub service_cleanup : List Instruction
service_cleanup = remove ∷ close ∷ forget ∷ []

-- the end of `streamer_client_run`, also where the headers cannot be sent
abbrev pub streamer_cleanup : List Instruction
streamer_cleanup = close ∷ forget ∷ remove ∷ []

-- a client that is being served
abbrev pub serving : List Instruction → Client
serving program = record {
  thread = program;
  socket = true;
  closes = 0;
  finished = false;
  deletion = waits;
  freed = false;
  faults = 0;
}

unfoldable pub execute : Instruction → Client → Client
execute remove c = record c { finished = true }
execute close c = if c.socket then record c { closes = c.closes + 1 } else c
execute forget c = record c { socket = false }

-- one instruction of the client's thread
unfoldable pub run_thread : Client → Client
unfolding execute
run_thread c = elim c.thread [
  | [] ↦ c
  | i ∷ is ↦
      execute i (record c { thread = is; faults = (if c.freed then c.faults + 1 else c.faults) })
]

-- One step of `delete_service_client` or `delete_streamer_client`, which the server's thread calls on
-- the clients in its list of finished ones. The first of them resets the field after it has closed the
-- socket, the second does not.
unfoldable pub delete_step : Bool → Client → Client
delete_step resets c = elim c.deletion [
  | waits ↦
      if c.finished then record c { deletion = (if c.socket then closing else releasing) } else c
  | closing ↦ record c { deletion = forgetting; closes = c.closes + 1 }
  | forgetting ↦ record c { deletion = releasing; socket = (if resets then false else c.socket) }
  | releasing ↦ record c { deletion = done; freed = true }
  | done ↦ c
]

-- Whether `delete_thread` of libr waits for the thread is left open: if it does, `may_release` says
-- that the thread is at its end.
pub data Step (resets joins : Bool) : Client → Client → Type 0 where
  thread_runs : (c : Client) → Step resets joins c (run_thread c)
  server_runs :
      (c : Client)
      → (joins ≡ true → c.deletion ≡ releasing → c.thread ≡ [])
      → Step resets joins c (delete_step resets c)

pub data Reach (resets joins : Bool) (s : Client) : Client → Type 0 where
  here : Reach resets joins s s
  next : {c d : Client} → Reach resets joins s c → Step resets joins c d → Reach resets joins s d
