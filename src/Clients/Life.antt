-- ===== src/Clients/Life.antt =====
-- librcom/src/streamer.c and librcom/src/service.c: how often the socket of a client is closed.
use rcom.Base.{◌≢◌, Bool, true, false, List, [], ◌∷◌, ◌≡◌, ◌≤◌, ℕ, arith, ◌⊎◌}
use rcom.Clients.{
  Instruction, remove, close, forget, Deletion, waits, releasing, done, Client, streamer_cleanup,
  service_cleanup, serving, run_thread, delete_step, thread_runs, server_runs, Reach, here, next,
}

-- A client of a streamer that its thread still has to remove.
record IsAlive (program : List Instruction) (socket : Bool) (closes : ℕ) (c : Client) : Type 0 where
  rest : c.thread ≡ program
  field : c.socket ≡ socket
  closed : c.closes ≡ closes
  listed : c.finished ≡ false
  kept : c.deletion ≡ waits
  held : c.freed ≡ false
  sound : c.faults ≡ 0

-- the deletion has not begun, or has nothing to close
abbrev IsQuiet : Deletion → Type 0
IsQuiet d = (d ≡ waits) ⊎ ((d ≡ releasing) ⊎ (d ≡ done))

record IsOver (c : Client) : Type 0 where
  rest : c.thread ≡ []
  field : c.socket ≡ false
  closed : c.closes ≡ 1
  quiet : IsQuiet c.deletion
  sound : c.faults ≡ 0

data IsOrderly (c : Client) : Type 0 where
  served : IsAlive streamer_cleanup true 0 c → IsOrderly c
  shut : IsAlive (forget ∷ remove ∷ []) true 1 c → IsOrderly c
  forgotten : IsAlive (remove ∷ []) false 1 c → IsOrderly c
  over : IsOver c → IsOrderly c

thread-IsOrderly : (c : Client) → IsOrderly c → IsOrderly (run_thread c)
unfolding run_thread
thread-IsOrderly c (served v) = shut (ground (arith, v))
thread-IsOrderly c (shut v) = forgotten (ground (arith, v))
thread-IsOrderly c (forgotten v) = over (ground (arith, v))
thread-IsOrderly c (over v) = over (ground (arith, v))

server-IsOrderly : (resets : Bool) (c : Client) → IsOrderly c → IsOrderly (delete_step resets c)
unfolding delete_step
server-IsOrderly resets c (served v) = served (ground (arith, v))
server-IsOrderly resets c (shut v) = shut (ground (arith, v))
server-IsOrderly resets c (forgotten v) = forgotten (ground (arith, v))
server-IsOrderly resets c (over v) = over (ground (arith, v))

Reach-IsOrderly :
    {resets joins : Bool} {c : Client}
    → Reach resets joins (serving streamer_cleanup) c
    → IsOrderly c
Reach-IsOrderly {resets} here = served (ground arith)
Reach-IsOrderly {resets} (next r (thread_runs c)) = thread-IsOrderly c (Reach-IsOrderly r)
Reach-IsOrderly {resets} (next r (server_runs c _)) = server-IsOrderly resets c (Reach-IsOrderly r)

orderly_once :
    (c : Client)
    → IsOrderly c
    → (c.closes ≤ 1) × (c.faults ≡ 0) × ((c.thread ≢ []) ⊎ (c.closes ≡ 1))
orderly_once c (served v) = (ground (arith, v), ground (arith, v), ground (arith, v))
orderly_once c (shut v) = (ground (arith, v), ground (arith, v), ground (arith, v))
orderly_once c (forgotten v) = (ground (arith, v), ground (arith, v), ground (arith, v))
orderly_once c (over v) = (ground (arith, v), ground (arith, v), ground (arith, v))

-- Through any interleaving of the thread of a streamer's client with the deletion of the finished
-- clients, whether or not the deletion waits for the thread, the socket is closed at most once, and
-- once if the thread is at its end; and the thread never uses a client that is freed.
pub closed_once :
    {resets joins : Bool} {c : Client}
    → Reach resets joins (serving streamer_cleanup) c
    → (c.closes ≤ 1) × (c.faults ≡ 0) × ((c.thread ≢ []) ⊎ (c.closes ≡ 1))
closed_once {c} r = orderly_once c (Reach-IsOrderly r)

-- the states of a client of a service, up to the point where the server's thread begins to delete it
data IsServed (c : Client) : Type 0 where
  served_still : IsAlive service_cleanup true 0 c → IsServed c
  removed :
      c.thread ≡ close ∷ forget ∷ []
      → c.socket ≡ true
      → c.closes ≡ 0
      → c.finished ≡ true
      → c.deletion ≡ waits
      → IsServed c
  later : (c.deletion ≢ waits) ⊎ ((c.thread ≡ forget ∷ []) ⊎ (c.thread ≡ [])) → IsServed c

thread-IsServed : (c : Client) → IsServed c → IsServed (run_thread c)
unfolding run_thread
thread-IsServed c (served_still v) =
    removed (ground arith) (ground arith) (ground arith) (ground arith) (ground arith)
thread-IsServed c (removed p q r s t) = later (ground arith)
thread-IsServed c (later v) = later (ground arith)

server-IsServed : (resets : Bool) (c : Client) → IsServed c → IsServed (delete_step resets c)
unfolding delete_step
server-IsServed resets c (served_still v) = served_still (ground arith)
server-IsServed resets c (removed p q r s t) = later (ground arith)
server-IsServed resets c (later v) = later (ground arith)

Reach-IsServed :
    {resets joins : Bool} {c : Client} → Reach resets joins (serving service_cleanup) c → IsServed c
Reach-IsServed {resets} here = served_still (ground arith)
Reach-IsServed {resets} (next r (thread_runs c)) = thread-IsServed c (Reach-IsServed r)
Reach-IsServed {resets} (next r (server_runs c _)) = server-IsServed resets c (Reach-IsServed r)

second_close :
    (resets joins : Bool) (c : Client)
    → c.thread ≡ close ∷ forget ∷ []
    → c.socket ≡ true
    → c.closes ≡ 0
    → c.finished ≡ true
    → c.deletion ≡ waits
    → (d : Client) × Reach resets joins c d × (d.closes ≡ 2)
unfolding delete_step run_thread
second_close resets joins c p q r s t =
    let c1 = delete_step resets c in
    let c2 = delete_step resets c1 in
    (
      run_thread c2,
      next
          (next (next here (server_runs c (λ a b. absurd (ground arith))))
            (server_runs c1 (λ a b. absurd (ground arith))))
          (thread_runs c2),
      ground arith,
    )

-- In a service, whose thread removes the client before it closes the socket: from every state that is
-- reached in which the thread has removed the client and is about to close the socket, and the deletion
-- has not begun, both threads can go on so that the socket is closed twice, whether or not the deletion
-- waits for the thread.
pub closed_twice :
    {resets joins : Bool} {c : Client}
    → Reach resets joins (serving service_cleanup) c
    → c.thread ≡ close ∷ forget ∷ []
    → c.deletion ≡ waits
    → (d : Client) × Reach resets joins c d × (d.closes ≡ 2)
closed_twice {resets} {joins} {c} r p t = elim (Reach-IsServed r) [
  | served_still v ↦ absurd (ground (arith, v))
  | removed _ q n s _ ↦ second_close resets joins c p q n s t
  | later v ↦ absurd (ground arith)
]
