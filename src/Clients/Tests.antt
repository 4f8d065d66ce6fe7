-- ===== src/Clients/Tests.antt =====
-- librcom/src/service.c and streamer.c: a run of the two threads, and the theorems on it.
use rcom.Base.{false, true, [], ◌≡◌, ◌≢◌, ◌⊎◌, ◌≤◌, refl}
use rcom.Clients.{
  Client, streamer_cleanup, service_cleanup, serving, run_thread, delete_step, thread_runs, Reach,
  here, next,
}
use rcom.Clients.Life.{closed_once, closed_twice}

-- a client of a streamer at the end of its thread
abbrev ended : Client
ended = run_thread (run_thread (run_thread (serving streamer_cleanup)))

closed_once_example :
    (ended.closes ≤ 1) × (ended.faults ≡ 0) × ((ended.thread ≢ []) ⊎ (ended.closes ≡ 1))
closed_once_example =
    closed_once {resets = false} {joins = true}
      (next (next (next here (thread_runs _)) (thread_runs _)) (thread_runs _))

abbrev leaving : Client
leaving = run_thread (serving service_cleanup)

closed_twice_example : (d : Client) × Reach true true leaving d × (d.closes ≡ 2)
unfolding run_thread
closed_twice_example =
    closed_twice {resets = true} {joins = true} {c = leaving}
      (next here (thread_runs (serving service_cleanup))) refl refl

-- a streamer's client that is deleted at the end
deleted_once : (delete_step false (delete_step false ended)).freed ≡ true
unfolding delete_step run_thread
deleted_once = refl
