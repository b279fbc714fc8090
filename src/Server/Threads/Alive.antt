-- ===== src/Server/Threads/Alive.antt =====
-- The count of the server's threads in every state that the process reaches.
use psd_ims.Prelude.{ℕ, ◌+◌, ◌<◌, ◌≤◌, ◌≡◌, Bool, true, false, arith}
use psd_ims.Prelude.Int.{pos}
use psd_ims.Server.Threads.{
  Accept, ServerState, init_server, mthread_listen_connection, listen_connection, listen_round,
  end_thread, Step, listens, ends, Steps, stay, go_on, max_alive_threads,
}

-- The counter stands at the threads that run and those that could not be created.
pub record Counts (lost : ℕ) (s : ServerState) : Type 0 where
  pub at_least : s.running + lost ≤ s.n_alive_threads
  pub at_most : s.n_alive_threads ≤ max_alive_threads

module _ (thread_safe : Bool) (Meets : Accept → Type 0) where
  Step-Counts :
      (lost : ℕ) (s t : ServerState) → Counts lost s → Step thread_safe Meets s t → Counts lost t
  unfolding listen_round listen_connection mthread_listen_connection end_thread
  Step-Counts lost s _ c (listens a m l) = ground (arith, c.at_least, c.at_most)
  Step-Counts lost s _ c (ends r) = ground (arith, c.at_least, c.at_most)

  Steps-Counts :
      (lost : ℕ) (s : ServerState) {t : ServerState}
      → Counts lost s
      → Steps thread_safe Meets s t
      → Counts lost t
  Steps-Counts lost s c stay = c
  Steps-Counts lost s c (go_on {t} {u} steps step) =
      Step-Counts lost t u (Steps-Counts lost s c steps) step

-- In every state that the process reaches, the counter is at least the number of the threads that run
-- and at most 200, whether or not the threads can be created.
pub reached-Counts :
    (thread_safe : Bool) (Meets : Accept → Type 0) (t : ServerState)
    → Steps thread_safe Meets init_server t
    → Counts 0 t
reached-Counts thread_safe Meets t steps =
    Steps-Counts thread_safe Meets 0 init_server
      (record { at_least = omega arith; at_most = omega arith }) steps

-- Where `pthread_create` has failed for one accepted connection, the counter is above 0 in every later
-- state, even when no thread runs: the loop of `free_server` that waits for 0 does not end.
pub lost_thread_stays :
    (Meets : Accept → Type 0) (s t : ServerState) (a : Accept)
    → Steps true Meets init_server s
    → a.created ≡ false
    → (mthread_listen_connection a s).1 ≡ pos 0
    → Steps true Meets (listen_round true a s) t
    → 0 < t.n_alive_threads
unfolding listen_round listen_connection mthread_listen_connection
lost_thread_stays Meets s t a before f h after =
    let c = reached-Counts true Meets s before in
    let d : Counts 1 (listen_round true a s) = ground (arith, c.at_least, c.at_most) in
    let e = Steps-Counts true Meets 1 (listen_round true a s) d after in omega (arith, e.at_least)
