-- ===== src/Server/Threads/Drain.antt =====
-- The server's threads when all can be created: how the counter comes back to 0, and how it fills up.
use psd_ims.Prelude.{ℕ, zero, suc, ◌+◌, ◌≡◌, refl, Bool, true, arith, leb, if◌then◌else◌}
use psd_ims.Server.Threads.{
  Accept, ServerState, init_server, mthread_listen_connection, listen_connection, listen_round,
  end_thread, Step, listens, ends, Steps, stay, go_on, listen_rounds, max_alive_threads,
}

-- `pthread_create` succeeds.
abbrev pub IsCreated : Accept → Type 0
IsCreated a = a.created ≡ true

Step-exact :
    (thread_safe : Bool) (s t : ServerState)
    → s.n_alive_threads ≡ s.running
    → Step thread_safe IsCreated s t
    → t.n_alive_threads ≡ t.running
unfolding listen_round listen_connection mthread_listen_connection end_thread
Step-exact thread_safe s _ e (listens a m l) = ground (arith, e, m)
Step-exact thread_safe s _ e (ends r) = ground (arith, e)

-- Where every thread can be created, the counter is exactly the number of the threads that run.
pub reached_exact :
    (thread_safe : Bool) (t : ServerState)
    → Steps thread_safe IsCreated init_server t
    → t.n_alive_threads ≡ t.running
reached_exact thread_safe _ stay = refl
reached_exact thread_safe _ (go_on {t} {u} steps step) =
    Step-exact thread_safe t u (reached_exact thread_safe t steps) step

-- The state in which `free_server` goes on: the threads have ended, and it has been told.
pub record Drained (thread_safe : Bool) (s : ServerState) : Type 0 where
  pub last : ServerState
  pub reached : Steps thread_safe IsCreated s last
  pub none_alive : last.n_alive_threads ≡ 0
  pub signalled : last.signals ≡ s.signals + (if leb 1 s.running then 1 else 0)

Steps-first :
    {thread_safe : Bool} {s t u : ServerState}
    → Step thread_safe IsCreated s t
    → Steps thread_safe IsCreated t u
    → Steps thread_safe IsCreated s u
Steps-first step stay = go_on stay step
Steps-first step (go_on rest last) = go_on (Steps-first step rest) last

drains :
    (thread_safe : Bool) (n : ℕ) (s : ServerState)
    → s.running ≡ n
    → s.n_alive_threads ≡ n
    → Drained thread_safe s
unfolding end_thread
drains thread_safe zero s r e = record {
  last = s;
  reached = stay;
  none_alive = e;
  signalled = ground (arith, r);
}
drains thread_safe (suc n) s r e =
    let d = drains thread_safe n (end_thread s) (omega arith) (omega arith) in
    record {
      last = d.last;
      reached = Steps-first (ends (omega arith)) d.reached;
      none_alive = d.none_alive;
      signalled = ground (arith, d.signalled, r, e);
    }

-- Where every thread can be created, some further steps lead from every state that the process reaches
-- to a state with the counter at 0, in which the wait of `free_server` ends; these steps give exactly
-- one signal if a thread was running, and none otherwise.
pub reached-Drained :
    (thread_safe : Bool) (s : ServerState)
    → Steps thread_safe IsCreated init_server s
    → Drained thread_safe s
reached-Drained thread_safe s steps =
    drains thread_safe s.running s refl (reached_exact thread_safe s steps)

-- What `n` connections in a row leave where nothing fails: the first 200 are served by one thread each,
-- and with the next one the loop of `main` ends, with 200 threads that still run.
pub listen_rounds_fill :
    (n : ℕ) (a : Accept)
    → a.valid_socket ≡ true
    → a.connected ≡ true
    → a.copied ≡ true
    → a.created ≡ true
    → listen_rounds n true a init_server ≡ record {
      n_alive_threads = if leb n max_alive_threads then n else max_alive_threads;
      running = if leb n max_alive_threads then n else max_alive_threads;
      signals = 0;
      listening = leb n max_alive_threads;
    }
unfolding listen_rounds listen_round listen_connection mthread_listen_connection
listen_rounds_fill zero a v c k t = refl
listen_rounds_fill (suc n) a v c k t = ground (arith, listen_rounds_fill n a v c k t)
