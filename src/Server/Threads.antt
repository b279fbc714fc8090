-- ===== src/Server/Threads.antt =====
-- server/psd_ims_server.c and server.c: the listening loop and the count of the threads that serve.
pub mod Alive
pub mod Drain
use psd_ims.Prelude.{
  ℕ, zero, suc, ◌+◌, ◌-◌, ◌<◌, ◌≡◌, Bool, true, false, not, ◌&&◌, if◌then◌else◌, leb, ◌==◌,
}
use psd_ims.Prelude.Int.{ℤ, pos, same_int}
use psd_ims.Server.Run.{minus_one}

-- What one call of `listen_connection` meets outside: whether `soap_accept` gives a socket, whether
-- MySQL is connected or reconnects, whether `soap_copy` and `pthread_create` succeed.
pub record Accept : Type 0 where
  pub valid_socket : Bool
  pub connected : Bool
  pub reconnects : Bool
  pub copied : Bool
  pub created : Bool

abbrev pub max_alive_threads : ℕ
max_alive_threads = 200

-- `struct server` as far as threads go. `running` counts the threads that have been created and have
-- not yet lowered the counter, `signals` the signals of `zero_alive_threads`; `listening` says
-- whether the loop of `main` goes on.
pub record ServerState : Type 0 where
  pub n_alive_threads : ℕ
  pub running : ℕ
  pub signals : ℕ
  pub listening : Bool

abbrev pub init_server : ServerState
init_server = record { n_alive_threads = 0; running = 0; signals = 0; listening = true }

-- The code that `pthread_create` returns is dropped.
unfoldable pub mthread_listen_connection : Accept → ServerState → ServerState × ℤ
mthread_listen_connection a s =
    if not a.valid_socket
    then (s, minus_one)
    else if not a.connected && not a.reconnects
    then (s, minus_one)
    else if not a.copied
    then (s, minus_one)
    else if leb max_alive_threads s.n_alive_threads
    then (s, minus_one)
    else (
      record s {
        n_alive_threads = s.n_alive_threads + 1;
        running = s.running + (if a.created then 1 else 0);
      },
      pos 0,
    )

-- The request is served in the call; how `soap_serve` ends is only reported.
unfoldable pub sthread_listen_connection : Accept → ServerState → ServerState × ℤ
sthread_listen_connection a s =
    if not a.valid_socket
    then (s, minus_one)
    else if not a.connected && not a.reconnects
    then (s, minus_one)
    else (s, pos 0)

unfoldable pub listen_connection : (thread_safe : Bool) → Accept → ServerState → ServerState × ℤ
unfolding mthread_listen_connection sthread_listen_connection
listen_connection thread_safe a s =
    if thread_safe then mthread_listen_connection a s else sthread_listen_connection a s

-- One round of `while( listenner_ret_value == 0 )` in `main`.
unfoldable pub listen_round : (thread_safe : Bool) → Accept → ServerState → ServerState
unfolding listen_connection
listen_round thread_safe a s =
    let (after, code) = listen_connection thread_safe a s in
    record after { listening = same_int code (pos 0) }

-- The end of `thread_serve_request`. The counter is an `int`; it is above 0 here.
unfoldable pub end_thread : ServerState → ServerState
end_thread s = record s {
  n_alive_threads = s.n_alive_threads - 1;
  running = s.running - 1;
  signals = s.signals + (if (s.n_alive_threads - 1) == 0 then 1 else 0);
}

-- A step of the process, of the loop or of one of its threads, where `Meets` says what the calls of
-- `listen_connection` may meet.
pub data Step (thread_safe : Bool) (Meets : Accept → Type 0) (s : ServerState)
    : ServerState → Type 0 where
  listens :
      (a : Accept)
      → Meets a
      → s.listening ≡ true
      → Step thread_safe Meets s (listen_round thread_safe a s)
  ends : 0 < s.running → Step thread_safe Meets s (end_thread s)

pub data Steps (thread_safe : Bool) (Meets : Accept → Type 0) (s : ServerState)
    : ServerState → Type 0 where
  stay : Steps thread_safe Meets s s
  go_on :
      {t u : ServerState}
      → Steps thread_safe Meets s t
      → Step thread_safe Meets t u
      → Steps thread_safe Meets s u

-- `n` rounds of the loop that all meet the same, as long as the loop goes on.
unfoldable pub listen_rounds : ℕ → (thread_safe : Bool) → Accept → ServerState → ServerState
unfolding listen_round
listen_rounds zero thread_safe a s = s
listen_rounds (suc n) thread_safe a s =
    let rest = listen_rounds n thread_safe a s in
    if rest.listening then listen_round thread_safe a rest else rest
