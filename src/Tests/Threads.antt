-- ===== src/Tests/Threads.antt =====
-- Runs of the server's listening loop.
use psd_ims.Prelude.{◌<◌, ◌≡◌, refl, true, false}
use psd_ims.Prelude.Int.{pos}
use psd_ims.Server.Threads.{
  Accept, ServerState, init_server, mthread_listen_connection, listen_round, Steps, stay, go_on,
  listens, listen_rounds,
}
use psd_ims.Server.Threads.Alive.{Counts, reached-Counts, lost_thread_stays}
use psd_ims.Server.Threads.Drain.{
  IsCreated, reached_exact, Drained, reached-Drained, listen_rounds_fill,
}

abbrev good : Accept
good = record {
  valid_socket = true;
  connected = true;
  reconnects = false;
  copied = true;
  created = true;
}

abbrev not_created : Accept
not_created = record {
  valid_socket = true;
  connected = true;
  reconnects = false;
  copied = true;
  created = false;
}

abbrev one_thread : ServerState
one_thread = listen_round true good init_server

one_step : Steps true IsCreated init_server one_thread
one_step = go_on stay (listens good refl refl)

reached-Counts_example : Counts 0 one_thread
reached-Counts_example = reached-Counts true IsCreated one_thread one_step

reached_exact_example : one_thread.n_alive_threads ≡ one_thread.running
reached_exact_example = reached_exact true one_thread one_step

reached-Drained_example : Drained true one_thread
reached-Drained_example = reached-Drained true one_thread one_step

accepted : (mthread_listen_connection not_created init_server).1 ≡ pos 0
unfolding mthread_listen_connection
accepted = refl

lost_thread_stays_example : 0 < (listen_round true not_created init_server).n_alive_threads
lost_thread_stays_example =
    lost_thread_stays IsCreated init_server (listen_round true not_created init_server) not_created
      stay refl accepted stay

listen_rounds_fill_example :
    listen_rounds 201 true good init_server
    ≡ record { n_alive_threads = 200; running = 200; signals = 0; listening = false }
listen_rounds_fill_example = listen_rounds_fill 201 good refl refl refl refl
