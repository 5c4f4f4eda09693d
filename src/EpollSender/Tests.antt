-- ===== src/EpollSender/Tests.antt =====
-- Two connections of `EpollSender`: the first message of the first goes out in two parts, and a round in
-- which the second one's answer comes.
use netbench.Base.{ℕ, refl, some, [], ◌∷◌, true, false}
use netbench.Uring.{success, failure}
use netbench.EpollSender.{
  eagain, EpollConnection, EpollSender, new_connection, start, add_connection, do_connect,
  set_connection, send_loop, sent, do_send, read_loop, do_read, EpollEvent, on_event, on_events,
  send_all, run,
}
use netbench.EpollSender.Pieces.{Restarts}
use netbench.EpollSender.Sends.{run-Restarts}
use netbench.EpollSender.Events.{SameFrom, on_events_first}

abbrev connected : EpollSender
connected = record (start 4 2) {
  buff_size = 12;
  resp = 2;
  connections = some new_connection ∷ some new_connection ∷ [];
  latencies = [];
  bytes_sent = 0;
  packets_sent = 0;
  send_errors = 0;
  recv_errors = 0;
  success_connects = 2;
}

abbrev waiting : ℕ → EpollConnection
waiting n = record new_connection { to_send = n; to_recv = 2; last = 1; wire = (0, 12) ∷ [] }

abbrev started : EpollSender
started = record connected {
  connections = some (record (waiting 7) { wire = (0, 5) ∷ (0, 7) ∷ [] }) ∷ some (waiting 12) ∷ [];
  packets_sent = 2;
  bytes_sent = 24;
}

-- The answer is there for the second connection: the first is read, and has none.
abbrev answered : EpollEvent
answered = record {
  data_of = 1;
  input = true;
  output = false;
  garbage = 0;
  received = failure eagain ∷ [];
  taken = [];
  now = 2;
}

run-Restarts_example : Restarts started
unfolding start add_connection do_connect set_connection send_loop sent do_send read_loop do_read
    on_event on_events send_all run
run-Restarts_example =
    run-Restarts 4 2 (true ∷ true ∷ []) ((success 5 ∷ success 7 ∷ []) ∷ (success 12 ∷ []) ∷ []) 1 9
      ((2, answered ∷ []) ∷ (9, []) ∷ []) connected started started refl refl refl

on_events_first_example : SameFrom 1 started started
unfolding read_loop do_read on_event on_events set_connection
on_events_first_example = on_events_first started started (answered ∷ []) refl
