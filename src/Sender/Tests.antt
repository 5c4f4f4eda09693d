-- ===== src/Sender/Tests.antt =====
-- Runs of `Sender`, and its theorems at a small request.
use mathlib.Core.Path.{subst}
use netbench.Base.{
  ℕ, ◌+◌, ◌-◌, ◌≤◌, ◌≡◌, refl, List, [], ◌∷◌, ◌++◌, arith, true, some, some-inj, ◌<◌,
}
use netbench.Base.Results.{ok}
use netbench.Base.Assoc.{find, put, total}
use netbench.Scenarios.{
  ActionOp, recv, send, connect, action, ConnectSendDisconnect, disconnect_done, wait_until,
}
use netbench.Uring.{Res, success, failure}
use netbench.Sender.{
  Request, do_connect, do_sendmsg, Connection, Sender, running, new_connection, segments,
  start_send, run_action, is_op, try_get_connection, run_on, is_idle, start_action, queue_connect,
  push, queue_new_send, queue_send,
}
use netbench.Sender.Books.{op_of, flights, busy, has_id}
use netbench.Sender.Loop.{submit, second, timeout, wait_ended, process_due, process_waits}
use netbench.Sender.Sleeps.{
  AllPositive, NoneBelow, accepted, AllDue, SortedFrom, submit_lem, timeout-bounds,
  process_waits_ends_due,
}
use netbench.Sender.Runs.{Step, here, next, act, complete, Reaches-owned}
use netbench.Sender.Segments.{sum, segments-sum}
use netbench.Sender.Reconnect.{told_last, told_error, closing_conn, process_res_reconnects_twice}
use netbench.Sender.Actions.{
  process_res, process_cqe, op_result, connect_result, finish, rest, conclude,
}

segments-sum_example :
    sum (segments (record (start_send (new_connection 1) 64) { remaining = 64 + 8 - 3 })) + 3 ≡ 69
segments-sum_example = segments-sum (new_connection 1) 64 3 (omega arith) (omega arith)

abbrev waiting_conn : Connection
waiting_conn = record (new_connection 1) { fd = true; current = recv; remaining = 1 }

abbrev receiving : Sender ConnectSendDisconnect
receiving = record {
  scenario = record { next_idx = 2; send_size = 64; resp_size = 1; reconnect_from = 0 };
  queue = [];
  connections = (1, waiting_conn) ∷ [];
  state = running;
  max_outstanding = 1024;
  outstanding = 0;
  expected = 0;
  sqes = [];
  waits = [];
  to_close = [];
  connect_errors = 0;
  success_connects = 1;
  recv_errors = 0;
  send_errors = 0;
  packets_sent = 1;
  bytes_sent = 72;
}

process_res_reconnects_twice_example :
    (t1 t2 : Sender ConnectSendDisconnect) × (process_res told_last told_error receiving
        waiting_conn
        (failure 104)
      ≡ ok t1)
    × (find 1 t1.connections ≡ some (closing_conn waiting_conn))
    × (process_res told_last told_error t1 (closing_conn waiting_conn) (success 0) ≡ ok t2)
    × (t2.queue ≡ action connect 2 0 ∷ action connect 3 0 ∷ [])
unfolding find
process_res_reconnects_twice_example =
    process_res_reconnects_twice receiving waiting_conn 104 (success 0) refl refl

abbrev starting : Sender ConnectSendDisconnect
starting = record receiving {
  connections = [];
  success_connects = 0;
  packets_sent = 0;
  bytes_sent = 0;
}

abbrev connecting : Sender ConnectSendDisconnect
connecting = record starting {
  connections = (1, record (new_connection 1) { fd = true; current = connect }) ∷ [];
  expected = 1;
  sqes = (1, do_connect) ∷ [];
}

abbrev connected : Sender ConnectSendDisconnect
connected = record starting {
  queue = (disconnect_done starting.scenario 1 connect).1;
  scenario = (disconnect_done starting.scenario 1 connect).0;
  connections = (1, record (new_connection 1) { fd = true }) ∷ [];
  expected = 1;
  success_connects = 1;
}

abbrev sending : Sender ConnectSendDisconnect
sending = record connected {
  connections =
      (1, record (new_connection 1) { fd = true; current = send; remaining = 72; whole_write = 72 })
      ∷ [];
  expected = 2;
  sqes = (1, do_sendmsg (8 ∷ 64 ∷ [])) ∷ [];
}

to_connecting : Step told_last told_error starting connecting
unfolding run_action is_op try_get_connection find run_on is_idle start_action queue_connect push
    put
to_connecting = act (action connect 1 0) (λ c found. absurd (ground (arith, found))) refl

to_connected : Step told_last told_error connecting connected
unfolding process_cqe find put process_res op_result connect_result finish rest conclude
to_connected = complete 1 do_connect (success 0) [] [] refl refl refl

to_sending : Step told_last told_error connected sending
unfolding run_action is_op try_get_connection find run_on is_idle start_action put queue_new_send
    start_send queue_send segments push
to_sending =
    act (action send 1 64) (λ c found. subst (λ c. is_idle c.current ≡ true) (some-inj found) refl)
      refl

Reaches-owned_example :
    ((i : ℕ) (q : Request) (before after : List (ℕ × Request))
      → sending.sqes ≡ before ++ (i, q) ∷ after
      → (c : Connection) × (find i sending.connections ≡ some c) × (c.current ≡ op_of q))
    × ((i : ℕ) (o : ActionOp) → flights i o sending.sqes ≡ total (busy i o) sending.connections)
    × ((i : ℕ) → total (has_id i) sending.connections ≤ 1)
Reaches-owned_example =
    Reaches-owned told_last told_error starting sending refl refl
      (next (next (next here to_connecting) to_connected) to_sending)

submit_lem_example :
    ((t' : Sender ConnectSendDisconnect)
      → submit connecting (success 1 ∷ []) ≡ ok (some t')
      → (record connecting { outstanding = 1; expected = 0 } ≡ t')
        × (used rest : List Res) × (success 1 ∷ [] ≡ used ++ rest)
        × NoneBelow used
        × (accepted used ≡ 1))
    × (AllPositive (success 1 ∷ [])
        → 1 + 0 ≡ connecting.expected
        → (t' : Sender ConnectSendDisconnect) × (submit connecting (success 1 ∷ []) ≡ ok (some t')))
submit_lem_example = submit_lem connecting (success 1 ∷ []) (omega arith)

abbrev at_700 : List (ℕ × ℕ)
at_700 = (700, 1) ∷ []

timeout-bounds_example :
    (1 ≤ timeout at_700 200)
    × (timeout at_700 200 ≤ second)
    × (at_700 ≡ [] → timeout at_700 200 ≡ second)
    × ((until i : ℕ) (more : List (ℕ × ℕ))
        → at_700 ≡ (until, i) ∷ more
        → (200 < until → 200 + timeout at_700 200 ≤ until)
          × (timeout at_700 200 < second → until ≤ 200 + timeout at_700 200))
timeout-bounds_example = timeout-bounds at_700 200

-- A connection whose wait is over, and a wait whose connection is gone; a third is still ahead.
abbrev waiting : Sender ConnectSendDisconnect
waiting = record starting {
  connections = (1, record (new_connection 1) { fd = true; current = wait_until }) ∷ [];
  waits = (5, 1) ∷ (6, 2) ∷ (9, 3) ∷ [];
}

abbrev woken : Sender ConnectSendDisconnect
woken = record starting {
  scenario = (disconnect_done starting.scenario 1 wait_until).0;
  queue = (disconnect_done starting.scenario 1 wait_until).1;
  connections = (1, record (new_connection 1) { fd = true }) ∷ [];
  waits = (9, 3) ∷ [];
}

process_waits_ends_due_example :
    (due : List (ℕ × ℕ)) × (waiting.waits ≡ due ++ (9, 3) ∷ [])
    × AllDue 7 due
    × SortedFrom (7 + 1) ((9, 3) ∷ [])
unfolding process_waits process_due wait_ended find put is_op process_res op_result finish rest
    conclude disconnect_done
process_waits_ends_due_example =
    process_waits_ends_due told_last told_error waiting woken 7
      (omega arith, (omega arith, (omega arith, tt))) refl
