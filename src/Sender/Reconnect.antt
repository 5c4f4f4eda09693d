-- ===== src/Sender/Reconnect.antt =====
-- `ConnectSendDisconnect` under a `Sender`, when a receive fails.
use netbench.Base.{ℕ, ◌+◌, ◌%◌, ◌^◌, ◌≡◌, refl, ap, ◌∙◌, some, List, [], ◌∷◌, ◌++◌, true}
use netbench.Base.Results.{Result, ok}
use netbench.Base.Assoc.{find, put, erase, find-put_self}
use netbench.Scenarios.{
  ActionOp, unknown, connect, disconnect, recv, Action, action, ConnectSendDisconnect,
  disconnect_done, disconnect_error, reconnect,
}
use netbench.Uring.{Res, failure}
use netbench.Sender.{
  Connection, Sender, do_close, push, start_action, run_on, run_action, try_get_connection, is_op,
  is_idle,
}
use netbench.Sender.Actions.{process_res, op_result, recv_result, rest, conclude, finish}

abbrev pub told_last :
    ConnectSendDisconnect → ℕ → ActionOp → Result (ConnectSendDisconnect × List Action)
told_last s i o = ok (disconnect_done s i o)

abbrev pub told_error :
    ConnectSendDisconnect → ℕ → ActionOp → Result (ConnectSendDisconnect × List Action)
told_error s i o = ok (disconnect_error s)

-- The connection that is being closed after an error.
abbrev pub closing_conn : Connection → Connection
closing_conn c = record c { current = disconnect; want_close = true }

-- A receive that fails makes `ConnectSendDisconnect` queue a new connection, and starts a disconnect.
recv_failed :
    (t : Sender ConnectSendDisconnect) (c : Connection) (e : ℕ)
    → c.current ≡ recv
    → find c.id t.connections ≡ some c
    → (t' : Sender ConnectSendDisconnect) × (process_res told_last told_error t c (failure e)
        ≡ ok t')
      × (t'.queue ≡ t.queue ++ action connect t.scenario.next_idx 0 ∷ [])
      × (t'.scenario.next_idx ≡ (t.scenario.next_idx + 1) % 2 ^ 64)
      × (find c.id t'.connections ≡ some (closing_conn c))
unfolding process_res op_result recv_result rest conclude finish run_action try_get_connection
    run_on start_action push is_op is_idle disconnect_error reconnect
recv_failed t c e receiving found =
    let told = record c { current = unknown; want_close = true } in
    let kept : find c.id (put c.id told t.connections) ≡ some told =
      find-put_self c.id told c t.connections found in
    let failing : Sender ConnectSendDisconnect = record t {
      scenario = (reconnect t.scenario).0;
      queue = t.queue ++ action connect t.scenario.next_idx 0 ∷ [];
      connections = put c.id told t.connections;
      recv_errors = t.recv_errors + 1;
    } in
    let t' =
      push (record failing { connections = put c.id (closing_conn c) failing.connections }) c.id
        do_close in
    (
      t',
      rw (receiving, process_res, op_result) (rw (kept, run_action, try_get_connection) refl),
      refl,
      refl,
      find-put_self c.id (closing_conn c) told (put c.id told t.connections) kept,
    )

-- Its disconnect completes.
closed_after :
    (t : Sender ConnectSendDisconnect) (c : Connection) (res : Res)
    → c.current ≡ disconnect
    → (t' : Sender ConnectSendDisconnect) × (process_res told_last told_error t c res ≡ ok t')
      × (t'.queue ≡ t.queue ++ action connect t.scenario.next_idx 0 ∷ [])
unfolding process_res op_result rest conclude finish disconnect_done reconnect
closed_after t c res closing =
    let t' : Sender ConnectSendDisconnect = record t {
      scenario = (reconnect t.scenario).0;
      queue = t.queue ++ action connect t.scenario.next_idx 0 ∷ [];
      connections = erase c.id (put c.id (record c { current = unknown }) t.connections);
    } in
    (t', rw (closing, process_res, op_result) refl, refl)

-- With `ConnectSendDisconnect`, the one connection whose receive fails is replaced by two: the error
-- queues a connection and starts a disconnect of the old one, and when this completes, with any result,
-- another connection is queued.
pub process_res_reconnects_twice :
    (t : Sender ConnectSendDisconnect) (c : Connection) (e : ℕ) (res : Res)
    → c.current ≡ recv
    → find c.id t.connections ≡ some c
    → (t1 t2 : Sender ConnectSendDisconnect) × (process_res told_last told_error t c (failure e)
        ≡ ok t1)
      × (find c.id t1.connections ≡ some (closing_conn c))
      × (process_res told_last told_error t1 (closing_conn c) res ≡ ok t2)
      × (t2.queue
          ≡ (t.queue ++ action connect t.scenario.next_idx 0 ∷ [])
            ++ action connect ((t.scenario.next_idx + 1) % 2 ^ 64) 0 ∷ [])
process_res_reconnects_twice t c e res receiving found =
    let (t1, failing, queued, next_idx, there) = recv_failed t c e receiving found in
    let (t2, closed, queued_again) = closed_after t1 (closing_conn c) res refl in
    let both = queued_again ∙ ap (λ i. t1.queue ++ action connect i 0 ∷ []) next_idx in
    (
      t1,
      t2,
      failing,
      there,
      closed,
      both ∙ ap (λ q. q ++ action connect ((t.scenario.next_idx + 1) % 2 ^ 64) 0 ∷ []) queued,
    )
