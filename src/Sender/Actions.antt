-- ===== src/Sender/Actions.antt =====
-- `Sender`: what becomes of a completion (`processRes`, `processCqe`), and what to do next (`queueOne`).
use netbench.Base.{
  ℕ, zero, suc, ◌+◌, ◌-◌, ◌*◌, min, none, some, List, [], ◌∷◌, ◌++◌, ltb, leb, ◌==◌, if◌then◌else◌,
  Bool, true, false, ◌&&◌, ◌||◌,
}
use netbench.Base.Results.{Result, ok, err, died, ◌>>=◌}
use netbench.Base.Assoc.{find, put, erase}
use netbench.Scenarios.{
  ActionOp, unknown, connect, disconnect, recv, send, ready, wait_until, Action, action, get_action,
}
use netbench.Uring.{Res, success, failure}
use netbench.Uring.Runner.{udata_timeout}
use netbench.Sender.{
  SenderState, preparing, waiting_for_ready, running, closing, closed, Connection, Sender,
  queue_send, queue_recv, run_action,
}

-- What the `switch` of `processRes` finds, with the sender that it leaves.
pub record Outcome (S : Type 0) : Type 0 where
  pub sender : Sender S
  pub connection : Connection
  pub finished : Bool
  pub was_error : Bool
  pub kill : Bool

abbrev pub settled : {S : Type 0} → Sender S → Connection → Bool → Bool → Outcome S
settled t c was_error kill = record {
  sender = t;
  connection = c;
  finished = true;
  was_error = was_error;
  kill = kill;
}

-- `maybeTooManyConnectErrors`
unfoldable pub too_many_connect_errors : {S : Type 0} → Sender S → Bool
too_many_connect_errors t =
    leb 100 t.connect_errors && ltb (100 * t.success_connects) t.connect_errors

unfoldable pub connect_result : {S : Type 0} → Sender S → Connection → Res → Result (Outcome S)
unfolding too_many_connect_errors
connect_result t c (success n) =
    ok (settled (record t { success_connects = t.success_connects + 1 }) c false false)
connect_result t c (failure e) =
    let t' = record t { connect_errors = t.connect_errors + 1 } in
    if too_many_connect_errors t' then err died else ok (settled t' c true true)

unfoldable pub recv_result : {S : Type 0} → Sender S → Connection → Res → Outcome S
unfolding queue_recv
recv_result t c (failure e) = settled (record t { recv_errors = t.recv_errors + 1 }) c true false
recv_result t c (success zero) = settled (record t { recv_errors = t.recv_errors + 1 }) c true false
recv_result t c (success (suc n)) =
    if ltb (suc n) c.remaining
    then record {
      sender = queue_recv t c (c.remaining - suc n);
      connection = record c { remaining = c.remaining - suc n };
      finished = false;
      was_error = false;
      kill = false;
    }
    else settled t (record c { remaining = 0 }) false false

unfoldable pub is_running : SenderState → Bool
is_running preparing = false
is_running waiting_for_ready = false
is_running running = true
is_running closing = false
is_running closed = false

-- `statsFinishedWrite`
unfoldable pub stats_finished_write : {S : Type 0} → Sender S → ℕ → Sender S
unfolding is_running
stats_finished_write t size =
    if is_running t.state
    then record t { packets_sent = t.packets_sent + 1; bytes_sent = t.bytes_sent + size }
    else t

unfoldable pub send_result : {S : Type 0} → Sender S → Connection → Res → Outcome S
unfolding queue_send stats_finished_write
send_result t c (failure e) =
    settled (record t { send_errors = t.send_errors + 1 }) (record c { remaining = 0 }) true false
send_result t c (success zero) =
    settled (record t { send_errors = t.send_errors + 1 }) (record c { remaining = 0 }) true false
send_result t c (success (suc n)) =
    let c' = record c { remaining = c.remaining - min c.remaining (suc n) } in
    if ltb 0 c'.remaining
    then record {
      sender = queue_send t c';
      connection = c';
      finished = false;
      was_error = false;
      kill = false;
    }
    else settled (stats_finished_write t (suc n)) c' false false

-- The `switch` of `processRes`
unfoldable pub op_result :
    {S : Type 0} → Sender S → Connection → ActionOp → Res → Result (Outcome S)
unfolding connect_result recv_result send_result
op_result t c connect res = connect_result t c res
op_result t c recv res = ok (recv_result t c res)
op_result t c wait_until res = ok (settled t c false false)
op_result t c send res = ok (send_result t c res)
op_result t c disconnect res = ok (settled t c false true)
op_result t c unknown res = ok (settled t c false true)
op_result t c ready res = ok (settled t c false true)

-- The connection after its action: none is current, and an error closes it.
unfoldable pub rest : Connection → Bool → Connection
rest c was_error =
    if was_error
    then record c { current = unknown; want_close = true }
    else record c { current = unknown }

-- The end of `processRes`: the connection is deleted, or closed.
unfoldable pub conclude : {S : Type 0} → Sender S → Connection → Bool → Result (Sender S)
unfolding run_action
conclude t c kill =
    if kill
    then ok (record t { connections = erase c.id t.connections })
    else if c.want_close
    then run_action t (action disconnect c.id 0)
    else ok t

module _ {S : Type 0} (done_last : S → ℕ → ActionOp → Result (S × List Action))
    (done_error : S → ℕ → ActionOp → Result (S × List Action)) where
  -- The scenario is told.
  unfoldable pub finish : Outcome S → ActionOp → Result (Sender S)
  unfolding rest conclude
  finish o was =
      let t = o.sender in
      let c = rest (o.connection) o.was_error in
      (if o.was_error then done_error t.scenario c.id was else done_last t.scenario c.id was)
      >>= λ told.
          conclude
            (record t {
              scenario = told.0;
              queue = t.queue ++ told.1;
              connections = put c.id c t.connections;
            })
            c o.kill

  -- `processRes`
  unfoldable pub process_res : Sender S → Connection → Res → Result (Sender S)
  unfolding op_result finish
  process_res t c res = op_result t c c.current res >>= λ o.
      if o.finished
      then finish o c.current
      else ok (record (o.sender) { connections = put c.id (o.connection) o.sender.connections })

  -- `processCqe`
  unfoldable pub process_cqe : Sender S → ℕ → Res → Result (Sender S)
  unfolding process_res
  process_cqe t user_data res =
      if user_data == udata_timeout
      then ok t
      else (let t' = record t { outstanding = t.outstanding - 1 } in
          elim (find user_data t'.connections) [ none ↦ ok t' | some c ↦ process_res t' c res ])

  -- The part of `queueOne` for `WaitingForReady`, once nothing is under way.
  unfoldable pub become_ready : Sender S → Result (Sender S)
  become_ready t = done_last t.scenario 0 ready >>= λ told.
      ok (record t { scenario = told.0; queue = t.queue ++ told.1; state = running })

  -- The `switch` of `queueOne`
  unfoldable pub next_action : Sender S → Result (Sender S × Bool)
  unfolding run_action
  next_action t = elim t.state [
    | closed ↦ ok (t, false)
    | waiting_for_ready ↦ ok (t, false)
    | closing ↦ if ltb 0 t.outstanding then ok (t, false) else (elim t.to_close [
      | [] ↦ ok (t, false)
      | i ∷ more ↦
          run_action t (action disconnect i 0) >>= λ t'. ok (record t' { to_close = more }, true)
    ])
    | preparing ↦ elim (get_action t.queue) [
      | none ↦ ok (t, false)
      | some (a, queue) ↦ run_action (record t { queue = queue }) a >>= λ t'. ok (t', true)
    ]
    | running ↦ elim (get_action t.queue) [
      | none ↦ ok (t, false)
      | some (a, queue) ↦ run_action (record t { queue = queue }) a >>= λ t'. ok (t', true)
    ]
  ]

  -- `queueOne`
  unfoldable pub queue_one : Sender S → Result (Sender S × Bool)
  unfolding become_ready next_action
  queue_one t = if leb t.max_outstanding t.outstanding then ok (t, false) else (elim t.state [
    | waiting_for_ready ↦
        if ltb 0 t.outstanding || ltb 0 t.expected
        then ok (t, false)
        else become_ready t >>= λ t'. next_action t'
    | preparing ↦ next_action t
    | running ↦ next_action t
    | closing ↦ next_action t
    | closed ↦ next_action t
  ])
