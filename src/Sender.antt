-- ===== src/Sender.antt =====
-- `Sender` of sender.cpp: the connections of one sending thread and what it asks io_uring to do. The
-- scenario is a parameter: its state, and its `doneLast` and `doneError`, which give what they append
-- to the queue. Time is an argument where the code reads the clock, in nanoseconds since
-- `getEpoch`; the logs are left out.
pub mod Segments
pub mod Actions
pub mod Books
pub mod Flights
pub mod Completions
pub mod Loop
pub mod Runs
pub mod Sleeps
pub mod Reconnect
mod Tests
use netbench.Base.{
  ℕ, zero, suc, ◌+◌, ◌-◌, ◌*◌, ◌%◌, ◌^◌, min, Option, none, some, List, [], ◌∷◌, ◌++◌, ltb, leb,
  ◌==◌, if◌then◌else◌, Bool, true, false, ◌&&◌, ◌||◌,
}
use netbench.Base.Results.{Result, ok, err, died, fault, ◌>>=◌}
use netbench.Base.Assoc.{find, put, erase}
use netbench.Scenarios.{
  ActionOp, unknown, connect, disconnect, recv, send, ready, wait_until, Action, action,
}

-- `SenderState`
pub data SenderState : Type 0 where
  preparing : SenderState
  waiting_for_ready : SenderState
  running : SenderState
  closing : SenderState
  closed : SenderState

-- What a submission asks for: the lengths of the parts of a message, for a send.
pub data Request : Type 0 where
  do_connect : Request
  do_close : Request
  do_recv : ℕ → Request
  do_sendmsg : List ℕ → Request

-- `Connection`: `fd` tells whether there is a socket.
pub record Connection : Type 0 where
  pub id : ℕ
  pub fd : Bool
  pub current : ActionOp
  pub remaining : ℕ
  pub whole_write : ℕ
  pub want_close : Bool

abbrev pub new_connection : ℕ → Connection
new_connection i = record {
  id = i;
  fd = false;
  current = unknown;
  remaining = 0;
  whole_write = 0;
  want_close = false;
}

pub record Sender (S : Type 0) : Type 0 where
  pub scenario : S
  pub queue : List Action
  pub connections : List (ℕ × Connection)
  pub state : SenderState
  pub max_outstanding : ℕ
  pub outstanding : ℕ
  pub expected : ℕ
  -- prepared submissions, each with the id of its connection, the last one first
  pub sqes : List (ℕ × Request)
  -- `waits_`, by deadline and then in order of insertion: each deadline with its connection
  pub waits : List (ℕ × ℕ)
  pub to_close : List ℕ
  pub connect_errors : ℕ
  pub success_connects : ℕ
  pub recv_errors : ℕ
  pub send_errors : ℕ
  pub packets_sent : ℕ
  pub bytes_sent : ℕ

abbrev pub prelude_size : ℕ
prelude_size = 8

-- `get_sqe` with what its caller prepares.
unfoldable pub push : {S : Type 0} → Sender S → ℕ → Request → Sender S
push t i q = record t { sqes = (i, q) ∷ t.sqes; expected = t.expected + 1 }

-- `tryGetConnection`
unfoldable pub try_get_connection :
    {S : Type 0} → Sender S → ℕ → Bool → Option (Connection × Sender S)
try_get_connection t i create = elim (find i t.connections) [
  | some c ↦ some (c, t)
  | none ↦
      if create
      then some (new_connection i, record t { connections = (i, new_connection i) ∷ t.connections })
      else none
]

-- `queueConnect`
unfoldable pub queue_connect : {S : Type 0} → Sender S → Connection → Sender S
unfolding push
queue_connect t c =
    push (record t { connections = put c.id (record c { fd = true }) t.connections }) c.id
      do_connect

-- `queueSend`: the lengths of the parts of the message. The prelude is the first 8 bytes.
unfoldable pub segments : Connection → List ℕ
segments c =
    if leb (c.whole_write - c.remaining) prelude_size
    then (prelude_size - (c.whole_write - c.remaining))
      ∷ ((c.remaining + (2 ^ 64 - prelude_size)) % 2 ^ 64)
      ∷ []
    else c.remaining ∷ []

unfoldable pub queue_send : {S : Type 0} → Sender S → Connection → Sender S
unfolding push segments
queue_send t c = push t c.id (do_sendmsg (segments c))

-- `queueNewSend`
unfoldable pub start_send : Connection → ℕ → Connection
start_send c length = record c {
  whole_write = (length + prelude_size) % 2 ^ 32;
  remaining = (length + prelude_size) % 2 ^ 32;
}

unfoldable pub queue_new_send : {S : Type 0} → Sender S → Connection → ℕ → Sender S
unfolding queue_send start_send
queue_new_send t c length =
    let c' = start_send c length in
    queue_send (record t { connections = put c.id c' t.connections }) c'

-- `queueRecv`
unfoldable pub queue_recv : {S : Type 0} → Sender S → Connection → ℕ → Sender S
unfolding push
queue_recv t c length =
    push (record t { connections = put c.id (record c { remaining = length }) t.connections }) c.id
      (do_recv length)

-- `waits_[wait].connections.push_back`
unfoldable pub schedule : ℕ → ℕ → List (ℕ × ℕ) → List (ℕ × ℕ)
schedule wait i [] = (wait, i) ∷ []
schedule wait i ((other, j) ∷ waits) =
    if ltb wait other then (wait, i) ∷ (other, j) ∷ waits else (other, j) ∷ schedule wait i waits

-- `fromWaitParam`, in nanoseconds since `getEpoch`: the parameter is in microseconds.
unfoldable pub from_wait_param : ℕ → ℕ
from_wait_param val = val * 1000

-- `queueWaitUntil`
unfoldable pub queue_wait_until : {S : Type 0} → Sender S → Connection → ℕ → Sender S
unfolding schedule from_wait_param
queue_wait_until t c wait = record t { waits = schedule (from_wait_param wait) c.id t.waits }

-- The `switch` of `runAction`, for a connection that has the action as its current one.
unfoldable pub start_action :
    {S : Type 0} → Sender S → Connection → ActionOp → ℕ → Result (Sender S)
unfolding queue_connect push queue_recv queue_new_send queue_wait_until
start_action t c connect param = ok (queue_connect t c)
start_action t c disconnect param = ok (push t c.id do_close)
start_action t c recv param = ok (queue_recv t c (param % 2 ^ 32))
start_action t c send param = ok (queue_new_send t c (param % 2 ^ 32))
start_action t c wait_until param = ok (queue_wait_until t c param)
start_action t c unknown param = err died
start_action t c ready param = err died

unfoldable pub is_idle : ActionOp → Bool
is_idle unknown = true
is_idle connect = false
is_idle disconnect = false
is_idle recv = false
is_idle send = false
is_idle ready = false
is_idle wait_until = false

unfoldable pub is_op : ActionOp → ActionOp → Bool
is_op connect connect = true
is_op disconnect disconnect = true
is_op recv recv = true
is_op send send = true
is_op ready ready = true
is_op wait_until wait_until = true
is_op unknown unknown = true
is_op a b = false

-- `runAction` on a connection: one action at a time, but a disconnect at any.
unfoldable pub run_on : {S : Type 0} → Sender S → Connection → Action → Result (Sender S)
unfolding start_action is_idle is_op
run_on t c a =
    if is_idle c.current
    then (let c' = record c { current = a.op } in
        start_action (record t { connections = put c.id c' t.connections }) c' a.op a.param)
    else if is_op a.op disconnect
    then (let c' = record c { current = a.op; want_close = true } in
        start_action (record t { connections = put c.id c' t.connections }) c' a.op a.param)
    else err died

-- `runAction`: an action for a connection that is not there is dropped.
unfoldable pub run_action : {S : Type 0} → Sender S → Action → Result (Sender S)
unfolding try_get_connection run_on is_op
run_action t a =
    if is_op a.op ready
    then ok (record t { state = waiting_for_ready })
    else (elim (try_get_connection t a.id (is_op a.op connect)) [
      | none ↦ ok t
      | some (c, t') ↦ run_on t' c a
    ])
