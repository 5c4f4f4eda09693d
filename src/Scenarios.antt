-- ===== src/Scenarios.antt =====
-- The benchmark scenarios of sender.cpp: what a sender is to do next. A time is a number of
-- microseconds and an argument, since the code reads the clock. A scenario's `doneLast` gives its new
-- state with what it appends to `queue`, in order.
pub mod Steps
pub mod Lots
pub mod Bookings
pub mod Bursts
pub mod Periods
pub mod Make
mod Tests
use netbench.Base.{
  ℕ, zero, suc, ◌+◌, ◌-◌, ◌%◌, ◌^◌, Option, none, some, List, [], ◌∷◌, ◌++◌, ltb, leb, ◌==◌,
  if◌then◌else◌, Bool, true, false, ◌&&◌, get_elem?, length,
}
use netbench.Base.Results.{Result, ok, err, Error, died, fault}

-- `ActionOp`
pub data ActionOp : Type 0 where
  unknown : ActionOp
  connect : ActionOp
  disconnect : ActionOp
  recv : ActionOp
  send : ActionOp
  ready : ActionOp
  wait_until : ActionOp

-- `Action`
pub record Action : Type 0 where
  pub op : ActionOp
  pub id : ℕ
  pub param : ℕ

abbrev pub action : ActionOp → ℕ → ℕ → Action
action o i n = record { op = o; id = i; param = n }

-- `BenchmarkScenarioBase::getAction`
unfoldable pub get_action : List Action → Option (Action × List Action)
get_action [] = none
get_action (a ∷ queue) = some (a, queue)

-- The loop of the constructors: connections `c` to `c + n - 1`, then `Ready`.
unfoldable pub connects : ℕ → ℕ → List Action
connects c zero = action ready 0 0 ∷ []
connects c (suc n) = action connect c 0 ∷ connects (c + 1) n

-- The element at an index is replaced.
unfoldable pub set_at {ℓ} : {A : Type ℓ} → ℕ → A → List A → List A
set_at i a [] = []
set_at zero a (x ∷ xs) = a ∷ xs
set_at (suc i) a (x ∷ xs) = x ∷ set_at i a xs

-- `ConnectSendLots`
pub record ConnectSendLots : Type 0 where
  pub start_timing : Bool
  pub send_size : ℕ
  pub resp_size : ℕ
  pub last_send : List (Option ℕ)
  pub send_times : List ℕ

-- The timing of a completed connect or receive: `lastSend_.at(idx)` throws where there is no such index.
unfoldable pub note_send : ConnectSendLots → ℕ → ℕ → Result ConnectSendLots
unfolding set_at
note_send s idx now =
    if s.start_timing
    then (elim (get_elem? s.last_send idx) [
      | none ↦ err died
      | some was ↦
          let last = set_at idx (some now) s.last_send in
          elim was [
            | none ↦ ok (record s { last_send = last })
            | some t ↦
                if ltb t now
                then ok (record s { last_send = last; send_times = s.send_times ++ (now - t) ∷ [] })
                else ok (record s { last_send = last })
          ]
    ])
    else ok s

-- `ConnectSendLots::doneLast`
unfoldable pub lots_done :
    ConnectSendLots → ℕ → ActionOp → ℕ → Result (ConnectSendLots × List Action)
unfolding note_send
lots_done s idx ready now = ok (record s { start_timing = true }, [])
lots_done s idx send now = ok (s, action recv idx s.resp_size ∷ [])
lots_done s idx connect now = elim (note_send s idx now) [
  | err e ↦ err e
  | ok s' ↦ ok (s', action send idx s.send_size ∷ [])
]
lots_done s idx recv now = elim (note_send s idx now) [
  | err e ↦ err e
  | ok s' ↦ ok (s', action send idx s.send_size ∷ [])
]
lots_done s idx unknown now = ok (s, [])
lots_done s idx disconnect now = ok (s, [])
lots_done s idx wait_until now = ok (s, [])

-- `ConnectSendDisconnect`
pub record ConnectSendDisconnect : Type 0 where
  pub next_idx : ℕ
  pub send_size : ℕ
  pub resp_size : ℕ
  pub reconnect_from : ℕ

unfoldable pub reconnect : ConnectSendDisconnect → ConnectSendDisconnect × List Action
reconnect s = (record s { next_idx = (s.next_idx + 1) % 2 ^ 64 }, action connect s.next_idx 0 ∷ [])

-- The default case: the connection is given up, unless it is one that stays.
unfoldable pub give_up : ConnectSendDisconnect → ℕ → ConnectSendDisconnect × List Action
give_up s idx = if leb s.reconnect_from idx then (s, action disconnect idx 0 ∷ []) else (s, [])

-- `ConnectSendDisconnect::doneLast`
unfoldable pub disconnect_done :
    ConnectSendDisconnect → ℕ → ActionOp → ConnectSendDisconnect × List Action
unfolding reconnect give_up
disconnect_done s idx connect = (s, action send idx s.send_size ∷ [])
disconnect_done s idx disconnect = reconnect s
disconnect_done s idx send = (s, action recv idx s.resp_size ∷ [])
disconnect_done s idx recv = give_up s idx
disconnect_done s idx ready = give_up s idx
disconnect_done s idx unknown = give_up s idx
disconnect_done s idx wait_until = give_up s idx

-- `ConnectSendDisconnect::doneError`
unfoldable pub disconnect_error : ConnectSendDisconnect → ConnectSendDisconnect × List Action
unfolding reconnect
disconnect_error s = reconnect s

-- `BurstStatCollector`: when it started, and the entries.
pub record BurstStats : Type 0 where
  pub start : ℕ
  pub entries : List (ℕ × ℕ)

unfoldable pub any : BurstStats → Bool
any b = ltb 0 (length b.entries)

unfoldable pub add : BurstStats → ℕ → ℕ → BurstStats
add b idx now = record b { entries = b.entries ++ (idx, now) ∷ [] }

-- `collect` up to `LatencyResult::from`: the durations.
unfoldable pub durations : ℕ → List (ℕ × ℕ) → List ℕ
durations start [] = []
durations start ((idx, time) ∷ more) = (time - start) ∷ durations start more

-- `BurstySend`, with the durations of each burst for its result.
pub record BurstySend : Type 0 where
  pub send_size : ℕ
  pub resp_size : ℕ
  pub outstanding : ℕ
  pub connections : List ℕ
  pub burst_results : List (List ℕ)
  pub stats : BurstStats

-- The loop of `newBurst`
unfoldable pub send_all : ℕ → List ℕ → ℕ → ℕ × List Action
send_all size [] outstanding = (outstanding, [])
send_all size (idx ∷ more) outstanding =
    let (n, actions) = send_all size more ((outstanding + 1) % 2 ^ 64) in
    (n, action send idx size ∷ actions)

-- `newBurst`
unfoldable pub new_burst : BurstySend → ℕ → BurstySend × List Action
unfolding send_all any durations
new_burst s now =
    let (n, actions) = send_all s.send_size s.connections s.outstanding in
    (
      record s {
        outstanding = n;
        burst_results =
            if any s.stats
            then s.burst_results ++ durations s.stats.start s.stats.entries ∷ []
            else s.burst_results;
        stats = record { start = now; entries = [] };
      },
      actions,
    )

-- `BurstySend::doneLast` for a receive: `outstanding_` is unsigned, so the test for a negative one is
-- never true.
unfoldable pub burst_recv : BurstySend → ℕ → ℕ → BurstySend × List Action
unfolding new_burst add
burst_recv s idx now =
    let s' = record s {
      stats = add s.stats idx now;
      outstanding = (s.outstanding + (2 ^ 64 - 1)) % 2 ^ 64;
    } in
    if s'.outstanding == 0 then new_burst s' now else (s', [])

-- `BurstySend::doneLast`
unfoldable pub bursty_done : BurstySend → ℕ → ActionOp → ℕ → BurstySend × List Action
unfolding new_burst burst_recv
bursty_done s idx ready now = new_burst s now
bursty_done s idx send now = (s, action recv idx s.resp_size ∷ [])
bursty_done s idx recv now = burst_recv s idx now
bursty_done s idx connect now = (record s { connections = s.connections ++ idx ∷ [] }, [])
bursty_done s idx unknown now = (s, [])
bursty_done s idx disconnect now = (s, [])
bursty_done s idx wait_until now = (s, [])
