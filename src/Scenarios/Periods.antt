-- ===== src/Scenarios/Periods.antt =====
-- `BurstySendPeriodic` of sender.cpp. An index that is out of the vector
-- of connections is the fault `fault`.
use netbench.Base.{
  ℕ, zero, suc, ◌+◌, ◌-◌, ◌*◌, ◌%◌, ◌^◌, ◌<◌, ◌≤◌, ◌≡◌, refl, List, [], ◌∷◌, ◌++◌, Option, none,
  some, ltb, ◌==◌, if◌then◌else◌, Bool, true, ◌&&◌, get_elem?, arith, inl, inr, Bool-cases,
}
use netbench.Base.Results.{Result, ok, err, fault, ◌>>=◌}
use netbench.Scenarios.{
  ActionOp, unknown, connect, disconnect, recv, send, ready, wait_until, Action, action, set_at,
  BurstStats, any, add, durations,
}

-- `ConnState`
pub record ConnState : Type 0 where
  pub current_period : ℕ
  pub connected : Bool

pub record BurstySendPeriodic : Type 0 where
  pub send_size : ℕ
  pub resp_size : ℕ
  pub epoch : ℕ
  pub burst_start : ℕ
  pub next_burst_start : ℕ
  pub period : ℕ
  pub current_period : ℕ
  pub connections : List ConnState
  pub burst_results : List (List ℕ)
  pub stats : BurstStats

-- `mkWaitParam`: times before the epoch give 0, as the subtraction does.
unfoldable pub mk_wait_param : ℕ → ℕ → ℕ
mk_wait_param epoch to = to - epoch

-- `addSend`
unfoldable pub add_send : BurstySendPeriodic → ℕ → Result (BurstySendPeriodic × List Action)
unfolding set_at
add_send s idx = elim (get_elem? s.connections idx) [
  | none ↦ err fault
  | some c ↦ ok (
    record s {
      connections =
          set_at idx (record c { current_period = (c.current_period + 1) % 2 ^ 64 }) s.connections;
    },
    action send idx s.send_size ∷ [],
  )
]

-- The loop over the connections for `Ready`, from index `i` over the ones that are left.
unfoldable pub send_connected :
    BurstySendPeriodic → ℕ → List ConnState → Result (BurstySendPeriodic × List Action)
unfolding add_send
send_connected s i [] = ok (s, [])
send_connected s i (c ∷ more) =
    if c.connected
    then (add_send s i >>= λ first.
        send_connected first.0 (i + 1) more >>= λ rest. ok (rest.0, first.1 ++ rest.1))
    else send_connected s (i + 1) more

-- The `Recv` and `WaitUntil` cases after the statistics: a connection that is behind sends at once.
unfoldable pub send_or_wait :
    BurstySendPeriodic → ℕ → ConnState → Result (BurstySendPeriodic × List Action)
unfolding add_send mk_wait_param
send_or_wait s idx c =
    if ltb c.current_period s.current_period
    then add_send s idx
    else ok (s, action wait_until idx (mk_wait_param s.epoch s.next_burst_start) ∷ [])

-- `doneLast` before `checkBurstTime`
unfoldable pub periodic_event :
    BurstySendPeriodic → ℕ → ActionOp → ℕ → Result (BurstySendPeriodic × List Action)
unfolding send_connected send_or_wait add set_at
periodic_event s idx ready now =
    send_connected
      (record s {
        burst_start = now;
        next_burst_start = now + s.period;
        stats = record { start = now; entries = [] };
        current_period = 1;
      })
      0 s.connections
periodic_event s idx send now = ok (s, action recv idx s.resp_size ∷ [])
periodic_event s idx recv now = elim (get_elem? s.connections idx) [
  | none ↦ err fault
  | some c ↦
      send_or_wait
        (if c.current_period == s.current_period
          then record s { stats = add s.stats idx now }
          else s)
        idx c
]
periodic_event s idx wait_until now = elim (get_elem? s.connections idx) [
  | none ↦ err fault
  | some c ↦ send_or_wait s idx c
]
periodic_event s idx connect now = elim (get_elem? s.connections idx) [
  | none ↦ err fault
  | some c ↦
      ok (record s { connections = set_at idx (record c { connected = true }) s.connections }, [])
]
periodic_event s idx unknown now = ok (s, [])
periodic_event s idx disconnect now = ok (s, [])

-- The body of the loop of `checkBurstTime`
unfoldable pub next_period : BurstySendPeriodic → ℕ → BurstySendPeriodic
unfolding any durations
next_period s now = record s {
  current_period = (s.current_period + 1) % 2 ^ 64;
  next_burst_start = s.next_burst_start + s.period;
  burst_results =
      if any s.stats
      then s.burst_results ++ durations s.stats.start s.stats.entries ∷ []
      else s.burst_results;
  stats = record { start = now; entries = [] };
}

-- `checkBurstTime`, on fuel.
unfoldable pub check_burst_time : ℕ → BurstySendPeriodic → ℕ → Option BurstySendPeriodic
unfolding next_period
check_burst_time zero s now = none
check_burst_time (suc fuel) s now =
    let rest = check_burst_time fuel (next_period s now) now in
    if ltb 0 s.current_period && ltb s.next_burst_start now then rest else some s

-- `BurstySendPeriodic::doneLast`: fuel that runs out is a fault.
unfoldable pub periodic_done :
    ℕ → BurstySendPeriodic → ℕ → ActionOp → ℕ → Result (BurstySendPeriodic × List Action)
unfolding periodic_event check_burst_time
periodic_done fuel s idx op now = periodic_event s idx op now >>= λ queued.
    elim (check_burst_time fuel queued.0 now) [ none ↦ err fault | some s' ↦ ok (s', queued.1) ]

-- With a positive period and once started, `checkBurstTime` ends with the end of the current period not
-- in the past, if the count of periods cannot wrap: it counts one period for each that went by. As much
-- fuel as microseconds went by, and one, is enough.
pub check_burst_time_total :
    (fuel : ℕ) (s : BurstySendPeriodic) (now : ℕ)
    → 0 < s.period
    → 0 < s.current_period
    → s.current_period + (now - s.next_burst_start) < 2 ^ 64
    → now - s.next_burst_start < fuel
    → (s' : BurstySendPeriodic) × (k : ℕ) × (check_burst_time fuel s now ≡ some s')
      × (now ≤ s'.next_burst_start)
      × (s'.current_period ≡ s.current_period + k)
      × (s'.next_burst_start ≡ s.next_burst_start + k * s.period)
unfolding check_burst_time next_period
check_burst_time_total zero s now positive started small enough = absurd (omega (arith, enough))
check_burst_time_total (suc fuel) s now positive started small enough =
    elim (Bool-cases (ltb 0 s.current_period && ltb s.next_burst_start now)) [
      | inr on_time ↦ (
        s,
        0,
        rw (on_time, check_burst_time) refl,
        ground (arith, on_time, started),
        omega arith,
        omega arith,
      )
      | inl late ↦
          let behind : s.next_burst_start < now = ground (arith, late) in
          let (s', k, ended, in_time, periods, advanced) =
            check_burst_time_total fuel (next_period s now) now positive (omega arith)
              (omega (arith, behind)) (omega (arith, behind)) in
          (
            s',
            suc k,
            rw (late, check_burst_time) ended,
            in_time,
            omega (arith, periods, behind),
            omega (arith, advanced),
          )
    ]
