-- ===== src/Scenarios/Make.antt =====
-- `makeScenario` of sender.cpp, and the constructors of the scenarios. A scenario begins with a queue: a connect
-- for each connection, then `Ready`. `period` is what `parseMore` reads from the words after the name.
use Prim.Native.String.{String}
use text.Mathlib.Text.{◌==◌ as str_eq}
use netbench.Base.{
  ℕ, zero, suc, ◌+◌, ◌%◌, ◌^◌, ◌<◌, ◌≡◌, ap, none, List, [], ◌∷◌, if◌then◌else◌, false, replicate,
  arith,
}
use netbench.Base.Results.{Result, ok, err, died, ◌>>=◌}
use netbench.Scenarios.{
  connect, ready, Action, action, connects, ConnectSendLots, ConnectSendDisconnect, BurstStats,
  BurstySend,
}
use netbench.Scenarios.Periods.{BurstySendPeriodic}

-- `PerSendOptions`
pub record PerSendOptions : Type 0 where
  pub threads : ℕ
  pub per_thread : ℕ
  pub size : ℕ
  pub resp : ℕ
  pub workload : ℕ

pub data Scenario : Type 0 where
  lots : ConnectSendLots → Scenario
  disconnects : ConnectSendDisconnect → Scenario
  bursty : BurstySend → Scenario
  periodic : BurstySendPeriodic → Scenario

abbrev pub no_stats : ℕ → BurstStats
no_stats now = record { start = now; entries = [] }

-- `ConnectSendLots::ConnectSendLots`
unfoldable pub new_lots : PerSendOptions → ConnectSendLots
new_lots o = record {
  start_timing = false;
  send_size = o.size;
  resp_size = o.resp;
  last_send = replicate (o.per_thread + 1) none;
  send_times = [];
}

-- The loop of `ConnectSendDisconnect::ConnectSendDisconnect`: `nextIdx_` and the connects.
unfoldable pub take_ids : ℕ → ℕ → ℕ × List Action
take_ids next_idx zero = (next_idx, action ready 0 0 ∷ [])
take_ids next_idx (suc n) =
    let rest = take_ids ((next_idx + 1) % 2 ^ 64) n in (rest.0, action connect next_idx 0 ∷ rest.1)

-- `ConnectSendDisconnect::ConnectSendDisconnect`
unfoldable pub new_disconnects : PerSendOptions → ℕ → ConnectSendDisconnect × List Action
unfolding take_ids
new_disconnects o reconnect_from =
    let (next_idx, queue) = take_ids 1 o.per_thread in
    (
      record {
        next_idx = next_idx;
        send_size = o.size;
        resp_size = o.resp;
        reconnect_from = reconnect_from;
      },
      queue,
    )

-- `BurstySend::BurstySend`
unfoldable pub new_bursty : PerSendOptions → ℕ → BurstySend
new_bursty o now = record {
  send_size = o.size;
  resp_size = o.resp;
  outstanding = 0;
  connections = [];
  burst_results = [];
  stats = no_stats now;
}

-- `BurstySendPeriodic::BurstySendPeriodic`, with the period as `parseMore` leaves it.
unfoldable pub new_periodic : PerSendOptions → ℕ → ℕ → BurstySendPeriodic
new_periodic o period now = record {
  send_size = o.size;
  resp_size = o.resp;
  epoch = 0;
  burst_start = 0;
  next_burst_start = 0;
  period = period;
  current_period = 0;
  connections = replicate (o.per_thread + 1) (record { current_period = 0; connected = false });
  burst_results = [];
  stats = no_stats now;
}

-- `parseMore` of a scenario that takes no words.
unfoldable pub no_more : {A : Type 0} → List String → A → Result A
no_more [] a = ok a
no_more (word ∷ more) a = err died

-- `makeScenario`, with the words of its argument.
unfoldable pub make_scenario :
    (List String → Result ℕ) → List String → PerSendOptions → ℕ → Result (Scenario × List Action)
unfolding new_lots new_disconnects new_bursty new_periodic no_more connects
make_scenario period [] o now = err died
make_scenario period (test ∷ words) o now =
    if str_eq test "io_uring"
    then no_more words (lots (new_lots o), connects 1 o.per_thread)
    else if str_eq test "io_uring_single"
    then (let made = new_disconnects o 0 in no_more words (disconnects made.0, made.1))
    else if str_eq test "io_uring_single_some_idle"
    then (let made = new_disconnects o 4 in no_more words (disconnects made.0, made.1))
    else if str_eq test "burst"
    then no_more words (bursty (new_bursty o now), connects 1 o.per_thread)
    else if str_eq test "burst_periodic"
    then (period words >>= λ us. ok (periodic (new_periodic o us now), connects 1 o.per_thread))
    else err died

-- The ids of `ConnectSendDisconnect` begin as those of the other scenarios do, below 2^64.
pub take_ids-connects :
    (next_idx n : ℕ)
    → next_idx + n < 2 ^ 64
    → take_ids next_idx n ≡ (next_idx + n, connects next_idx n)
unfolding take_ids connects
take_ids-connects next_idx zero small = ap (λ i. (i, action ready 0 0 ∷ [])) (omega arith)
take_ids-connects next_idx (suc n) small =
    let same : (next_idx + 1) % 2 ^ 64 ≡ next_idx + 1 = omega (arith, small) in
    let rest = take_ids-connects (next_idx + 1) n (omega (arith, small)) in
    let end : next_idx + 1 + n ≡ next_idx + suc n = omega arith in
    rw (same, rest) (ap (λ i. (i, action connect next_idx 0 ∷ connects (next_idx + 1) n)) end)
