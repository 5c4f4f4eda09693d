-- ===== src/Scenarios/Tests.antt =====
-- Runs of the scenarios, and their theorems at a few steps.
use netbench.Base.{ℕ, ◌+◌, ◌*◌, ◌≤◌, ◌≡◌, refl, [], ◌∷◌, none, some, arith, false}
use netbench.Scenarios.{
  connect, send, ready, action, connects, ConnectSendLots, lots_done, note_send, BurstySend,
  bursty_done,
}
use netbench.Scenarios.Steps.{World, take, complete, Reaches, here, next, pending}
use netbench.Scenarios.Lots.{IsOnePerConn, Reaches-IsOnePerConn}
use netbench.Scenarios.Lots
use netbench.Scenarios.Bookings.{is_request}
use netbench.Scenarios.Bursts.{IsKept, Reaches-IsKept}
use netbench.Scenarios.Bookings
use netbench.Scenarios.Periods.{BurstySendPeriodic, check_burst_time, check_burst_time_total}

abbrev lots : ConnectSendLots
lots = record {
  start_timing = false;
  send_size = 64;
  resp_size = 1;
  last_send = none ∷ none ∷ none ∷ [];
  send_times = [];
}

-- Two connections; the first one has connected.
abbrev lots_later : World ConnectSendLots
lots_later = record {
  state = lots;
  queue = action connect 2 0 ∷ action ready 0 0 ∷ action send 1 64 ∷ [];
  in_flight = [];
}

lots_run : Reaches Lots.done (Lots.start lots 2) lots_later
unfolding connects lots_done note_send
lots_run =
    next
      (next here (take lots (action connect 1 0) (action connect 2 0 ∷ action ready 0 0 ∷ []) []))
      (complete lots lots (action connect 1 0) (action connect 2 0 ∷ action ready 0 0 ∷ []) [] []
        (action send 1 64 ∷ []) 5 refl)

Reaches-IsOnePerConn_example : IsOnePerConn 2 lots_later
Reaches-IsOnePerConn_example = Reaches-IsOnePerConn lots 2 lots_later lots_run

abbrev bursty : BurstySend
bursty = record {
  send_size = 64;
  resp_size = 1;
  outstanding = 0;
  connections = [];
  burst_results = [];
  stats = record { start = 0; entries = [] };
}

abbrev bursty_later : World BurstySend
bursty_later = record {
  state = record bursty { connections = 1 ∷ [] };
  queue = action ready 0 0 ∷ [];
  in_flight = [];
}

bursty_run : Reaches Bookings.done (Bookings.start bursty 1) bursty_later
unfolding connects bursty_done
bursty_run = next (next here (take bursty (action connect 1 0) (action ready 0 0 ∷ []) [])) (
    complete bursty (record bursty { connections = 1 ∷ [] }) (action connect 1 0)
      (action ready 0 0 ∷ []) [] [] [] 5 refl)

Reaches-IsKept_example : (0 ≡ pending is_request bursty_later) × (0 ≤ 1) × IsKept 1 bursty_later
Reaches-IsKept_example = Reaches-IsKept bursty 1 bursty_later refl refl (omega arith) bursty_run

abbrev periodic : BurstySendPeriodic
periodic = record {
  send_size = 64;
  resp_size = 1;
  epoch = 0;
  burst_start = 100;
  next_burst_start = 110;
  period = 10;
  current_period = 1;
  connections = [];
  burst_results = [];
  stats = record { start = 100; entries = [] };
}

check_burst_time_total_example :
    (s' : BurstySendPeriodic) × (k : ℕ) × (check_burst_time 30 periodic 135 ≡ some s')
    × (135 ≤ s'.next_burst_start)
    × (s'.current_period ≡ 1 + k)
    × (s'.next_burst_start ≡ 110 + k * 10)
check_burst_time_total_example =
    check_burst_time_total 30 periodic 135 (omega arith) (omega arith) (omega arith) (omega arith)
