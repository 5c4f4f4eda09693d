-- ===== src/Stats/Tests.antt =====
-- The statistics with a `double` that has two decimals, and their theorems at small results.
use netbench.Base.{ℕ, ◌+◌, ◌*◌, ◌/◌, ◌≡◌, refl, List, [], ◌∷◌, arith, ltb, true, false}
use netbench.Launch.Groups.{string_name}
use netbench.Stats.{
  Doubles, LatencyResult, SendResults, index_95, insert, sort, from, no_results, merge_all,
}
use netbench.Stats.Bounds.{AllUpTo, InOrder, Splits, from-bounds}
use netbench.Stats.Accuracy.{IsAccurate}
use native.Mathlib.Nat.{mul_assoc}
use netbench.Stats.Merged.{connects, read, merge_all-total}
use netbench.Stats.Rx.{RxStats, Round, get_ms}

-- Hundredths.
instance abbrev decimal : Doubles ℕ
decimal = record {
  of_nat = λ n. 100 * n;
  add = λ a b. a + b;
  mul = λ a b. a * b / 100;
  div = λ a b. a * 100 / b;
  trunc = λ a. a / 100;
  is_positive = λ a. ltb 0 a;
  below = λ a b. ltb a b;
  hundredths = λ k. k;
}

decimal_product : (n k : ℕ) → 100 * n * k / 100 ≡ n * k
decimal_product n k = omega (arith, mul_assoc 100 n k)

decimal-IsAccurate : IsAccurate decimal
decimal-IsAccurate = record {
  units = λ d. d;
  one = 100;
  one_positive = omega arith;
  literal_low = λ k le. omega arith;
  literal_high = λ k le. omega arith;
  mul_low = λ n k small le. omega (arith, decimal_product n k);
  mul_high = λ n k small le. omega (arith, decimal_product n k);
  trunc_low = λ d small. omega arith;
  trunc_high = λ d small. omega arith;
}

abbrev measured : LatencyResult ℕ
measured = record { p100 = 9; p95 = 9; p50 = 7; avg = 6; count = 300 }

from_three : from (9 ∷ 2 ∷ 7 ∷ []) ≡ measured
unfolding from sort insert index_95
from_three = refl

-- The latencies 21 to 1, in this order: the 95th percentile is not the largest.
abbrev descending : List ℕ
descending =
    20 ∷ 19 ∷ 18 ∷ 17 ∷ 16 ∷ 15 ∷ 14 ∷ 13 ∷ 12 ∷ 11 ∷ 10 ∷ 9 ∷ 8 ∷ 7 ∷ 6 ∷ 5 ∷ 4 ∷ 3 ∷ 2 ∷ 1 ∷ []

abbrev measured_21 : LatencyResult ℕ
measured_21 = record { p100 = 21; p95 = 20; p50 = 11; avg = 11; count = 2100 }

from-bounds_example :
    AllUpTo measured_21.p100 (21 ∷ descending)
    × InOrder measured_21
    × Splits 95 measured_21.p95 (21 ∷ descending)
    × Splits 50 measured_21.p50 (21 ∷ descending)
unfolding from sort insert index_95
from-bounds_example = from-bounds 21 descending decimal-IsAccurate (omega arith)

abbrev thread : ℕ → SendResults ℕ
thread n = record no_results { connects = n; burst_results = measured ∷ [] }

merge_all-total_example :
    (read connects (merge_all (thread 4 ∷ thread 3 ∷ [])) ≡ 7)
    × ((merge_all (thread 4 ∷ thread 3 ∷ [])).burst_results ≡ measured ∷ measured ∷ [])
merge_all-total_example = merge_all-total connects (thread 4 ∷ thread 3 ∷ [])

abbrev fresh : RxStats ℕ
fresh = record {
  count_reads = true;
  reads = [];
  last_stats = 5000;
  loops = 0;
  overflows = 0;
  wait_started = 0;
  idle = 0;
  last_bytes = 0;
  last_requests = 0;
  last_rps = 0;
}

abbrev slept : Round
slept = record {
  started = 10000;
  woken = 210000;
  ended = 300000;
  bytes = 64;
  requests = 1;
  reads = 1;
  is_overflow = false;
}

get_ms_run : get_ms 100 400 650 ≡ 2500
unfolding get_ms
get_ms_run = refl
