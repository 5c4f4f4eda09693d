-- ===== src/Stats.antt =====
-- The results of a test: `LatencyResult` of sender.cpp and `SendResults` of sender.h. `double` is an interface,
-- with the operations that the code uses; a latency is a number of microseconds.
pub mod Accuracy
pub mod Bounds
pub mod Merged
pub mod Rx
pub mod Aggregate
mod Tests
use netbench.Base.{
  ℕ, zero, suc, ◌+◌, ◌-◌, ◌*◌, ◌/◌, ◌%◌, ◌^◌, List, [], ◌∷◌, ◌++◌, leb, if◌then◌else◌, Bool, true,
  false, length, get_or,
}

-- `double`: a conversion from and to whole numbers, the arithmetic, the tests, and the
-- literals of two decimals (0.95 is `hundredths 95`).
pub record Doubles (D : Type 0) : Type 0 where
  pub of_nat : ℕ → D
  pub add : D → D → D
  pub mul : D → D → D
  pub div : D → D → D
  pub trunc : D → ℕ
  pub is_positive : D → Bool
  pub below : D → D → Bool
  pub hundredths : ℕ → D

-- `std::sort` of numbers
unfoldable pub insert : ℕ → List ℕ → List ℕ
insert x [] = x ∷ []
insert x (y ∷ ys) = if leb x y then x ∷ y ∷ ys else y ∷ insert x ys

unfoldable pub sort : List ℕ → List ℕ
unfolding insert
sort [] = []
sort (x ∷ xs) = insert x (sort xs)

abbrev pub sum : List ℕ → ℕ
sum [] = 0
sum (x ∷ xs) = x + sum xs

pub record LatencyResult (D : Type 0) : Type 0 where
  pub p100 : ℕ
  pub p95 : ℕ
  pub p50 : ℕ
  pub avg : ℕ
  pub count : D

pub record SendResults (D : Type 0) : Type 0 where
  pub packets_per_second : D
  pub bytes_per_second : D
  pub connects : ℕ
  pub connect_errors : ℕ
  pub send_errors : ℕ
  pub recv_errors : ℕ
  pub latencies : LatencyResult D
  pub burst_results : List (LatencyResult D)

-- `(int)(durations.size() * 0.95)`
unfoldable pub index_95 : {D : Type 0} → Doubles D → ℕ → ℕ
index_95 doubles n = doubles.trunc (doubles.mul (doubles.of_nat n) (doubles.hundredths 95))

module _ {D : Type 0} ⦃doubles : Doubles D⦄ where
  open doubles use {of_nat, add, mul, div, trunc, is_positive}

  abbrev pub no_latency : LatencyResult D
  no_latency = record { p100 = 0; p95 = 0; p50 = 0; avg = 0; count = of_nat 0 }

  -- `LatencyResult::from`
  unfoldable pub from : List ℕ → LatencyResult D
  unfolding sort index_95
  from [] = no_latency
  from (d ∷ ds) =
      let sorted = sort (d ∷ ds) in
      let n = length (d ∷ ds) in
      record {
        p100 = get_or sorted (n - 1) 0;
        p95 = get_or sorted (index_95 doubles n) 0;
        p50 = get_or sorted (n / 2) 0;
        avg = sum sorted / n;
        count = of_nat n;
      }

  -- `upd` in `mergeIn`
  unfoldable pub weighed : D → D → D → ℕ → ℕ → ℕ
  weighed count other new_count self us =
      trunc (div (add (mul (of_nat self) count) (mul (of_nat us) other)) new_count)

  -- `LatencyResult::mergeIn`
  unfoldable pub merge_latency : LatencyResult D → LatencyResult D → LatencyResult D
  unfolding weighed
  merge_latency a b =
      let new_count = add a.count b.count in
      if is_positive new_count
      then record {
        p100 = weighed a.count b.count new_count a.p100 b.p100;
        p95 = weighed a.count b.count new_count a.p95 b.p95;
        p50 = weighed a.count b.count new_count a.p50 b.p50;
        avg = weighed a.count b.count new_count a.avg b.avg;
        count = new_count;
      }
      else a

  -- The sums of `avgMerge`
  unfoldable pub add_all : LatencyResult D → List (LatencyResult D) → LatencyResult D
  add_all ret [] = ret
  add_all ret (b ∷ bs) =
      add_all
        (record {
          p100 = ret.p100 + b.p100;
          p95 = ret.p95 + b.p95;
          p50 = ret.p50 + b.p50;
          avg = ret.avg + b.avg;
          count = add ret.count b.count;
        })
        bs

  -- `LatencyResult::avgMerge`
  unfoldable pub avg_merge : List (LatencyResult D) → LatencyResult D
  unfolding add_all
  avg_merge [] = no_latency
  avg_merge (b ∷ bs) =
      let total = add_all no_latency (b ∷ bs) in
      let n = length (b ∷ bs) in
      record {
        p100 = total.p100 / n;
        p95 = total.p95 / n;
        p50 = total.p50 / n;
        avg = total.avg / n;
        count = div total.count (of_nat n);
      }

  abbrev pub no_results : SendResults D
  no_results = record {
    packets_per_second = of_nat 0;
    bytes_per_second = of_nat 0;
    connects = 0;
    connect_errors = 0;
    send_errors = 0;
    recv_errors = 0;
    latencies = no_latency;
    burst_results = [];
  }

  -- `SendResults::mergeIn`
  unfoldable pub merge_in : SendResults D → SendResults D → SendResults D
  unfolding merge_latency
  merge_in a b = record {
    packets_per_second = add a.packets_per_second b.packets_per_second;
    bytes_per_second = add a.bytes_per_second b.bytes_per_second;
    connects = (a.connects + b.connects) % 2 ^ 64;
    connect_errors = (a.connect_errors + b.connect_errors) % 2 ^ 64;
    send_errors = (a.send_errors + b.send_errors) % 2 ^ 64;
    recv_errors = (a.recv_errors + b.recv_errors) % 2 ^ 64;
    latencies = merge_latency a.latencies b.latencies;
    burst_results = a.burst_results ++ b.burst_results;
  }

  -- The end of `runSender`: the results of the threads.
  unfoldable pub merge_onto : SendResults D → List (SendResults D) → SendResults D
  unfolding merge_in
  merge_onto ret [] = ret
  merge_onto ret (r ∷ results) = merge_onto (merge_in ret r) results

  unfoldable pub merge_all : List (SendResults D) → SendResults D
  unfolding merge_onto
  merge_all results = merge_onto no_results results
