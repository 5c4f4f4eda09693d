-- ===== src/Stats/Merged.antt =====
-- What merging results keeps: the order of the percentiles, and the counts of the threads.
use native.Mathlib.Nat.{le-div_iff_mul-le, div-mul-le_self}
use mathlib.Core.List.{append_assoc, append-nil}
use netbench.Base.{
  ℕ, suc, ◌+◌, ◌/◌, ◌%◌, ◌^◌, ◌≤◌, ◌<◌, ◌≡◌, refl, sym, ◌∙◌, List, [], ◌∷◌, ◌++◌, arith, length,
}
use netbench.Stats.{
  Doubles, LatencyResult, SendResults, no_latency, add_all, avg_merge, no_results, merge_in,
  merge_onto, merge_all,
}
use netbench.Stats.Bounds.{InOrder}

div-le_div : (a b k : ℕ) → a ≤ b → a / suc k ≤ b / suc k
div-le_div a b k le =
    (le-div_iff_mul-le {x = a / suc k} (omega arith)).1
      (omega (arith, le, div-mul-le_self a (suc k)))

-- The counters that `mergeIn` adds.
pub data Counter : Type 0 where
  connects : Counter
  connect_errors : Counter
  send_errors : Counter
  recv_errors : Counter

module _ {D : Type 0} ⦃doubles : Doubles D⦄ where
  abbrev pub AllInOrder : List (LatencyResult D) → Type 0
  AllInOrder [] = Unit
  AllInOrder (b ∷ bs) = InOrder b × AllInOrder bs

  abbrev plus : LatencyResult D → LatencyResult D → LatencyResult D
  plus a b = record {
    p100 = a.p100 + b.p100;
    p95 = a.p95 + b.p95;
    p50 = a.p50 + b.p50;
    avg = a.avg + b.avg;
    count = doubles.add a.count b.count;
  }

  add_all-InOrder :
      (ret : LatencyResult D) (bs : List (LatencyResult D))
      → InOrder ret
      → AllInOrder bs
      → InOrder (add_all ret bs)
  unfolding add_all
  add_all-InOrder ret [] o all = o
  add_all-InOrder ret (b ∷ bs) o all =
      add_all-InOrder (plus ret b) bs
        (omega (arith, o.0, all.0.0), omega (arith, o.1, all.0.1), omega (arith, o.2, all.0.2))
        all.1

  -- `avgMerge` of results whose percentiles are in order, with averages up to the largest, is such a result.
  pub avg_merge-InOrder : (bs : List (LatencyResult D)) → AllInOrder bs → InOrder (avg_merge bs)
  unfolding avg_merge
  avg_merge-InOrder [] all = (omega arith, omega arith, omega arith)
  avg_merge-InOrder (b ∷ bs) all =
      let total = add_all no_latency (b ∷ bs) in
      let o : InOrder total =
        add_all-InOrder no_latency (b ∷ bs) (omega arith, omega arith, omega arith) all in
      (
        div-le_div total.p50 total.p95 (length bs) o.0,
        div-le_div total.p95 total.p100 (length bs) o.1,
        div-le_div total.avg total.p100 (length bs) o.2,
      )

  -- A count over all threads.
  abbrev pub total_of : (SendResults D → ℕ) → List (SendResults D) → ℕ
  total_of count [] = 0
  total_of count (r ∷ results) = count r + total_of count results

  abbrev pub bursts_of : List (SendResults D) → List (LatencyResult D)
  bursts_of [] = []
  bursts_of (r ∷ results) = r.burst_results ++ bursts_of results

  abbrev pub read : Counter → SendResults D → ℕ
  read connects r = r.connects
  read connect_errors r = r.connect_errors
  read send_errors r = r.send_errors
  read recv_errors r = r.recv_errors

  read-merge_in :
      (c : Counter) (a b : SendResults D) → read c (merge_in a b) ≡ (read c a + read c b) % 2 ^ 64
  unfolding merge_in
  read-merge_in connects a b = refl
  read-merge_in connect_errors a b = refl
  read-merge_in send_errors a b = refl
  read-merge_in recv_errors a b = refl

  read-merge_onto :
      (c : Counter) (ret : SendResults D) (results : List (SendResults D))
      → read c ret < 2 ^ 64
      → read c (merge_onto ret results) ≡ (read c ret + total_of (read c) results) % 2 ^ 64
  unfolding merge_onto
  read-merge_onto c ret [] lt = omega (arith, lt)
  read-merge_onto c ret (r ∷ results) lt =
      let first = read-merge_in c ret r in
      omega (arith, read-merge_onto c (merge_in ret r) results (omega (arith, first)), first)

  bursts-merge_onto :
      (ret : SendResults D) (results : List (SendResults D))
      → (merge_onto ret results).burst_results ≡ ret.burst_results ++ bursts_of results
  unfolding merge_onto merge_in
  bursts-merge_onto ret [] = sym (append-nil ret.burst_results)
  bursts-merge_onto ret (r ∷ results) =
      bursts-merge_onto (merge_in ret r) results
      ∙ append_assoc ret.burst_results r.burst_results (bursts_of results)

  -- Each counter of what `runSender` returns is the sum of that counter over all threads, up to the wrap
  -- at 2^64, and its burst results are those of all threads, in their order.
  pub merge_all-total :
      (c : Counter) (results : List (SendResults D))
      → (read c (merge_all results) ≡ total_of (read c) results % 2 ^ 64)
        × ((merge_all results).burst_results ≡ bursts_of results)
  unfolding merge_all
  merge_all-total c results = (
    omega (arith, read-merge_onto c no_results results (none_yet c), none_at c),
    bursts-merge_onto no_results results,
  )
    where
      none_at : (c : Counter) → read c (no_results {D = D}) ≡ 0
      none_at connects = refl
      none_at connect_errors = refl
      none_at send_errors = refl
      none_at recv_errors = refl

      none_yet : (c : Counter) → read c (no_results {D = D}) < 2 ^ 64
      none_yet c = omega (arith, none_at c)
