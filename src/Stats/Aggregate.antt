-- ===== src/Stats/Aggregate.antt =====
-- `SimpleAggregate` and `aggregateResults` of netbench.cpp. Of no values there is no aggregate: the code
-- would read the last one.
use netbench.Base.{
  suc, ◌-◌, ◌/◌, ◌≡◌, refl, ap, List, [], ◌∷◌, map, arith, if◌then◌else◌, true, length, get_or, ltb,
}
use netbench.Base.Results.{Result, ok, err, fault, ◌>>=◌}
use netbench.Launch.Groups.{Name, to_aggregate}
use netbench.Stats.{Doubles, SendResults}

pub record SimpleAggregate (T : Type 0) : Type 0 where
  pub avg : T
  pub p50 : T
  pub p100 : T

pub record AggregateResults (D : Type 0) : Type 0 where
  pub packets_per_second : SimpleAggregate D
  pub bytes_per_second : SimpleAggregate D

module _ {D : Type 0} ⦃doubles : Doubles D⦄ where
  open doubles use {of_nat, add, div, below}

  -- `std::sort` of doubles
  unfoldable pub insert_double : D → List D → List D
  insert_double x [] = x ∷ []
  insert_double x (y ∷ ys) = if below y x then y ∷ insert_double x ys else x ∷ y ∷ ys

  unfoldable pub sort_doubles : List D → List D
  unfolding insert_double
  sort_doubles [] = []
  sort_doubles (x ∷ xs) = insert_double x (sort_doubles xs)

  -- `std::accumulate`
  abbrev pub accumulate : D → List D → D
  accumulate total [] = total
  accumulate total (x ∷ xs) = accumulate (add total x) xs

  -- `SimpleAggregate::SimpleAggregate`
  unfoldable pub aggregate : List D → Result (SimpleAggregate D)
  unfolding sort_doubles
  aggregate [] = err fault
  aggregate (x ∷ xs) =
      let sorted = sort_doubles (x ∷ xs) in
      let n = length (x ∷ xs) in
      ok (record {
        avg = div (accumulate (of_nat 0) sorted) (of_nat n);
        p50 = get_or sorted (n / 2) x;
        p100 = get_or sorted (n - 1) x;
      })

  -- `aggregateResults`
  unfoldable pub aggregate_results : List (SendResults D) → Result (AggregateResults D)
  unfolding aggregate
  aggregate_results results = aggregate (map (λ r. r.packets_per_second) results) >>= λ pps.
      aggregate (map (λ r. r.bytes_per_second) results) >>= λ bps.
      ok (record { packets_per_second = pps; bytes_per_second = bps })

  -- The last loop of `main`
  unfoldable pub aggregate_all :
      {K : Type 0} → List (K × List (SendResults D)) → Result (List (K × AggregateResults D))
  unfolding aggregate_results
  aggregate_all [] = ok []
  aggregate_all ((k, rs) ∷ groups) =
      aggregate_results rs >>= λ first. aggregate_all groups >>= λ rest. ok ((k, first) ∷ rest)

  aggregate_results_of :
      (r : SendResults D) (rs : List (SendResults D))
      → (a : AggregateResults D) × (aggregate_results (r ∷ rs) ≡ ok a)
  unfolding aggregate_results
  aggregate_results_of r rs = (_, refl)

  one :
      {K : Type 0} (k : K) (rs : List (SendResults D)) (groups : List (K × List (SendResults D)))
      (first : AggregateResults D) (all : List (K × AggregateResults D))
      → aggregate_results rs ≡ ok first
      → aggregate_all groups ≡ ok all
      → aggregate_all ((k, rs) ∷ groups) ≡ ok ((k, first) ∷ all)
  unfolding aggregate_all
  one k rs groups first all made rest = rw (made, rest) refl

  -- The groups that `main` aggregates all have results: none of its aggregates is of no values. There is one for
  -- each group with more than one result, in order.
  pub aggregate_all_total :
      {K : Type 0} ⦃name : Name K⦄ (groups : List (K × List (SendResults D)))
      → (all : List (K × AggregateResults D)) × (aggregate_all (to_aggregate groups) ≡ ok all)
        × (map (λ g. g.0) all ≡ map (λ g. g.0) (to_aggregate groups))
  unfolding aggregate_all to_aggregate
  aggregate_all_total [] = ([], refl, refl)
  aggregate_all_total ((k, []) ∷ groups) = aggregate_all_total groups
  aggregate_all_total ((k, r ∷ []) ∷ groups) = aggregate_all_total groups
  aggregate_all_total ((k, r ∷ s ∷ rs) ∷ groups) =
      let (first, made) = aggregate_results_of r (s ∷ rs) in
      let (all, rest, same) = aggregate_all_total groups in
      let several : ltb 1 (suc (suc (length rs))) ≡ true = ground arith in
      rw several (
        (k, first) ∷ all,
        one k (r ∷ s ∷ rs) (to_aggregate groups) first all made rest,
        ap (◌∷◌ k) same,
      )
