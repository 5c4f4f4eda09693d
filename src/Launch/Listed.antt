-- ===== src/Launch/Listed.antt =====
-- The names that `allScenarios` lists, and what `makeScenario` makes of them.
use netbench.Base.{ℕ, ◌+◌, ◌^◌, ◌<◌, ◌≡◌, refl, ap, List, [], ◌∷◌}
use Prim.Native.String.{String}
use netbench.Base.Results.{Result, ok, ◌>>=◌}
use netbench.Scenarios.{connects}
use netbench.Scenarios.Make.{
  PerSendOptions, Scenario, disconnects, periodic, new_disconnects, new_periodic, make_scenario,
  take_ids-connects,
}
use netbench.Launch.{all_scenarios}

module _ (period : List String → Result ℕ) (o : PerSendOptions) (now : ℕ) where
  -- A name is that of a scenario, which begins with the connects.
  abbrev pub Begins : String → Type 0
  Begins name =
      (s : Scenario) × (make_scenario period (name ∷ []) o now ≡ ok (s, connects 1 o.per_thread))

  abbrev pub AllBegin : List String → Type 0
  AllBegin [] = Unit
  AllBegin (name ∷ names) = Begins name × AllBegin names

  -- Where a period is chosen, each name that `allScenarios` lists is one that `makeScenario` takes, and the
  -- queue of each scenario begins with a connect for each connection, from 1, and then `Ready`.
  pub all_scenarios-AllBegin :
      (us : ℕ) → period [] ≡ ok us → 1 + o.per_thread < 2 ^ 64 → AllBegin all_scenarios
  unfolding make_scenario new_disconnects new_periodic
  all_scenarios-AllBegin us chosen small =
      let made = take_ids-connects 1 o.per_thread small in
      (
        (_, refl),
        (
          (
            disconnects (new_disconnects o 0).0,
            ap (λ p. ok (disconnects (new_disconnects o 0).0, p.1)) made,
          ),
          (
            (_, refl),
            (
              (
                periodic (new_periodic o us now),
                ap (λ r. r >>= λ us. ok (periodic (new_periodic o us now), connects 1 o.per_thread))
                    chosen,
              ),
              tt,
            ),
          ),
        ),
      )
