-- ===== src/Scenarios/Steps.antt =====
-- How a sender drives a scenario: it takes the action at the front of the queue (`getAction`), and
-- some action that it took completes (`doneLast`), in any order. Actions that fail are not steps.
use netbench.Base.{ℕ, ◌+◌, ◌≡◌, List, [], ◌∷◌, ◌++◌, arith}
use netbench.Base.Results.{Result, ok}
use netbench.Scenarios.{Action}

pub record World (S : Type 0) : Type 0 where
  pub state : S
  pub queue : List Action
  pub in_flight : List Action

-- How much a list of actions weighs.
abbrev pub weight : (Action → ℕ) → List Action → ℕ
weight f [] = 0
weight f (a ∷ actions) = f a + weight f actions

pub weight-append :
    (f : Action → ℕ) (actions more : List Action)
    → weight f (actions ++ more) ≡ weight f actions + weight f more
weight-append f [] more = omega arith
weight-append f (a ∷ actions) more = omega (arith, weight-append f actions more)

module _ {S : Type 0} (done : S → Action → ℕ → Result (S × List Action)) where
  pub data Step : World S → World S → Type 0 where
    take :
        (s : S) (a : Action) (queue in_flight : List Action)
        → Step
            (record { state = s; queue = a ∷ queue; in_flight = in_flight })
            (record { state = s; queue = queue; in_flight = a ∷ in_flight })
    complete :
        (s s' : S) (a : Action) (queue before after more : List Action) (now : ℕ)
        → done s a now ≡ ok (s', more)
        → Step
            (record { state = s; queue = queue; in_flight = before ++ a ∷ after })
            (record { state = s'; queue = queue ++ more; in_flight = before ++ after })

  pub data Reaches (w : World S) : World S → Type 0 where
    here : Reaches w w
    next : {u v : World S} → Reaches w u → Step u v → Reaches w v

-- What is queued or under way.
abbrev pub pending : {S : Type 0} → (Action → ℕ) → World S → ℕ
pending f w = weight f w.queue + weight f w.in_flight

-- A completed action gives way to what it makes the scenario queue.
pub pending_complete :
    (f : Action → ℕ) (a : Action) (queue before after more : List Action)
    → weight f (queue ++ more) + weight f (before ++ after) + f a
      ≡ weight f queue + weight f (before ++ a ∷ after) + weight f more
pending_complete f a queue before after more = omega (
  arith,
  weight-append f queue more,
  weight-append f before after,
  weight-append f before (a ∷ after),
)
