-- ===== src/Scenarios/Bursts.antt =====
-- `BurstySend` of sender.cpp and its `outstanding_`, over any run.
use netbench.Base.{
  ℕ, zero, suc, ◌+◌, ◌^◌, ◌<◌, ◌≤◌, ◌≡◌, refl, subst, List, [], ◌∷◌, ◌++◌, arith, ap, inr, length,
  length-append,
}
use netbench.Base.Results.{ok-inj}
use netbench.Scenarios.{
  ActionOp, unknown, connect, disconnect, recv, send, ready, wait_until, Action, action, connects,
  BurstySend, bursty_done,
}
use netbench.Scenarios.Steps.{
  World, weight, weight-append, Step, take, complete, Reaches, here, next, pending,
}
use netbench.Scenarios.Bookings.{
  is_request, is_connect, is_ready, done, start, IsBooked, IsBooked-eq, begin-IsBooked,
  recv-IsBooked,
}

done-IsBooked :
    (conns : ℕ) (s : BurstySend) (a : Action) (now q k r : ℕ)
    → conns < 2 ^ 64
    → IsBooked conns s (q + is_request a) (k + is_connect a) (r + is_ready a)
    → IsBooked conns
        (bursty_done s a.id a.op now).0
        (q + weight is_request (bursty_done s a.id a.op now).1)
        (k + weight is_connect (bursty_done s a.id a.op now).1)
        (r + weight is_ready (bursty_done s a.id a.op now).1)
unfolding bursty_done
done-IsBooked conns s a now q k r small v = go a.op v
  where
    go :
        (o : ActionOp)
        → IsBooked conns s
            (q + is_request (action o a.id a.param))
            (k + is_connect (action o a.id a.param))
            (r + is_ready (action o a.id a.param))
        → IsBooked conns
            (bursty_done s a.id o now).0
            (q + weight is_request (bursty_done s a.id o now).1)
            (k + weight is_connect (bursty_done s a.id o now).1)
            (r + weight is_ready (bursty_done s a.id o now).1)
    go unknown v = v
    go disconnect v = v
    go wait_until v = v
    go send v = record {
      outstanding = omega (arith, v.outstanding);
      connected = omega (arith, v.connected);
      bounded = omega (arith, v.bounded);
      once = ground (arith, v.once);
    }
    go connect v =
        let longer = length-append s.connections (a.id ∷ []) in
        record {
          outstanding = omega (arith, v.outstanding);
          connected = omega (arith, v.connected, longer);
          bounded = omega (arith, v.bounded, longer);
          once = ground (arith, v.once);
        }
    go recv v = recv-IsBooked conns s a.id now q k r small (record {
      outstanding = v.outstanding;
      connected = omega (arith, v.connected);
      bounded = v.bounded;
      once = ground (arith, v.once);
    })
    go ready v =
        let idle : q ≡ 0 = ground (arith, v.once) in
        let not_ready : r ≡ 0 = ground (arith, v.once) in
        begin-IsBooked conns s now q k r small (omega (arith, v.outstanding, idle)) idle not_ready
          (omega (arith, v.connected))

-- `outstanding_` counts the requests that are queued or under way, and there are at most as many as
-- connections; every connection is in the list or still to come; and while `Ready` is still to come, no
-- request is there.
abbrev pub IsKept : ℕ → World BurstySend → Type 0
IsKept conns w =
    IsBooked conns w.state (pending is_request w) (pending is_connect w) (pending is_ready w)

connects-weights :
    (i n : ℕ)
    → (weight is_request (connects i n) ≡ 0)
      × (weight is_connect (connects i n) ≡ n)
      × (weight is_ready (connects i n) ≡ 1)
unfolding connects
connects-weights i zero = (refl, refl, refl)
connects-weights i (suc n) =
    let rest = connects-weights (i + 1) n in
    (omega (arith, rest), omega (arith, rest), omega (arith, rest))

start-IsKept :
    (s : BurstySend) (conns : ℕ)
    → s.outstanding ≡ 0
    → s.connections ≡ []
    → IsKept conns (start s conns)
start-IsKept s conns idle fresh =
    let counts = connects-weights 1 conns in
    record {
      outstanding = omega (arith, idle, counts);
      connected = omega (arith, ap length fresh, counts);
      bounded = omega (arith, counts);
      once = inr (omega (arith, counts), omega (arith, counts));
    }

Step-IsKept :
    (conns : ℕ) {v w : World BurstySend}
    → conns < 2 ^ 64
    → Step done v w
    → IsKept conns v
    → IsKept conns w
Step-IsKept conns small (take s a queue in_flight) v = record {
  outstanding = omega (arith, v.outstanding);
  connected = omega (arith, v.connected);
  bounded = omega (arith, v.bounded);
  once = ground (arith, v.once);
}
Step-IsKept conns small (complete s s' a queue before after more now e) v =
    subst
      (λ p.
        IsKept conns (record { state = p.0; queue = queue ++ p.1; in_flight = before ++ after }))
      (ok-inj e) kept
  where
    out : List Action
    out = (bursty_done s a.id a.op now).1

    rest : (Action → ℕ) → ℕ
    rest f = weight f queue + weight f (before ++ after)

    was : (f : Action → ℕ) → weight f queue + weight f (before ++ a ∷ after) ≡ rest f + f a
    was f = omega (arith, weight-append f before (a ∷ after), weight-append f before after)

    will :
        (f : Action → ℕ)
        → rest f + weight f out ≡ weight f (queue ++ out) + weight f (before ++ after)
    will f = omega (arith, weight-append f queue out)

    kept : IsKept conns (record {
      state = (bursty_done s a.id a.op now).0;
      queue = queue ++ out;
      in_flight = before ++ after;
    })
    kept =
        IsBooked-eq conns (bursty_done s a.id a.op now).0 _ _ _ _ _ _ (will is_request)
          (will is_connect) (will is_ready)
          (done-IsBooked conns s a now (rest is_request) (rest is_connect) (rest is_ready) small
            (IsBooked-eq conns s _ _ _ _ _ _ (was is_request) (was is_connect) (was is_ready) v))

-- In every state that a sender can reach with a new `BurstySend` of fewer than 2^64 connections, in
-- whatever order actions complete and where none fails: `outstanding_` is the number of requests that are queued or under
-- way, so it never wraps, and is at most the number of connections.
pub Reaches-IsKept :
    (s : BurstySend) (conns : ℕ) (w : World BurstySend)
    → s.outstanding ≡ 0
    → s.connections ≡ []
    → conns < 2 ^ 64
    → Reaches done (start s conns) w
    → (w.state.outstanding ≡ pending is_request w) × (w.state.outstanding ≤ conns) × IsKept conns w
Reaches-IsKept s conns w idle fresh small run =
    let v = go run in (v.outstanding, omega (arith, v.outstanding, v.bounded, v.connected), v)
  where
    go : {w : World BurstySend} → Reaches done (start s conns) w → IsKept conns w
    go here = start-IsKept s conns idle fresh
    go (next before step) = Step-IsKept conns small step (go before)
