-- ===== src/Scenarios/Lots.antt =====
-- `ConnectSendLots` of sender.cpp and the actions of each connection, over any run.
use netbench.Base.{
  ℕ, zero, suc, ◌+◌, ◌≤◌, ◌≡◌, refl, List, [], ◌∷◌, ◌==◌, if◌then◌else◌, arith, ap, leb, ltb, ◌&&◌,
}
use netbench.Base.Results.{Result, ok, err, ok-inj}
use netbench.Scenarios.{
  ActionOp, unknown, connect, disconnect, recv, send, ready, wait_until, Action, action, connects,
  ConnectSendLots, note_send, lots_done,
}
use netbench.Scenarios.Steps.{
  World, weight, weight-append, Step, take, complete, Reaches, here, next, pending,
  pending_complete,
}

abbrev pub is_conn : ℕ → Action → ℕ
is_conn c a = if a.id == c then 1 else 0

-- The actions that `ConnectSendLots` never queues.
abbrev pub is_odd : Action → ℕ
is_odd a = elim a.op [
  | unknown ↦ 1
  | connect ↦ 0
  | disconnect ↦ 1
  | recv ↦ 0
  | send ↦ 0
  | ready ↦ if a.id == 0 then 0 else 1
  | wait_until ↦ 1
]

abbrev pub done : ConnectSendLots → Action → ℕ → Result (ConnectSendLots × List Action)
done s a now = lots_done s a.id a.op now

abbrev pub start : ConnectSendLots → ℕ → World ConnectSendLots
start s conns = record { state = s; queue = connects 1 conns; in_flight = [] }

timed :
    (c : ℕ) (s s' : ConnectSendLots) (a b : Action) (r : Result ConnectSendLots)
    (more : List Action)
    → b.id ≡ a.id
    → is_odd b ≡ 0
    → (elim r as (λ x. Result (ConnectSendLots × List Action)) [
      | err e ↦ err e
      | ok s1 ↦ ok (s1, b ∷ [])
    ])
      ≡ ok (s', more)
    → (weight (is_conn c) more ≡ is_conn c a) × (weight is_odd more ≡ 0)
timed c s s' a b (err e) more same odd h = let absurdity = h in cc
timed c s s' a b (ok s1) more same odd h =
    let queued = ap (λ p. weight (is_conn c) p.1) (ok-inj h) in
    let odds = ap (λ p. weight is_odd p.1) (ok-inj h) in
    (ground (arith, queued, same), ground (arith, odds, odd))

done-weight :
    (c : ℕ) (s s' : ConnectSendLots) (a : Action) (now : ℕ) (more : List Action)
    → is_odd a ≡ 0
    → done s a now ≡ ok (s', more)
    → 1 ≤ c
    → (weight (is_conn c) more ≡ is_conn c a) × (weight is_odd more ≡ 0)
unfolding lots_done
done-weight c s s' a now more odd h pos = go a.op odd h
  where
    go :
        (o : ActionOp)
        → is_odd (action o a.id a.param) ≡ 0
        → done s (action o a.id a.param) now ≡ ok (s', more)
        → (weight (is_conn c) more ≡ is_conn c (action o a.id a.param)) × (weight is_odd more ≡ 0)
    go unknown odd h = omega (arith, odd)
    go disconnect odd h = omega (arith, odd)
    go wait_until odd h = omega (arith, odd)
    go connect odd h =
        timed c s s' (action connect a.id a.param) (action send a.id s.send_size)
          (note_send s a.id now) more refl refl h
    go recv odd h =
        timed c s s' (action recv a.id a.param) (action send a.id s.send_size)
          (note_send s a.id now) more refl refl h
    go send odd h =
        let queued = ap (λ p. weight (is_conn c) p.1) (ok-inj h) in
        let odds = ap (λ p. weight is_odd p.1) (ok-inj h) in
        (ground (arith, queued), ground (arith, odds))
    go ready odd h =
        let queued = ap (λ p. weight (is_conn c) p.1) (ok-inj h) in
        let odds = ap (λ p. weight is_odd p.1) (ok-inj h) in
        (ground (arith, queued, odd, pos), ground (arith, odds))

-- Every connection has one action that is queued or under way, and no other kind of action is there.
pub record IsOnePerConn (conns : ℕ) (w : World ConnectSendLots) : Type 0 where
  pub one : (c : ℕ) → 1 ≤ c → c ≤ conns → pending (is_conn c) w ≡ 1
  pub odd : pending is_odd w ≡ 0

connects-weight :
    (c i n : ℕ)
    → 1 ≤ c
    → weight (is_conn c) (connects i n) ≡ (if leb i c && ltb c (i + n) then 1 else 0)
unfolding connects
connects-weight c i zero pos = ground (arith, pos)
connects-weight c i (suc n) pos = ground (arith, connects-weight c (i + 1) n pos)

connects-odd : (i n : ℕ) → weight is_odd (connects i n) ≡ 0
unfolding connects
connects-odd i zero = refl
connects-odd i (suc n) = omega (arith, connects-odd (i + 1) n)

start-IsOnePerConn : (s : ConnectSendLots) (conns : ℕ) → IsOnePerConn conns (start s conns)
start-IsOnePerConn s conns = record {
  one = λ c pos small. ground (arith, connects-weight c 1 conns pos, pos, small);
  odd = omega (arith, connects-odd 1 conns);
}

Step-IsOnePerConn :
    (conns : ℕ) {v w : World ConnectSendLots}
    → Step done v w
    → IsOnePerConn conns v
    → IsOnePerConn conns w
Step-IsOnePerConn conns (take s a queue in_flight) v = record {
  one = λ c pos small. omega (arith, v.one c pos small);
  odd = omega (arith, v.odd);
}
Step-IsOnePerConn conns (complete s s' a queue before after more now e) v =
    let was_odd = pending_complete is_odd a queue before after more in
    let even : is_odd a ≡ 0 = omega (arith, v.odd, weight-append is_odd before (a ∷ after)) in
    record {
      one = λ c pos small. omega (
        arith,
        v.one c pos small,
        pending_complete (is_conn c) a queue before after more,
        done-weight c s s' a now more even e pos,
      );
      odd = omega (arith, v.odd, was_odd, done-weight 1 s s' a now more even e (omega arith));
    }

-- In every state that a sender can reach with `ConnectSendLots`, in whatever order actions complete and
-- where none fails, each connection has exactly one action that is queued or under way.
pub Reaches-IsOnePerConn :
    (s : ConnectSendLots) (conns : ℕ) (w : World ConnectSendLots)
    → Reaches done (start s conns) w
    → IsOnePerConn conns w
Reaches-IsOnePerConn s conns w run = go run
  where
    go : {w : World ConnectSendLots} → Reaches done (start s conns) w → IsOnePerConn conns w
    go here = start-IsOnePerConn s conns
    go (next run step) = Step-IsOnePerConn conns step (go run)
