-- ===== src/Scenarios/Bookings.antt =====
-- The books of `BurstySend`: the requests under way, and the connections.
use netbench.Base.{
  ℕ, ◌+◌, ◌-◌, ◌%◌, ◌^◌, ◌<◌, ◌≤◌, ◌≡◌, List, [], ◌∷◌, ◌==◌, arith, ◌∙◌, sym, inl, inr, ◌⊎◌, length,
  Bool-cases,
}
use netbench.Base.Results.{Result, ok}
use netbench.Scenarios.{
  unknown, connect, disconnect, recv, send, ready, wait_until, Action, connects, BurstySend,
  send_all, new_burst, burst_recv, add, bursty_done,
}
use netbench.Scenarios.Steps.{World, weight}

-- Requests: sent ones and ones whose response is awaited.
abbrev pub is_request : Action → ℕ
is_request a = elim a.op [
  | unknown ↦ 0
  | connect ↦ 0
  | disconnect ↦ 0
  | recv ↦ 1
  | send ↦ 1
  | ready ↦ 0
  | wait_until ↦ 0
]

abbrev pub is_connect : Action → ℕ
is_connect a = elim a.op [
  | unknown ↦ 0
  | connect ↦ 1
  | disconnect ↦ 0
  | recv ↦ 0
  | send ↦ 0
  | ready ↦ 0
  | wait_until ↦ 0
]

abbrev pub is_ready : Action → ℕ
is_ready a = elim a.op [
  | unknown ↦ 0
  | connect ↦ 0
  | disconnect ↦ 0
  | recv ↦ 0
  | send ↦ 0
  | ready ↦ 1
  | wait_until ↦ 0
]

abbrev pub done : BurstySend → Action → ℕ → Result (BurstySend × List Action)
done s a now = ok (bursty_done s a.id a.op now)

abbrev pub start : BurstySend → ℕ → World BurstySend
start s conns = record { state = s; queue = connects 1 conns; in_flight = [] }

send_all-weight :
    (size : ℕ) (conns : List ℕ) (n : ℕ)
    → n + length conns < 2 ^ 64
    → ((send_all size conns n).0 ≡ n + length conns)
      × (weight is_request (send_all size conns n).1 ≡ length conns)
      × (weight is_connect (send_all size conns n).1 ≡ 0)
      × (weight is_ready (send_all size conns n).1 ≡ 0)
unfolding send_all
send_all-weight size [] n h = ground arith
send_all-weight size (idx ∷ more) n h =
    let rest = send_all-weight size more ((n + 1) % 2 ^ 64) (omega arith) in
    (omega (arith, rest), omega (arith, rest), omega (arith, rest), omega (arith, rest))

-- What the books say before an action completes, and after.
pub record IsBooked (conns : ℕ) (s : BurstySend) (requests connecting readying : ℕ) : Type 0 where
  pub outstanding : s.outstanding ≡ requests
  pub connected : length s.connections + connecting ≡ conns
  pub bounded : requests ≤ length s.connections
  pub once : (readying ≡ 0) ⊎ ((readying ≡ 1) × (requests ≡ 0))

pub IsBooked-eq :
    (conns : ℕ) (s : BurstySend) (q k r q' k' r' : ℕ)
    → q ≡ q'
    → k ≡ k'
    → r ≡ r'
    → IsBooked conns s q k r
    → IsBooked conns s q' k' r'
IsBooked-eq conns s q k r q' k' r' e f g v = record {
  outstanding = omega (arith, v.outstanding, e);
  connected = omega (arith, v.connected, f);
  bounded = omega (arith, v.bounded, e);
  once = ground (arith, v.once, e, g);
}

new_burst-IsBooked :
    (conns : ℕ) (s : BurstySend) (now connecting : ℕ)
    → conns < 2 ^ 64
    → s.outstanding ≡ 0
    → length s.connections + connecting ≡ conns
    → IsBooked conns
        (new_burst s now).0
        (weight is_request (new_burst s now).1)
        (connecting + weight is_connect (new_burst s now).1)
        (weight is_ready (new_burst s now).1)
unfolding new_burst
new_burst-IsBooked conns s now connecting small idle all =
    let sent = send_all-weight s.send_size s.connections s.outstanding (omega arith) in
    record {
      outstanding = omega (arith, sent);
      connected = omega (arith, sent);
      bounded = omega (arith, sent);
      once = inl (sent.3);
    }

-- A burst that begins when no request is left.
pub begin-IsBooked :
    (conns : ℕ) (s : BurstySend) (now q k r : ℕ)
    → conns < 2 ^ 64
    → s.outstanding ≡ 0
    → q ≡ 0
    → r ≡ 0
    → length s.connections + k ≡ conns
    → IsBooked conns
        (new_burst s now).0
        (q + weight is_request (new_burst s now).1)
        (k + weight is_connect (new_burst s now).1)
        (r + weight is_ready (new_burst s now).1)
begin-IsBooked conns s now q k r small idle none_left not_ready all =
    let begun = new_burst-IsBooked conns s now k small idle all in
    record {
      outstanding = omega (arith, begun.outstanding, none_left);
      connected = begun.connected;
      bounded = omega (arith, begun.bounded, none_left);
      once = ground (arith, begun.once, none_left, not_ready);
    }

pub recv-IsBooked :
    (conns : ℕ) (s : BurstySend) (idx now q k r : ℕ)
    → conns < 2 ^ 64
    → IsBooked conns s (q + 1) k r
    → IsBooked conns
        (burst_recv s idx now).0
        (q + weight is_request (burst_recv s idx now).1)
        (k + weight is_connect (burst_recv s idx now).1)
        (r + weight is_ready (burst_recv s idx now).1)
unfolding burst_recv
recv-IsBooked conns s idx now q k r small v =
    let less : (s.outstanding + (2 ^ 64 - 1)) % 2 ^ 64 ≡ q =
      omega (arith, v.outstanding, v.bounded, v.connected) in
    let not_ready : r ≡ 0 = ground (arith, v.once) in
    let s' : BurstySend = record s {
      stats = add s.stats idx now;
      outstanding = (s.outstanding + (2 ^ 64 - 1)) % 2 ^ 64;
    } in
    elim (Bool-cases ((s.outstanding + (2 ^ 64 - 1)) % 2 ^ 64 == 0)) [
      | inl last ↦
          let none_left : (s.outstanding + (2 ^ 64 - 1)) % 2 ^ 64 ≡ 0 = ground (arith, last) in
          rw (last, burst_recv)
            (begin-IsBooked conns s' now q k r small none_left (sym less ∙ none_left) not_ready
              v.connected)
      | inr some_left ↦
          rw (some_left, burst_recv)
            (record {
              outstanding = omega (arith, less);
              connected = omega (arith, v.connected);
              bounded = omega (arith, v.bounded);
              once = inl (omega (arith, not_ready));
            })
    ]
