-- ===== src/Stats/Rx.antt =====
-- `RxStats` of netbench.cpp: the time that a receiver has been idle, and what it counts between two lines of
-- its log. Times are in nanoseconds, and those read from the clock are arguments; what is only printed is
-- left out.
use netbench.Base.{
  ℕ, ◌+◌, ◌-◌, ◌*◌, ◌/◌, ◌%◌, ◌^◌, ◌≤◌, List, [], ◌∷◌, ◌++◌, arith, ltb, leb, if◌then◌else◌, Bool,
  ◌&&◌, length, get_or,
}
use netbench.Stats.{Doubles, sort, sum}

pub record RxStats (D : Type 0) : Type 0 where
  pub count_reads : Bool
  pub reads : List ℕ
  pub last_stats : ℕ
  pub loops : ℕ
  pub overflows : ℕ
  pub wait_started : ℕ
  pub idle : ℕ
  pub last_bytes : ℕ
  pub last_requests : ℕ
  pub last_rps : D

-- `kEpsilon`, and a second
abbrev pub epsilon : ℕ
epsilon = 100000

abbrev pub second : ℕ
second = 1000000000

-- `startWait`
unfoldable pub start_wait : {D : Type 0} → RxStats D → ℕ → RxStats D
start_wait s now = record s { wait_started = now }

-- `doneWait`
unfoldable pub done_wait : {D : Type 0} → RxStats D → ℕ → RxStats D
done_wait s now =
    if ltb (s.wait_started + epsilon) now
    then record s { idle = s.idle + (now - s.wait_started) }
    else s

-- `getMs`
unfoldable pub get_ms : ℕ → ℕ → ℕ → ℕ
get_ms ticks_per_second from to =
    if leb to from then 0 else ((to - from) * 1000 % 2 ^ 64) / ticks_per_second

-- What `getReadStats` prints, for the index that 0.9 of a length gives: p10, p50, p90, and the total.
pub record ReadStats : Type 0 where
  pub p10 : ℕ
  pub p50 : ℕ
  pub p90 : ℕ
  pub tot : ℕ

unfoldable pub get_read_stats : (ℕ → ℕ) → List ℕ → ReadStats
unfolding sort
get_read_stats index_90 reads =
    let sorted = sort reads in
    let n = length reads in
    record {
      p10 = get_or sorted (n / 10) 0;
      p50 = get_or sorted (n / 2) 0;
      p90 = get_or sorted (index_90 n) 0;
      tot = sum sorted;
    }

-- A round of a receiver: the times of its wait and of its end, and what it tells the statistics.
pub record Round : Type 0 where
  pub started : ℕ
  pub woken : ℕ
  pub ended : ℕ
  pub bytes : ℕ
  pub requests : ℕ
  pub reads : ℕ
  pub is_overflow : Bool

-- The times of the rounds, each no earlier than the one before, from a time on; and the last one.
abbrev pub Follow : ℕ → List Round → Type 0
Follow now [] = Unit
Follow now (r ∷ more) =
    (now ≤ r.started) × (r.started ≤ r.woken) × (r.woken ≤ r.ended) × Follow r.ended more

abbrev pub end_of : ℕ → List Round → ℕ
end_of now [] = now
end_of now (r ∷ more) = end_of r.ended more

module _ {D : Type 0} ⦃doubles : Doubles D⦄ where
  open doubles use {of_nat, mul, div, is_positive}

  -- A rate of `doLog`, over a duration.
  unfoldable pub rate : ℕ → ℕ → ℕ → D
  rate new old duration =
      div (mul (of_nat ((new + 2 ^ 64 - old) % 2 ^ 64)) (of_nat 1000)) (of_nat (duration / 1000000))

  -- `doLog`
  unfoldable pub do_log : RxStats D → ℕ → ℕ → ℕ → RxStats D
  unfolding rate
  do_log s bytes requests now = record s {
    reads =
        if ltb s.last_requests requests && is_positive s.last_rps && s.count_reads
        then []
        else s.reads;
    loops = 0;
    overflows = 0;
    idle = 0;
    last_bytes = bytes;
    last_requests = requests;
    last_stats = now;
    last_rps = rate requests s.last_requests (now - s.last_stats);
  }

  -- `doneLoop`
  unfoldable pub done_loop : RxStats D → ℕ → ℕ → ℕ → Bool → ℕ → RxStats D
  unfolding do_log
  done_loop s bytes requests reads is_overflow now =
      let s1 = record s {
        loops = s.loops + 1;
        overflows = if is_overflow then s.overflows + 1 else s.overflows;
        reads = if s.count_reads then s.reads ++ reads ∷ [] else s.reads;
      } in
      if leb second (now - s.last_stats) then do_log s1 bytes requests now else s1

  -- `startWait`, `doneWait` and `doneLoop`, as the loops of the runners call them.
  unfoldable pub round : RxStats D → Round → RxStats D
  unfolding start_wait done_wait done_loop
  round s r =
      done_loop (done_wait (start_wait s r.started) r.woken) r.bytes r.requests r.reads
        r.is_overflow r.ended

  unfoldable pub rounds : RxStats D → List Round → RxStats D
  unfolding round
  rounds s [] = s
  rounds s (r ∷ more) = rounds (round s r) more

  -- The time counted as idle, by a time.
  abbrev pub IdleFits : RxStats D → ℕ → Type 0
  IdleFits s now = s.last_stats + s.idle ≤ now

  round-IdleFits :
      (s : RxStats D) (now : ℕ) (r : Round)
      → IdleFits s now
      → now ≤ r.started
      → r.started ≤ r.woken
      → r.woken ≤ r.ended
      → IdleFits (round s r) r.ended
  unfolding round start_wait done_wait done_loop do_log
  round-IdleFits s now r fits a b c = ground (arith, fits, a, b, c)

  -- If the clock never runs back, then over any rounds the idle time that a receiver counts is at most the
  -- time since its last line of statistics.
  pub rounds-IdleFits :
      (s : RxStats D) (now : ℕ) (more : List Round)
      → IdleFits s now
      → Follow now more
      → IdleFits (rounds s more) (end_of now more)
  unfolding rounds
  rounds-IdleFits s now [] fits follow = fits
  rounds-IdleFits s now (r ∷ more) fits follow =
      rounds-IdleFits (round s r) r.ended more
        (round-IdleFits s now r fits follow.0 follow.1 follow.2) follow.3
