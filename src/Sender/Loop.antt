-- ===== src/Sender/Loop.antt =====
-- `Sender::go` of sender.cpp, and what it calls: `submit`, `processWaits` and `processCompletions`. What the
-- kernel answers and the times read from the clock are arguments. A loop that the arguments or the
-- fuel do not bring to its end gives `none`.
use netbench.Base.{
  ℕ, zero, suc, ◌+◌, ◌-◌, Option, none, some, List, [], ◌∷◌, ◌++◌, ltb, leb, ◌==◌, if◌then◌else◌,
  Bool, true, false, ◌&&◌,
}
use netbench.Base.Results.{Result, ok, err, died, ◌>>=◌}
use netbench.Base.Assoc.{find}
use netbench.Scenarios.{ActionOp, disconnect, wait_until, Action}
use netbench.Uring.{Res, success, failure}
use netbench.Util.{checked_errno}
use netbench.Sender.{
  preparing, waiting_for_ready, running, closing, closed, Connection, Sender, is_op,
}
use netbench.Sender.Actions.{is_running, process_res, process_cqe, queue_one}

-- How far `submit` has changed `outstanding_`: up, and down by an answer below 0.
pub record Submitted : Type 0 where
  pub taken : ℕ
  pub refused : ℕ

-- The loop of `submit`, for `expected_` and the answers of `io_uring_submit`.
unfoldable pub submit_loop : ℕ → Submitted → List Res → Result (Option Submitted)
submit_loop zero s answers = ok (some s)
submit_loop (suc n) s [] = ok none
submit_loop (suc n) s (success zero ∷ answers) = err died
submit_loop (suc n) s (success (suc k) ∷ answers) =
    submit_loop (n - k) (record s { taken = s.taken + suc k }) answers
submit_loop (suc n) s (failure e ∷ answers) =
    submit_loop (suc n + e) (record s { refused = s.refused + e }) answers

-- `submit`
unfoldable pub submit : {S : Type 0} → Sender S → List Res → Result (Option (Sender S))
unfolding submit_loop
submit t answers = submit_loop t.expected (record { taken = 0; refused = 0 }) answers >>= λ end.
    elim end [
      | none ↦ ok none
      | some s ↦
          ok (some (record t { outstanding = t.outstanding + s.taken - s.refused; expected = 0 }))
    ]

-- `get_sqe` without its entry: whether the submission queue has room, and, where it has none, the answers to
-- `submit` and whether it has room then.
unfoldable pub get_sqe :
    {S : Type 0} → Sender S → Bool → List Res → Bool → Result (Option (Sender S))
unfolding submit
get_sqe t true answers again = ok (some (record t { expected = t.expected + 1 }))
get_sqe t false answers again = submit t answers >>= λ end. elim end [
  | none ↦ ok none
  | some t' ↦ if again then ok (some (record t' { expected = t'.expected + 1 })) else err died
]

abbrev pub second : ℕ
second = 1000000000

-- The timeout of `processCompletions`, in nanoseconds.
unfoldable pub timeout : List (ℕ × ℕ) → ℕ → ℕ
timeout [] now = second
timeout ((until, i) ∷ waits) now =
    if leb until now then 1 else if leb (now + second) until then second else until - now

-- `toClose`, as it is filled when the time is up.
unfoldable pub all_ids : List (ℕ × Connection) → List ℕ
all_ids [] = []
all_ids ((i, c) ∷ connections) = all_ids connections ++ i ∷ []

-- What `SendResults` has from the counters of a sender: the first two still to be divided by the seconds
-- that the test runs for.
pub record Counts : Type 0 where
  pub packets : ℕ
  pub bytes : ℕ
  pub send_errors : ℕ
  pub recv_errors : ℕ
  pub connect_errors : ℕ
  pub connects : ℕ

abbrev pub counts_of : {S : Type 0} → Sender S → Counts
counts_of t = record {
  packets = t.packets_sent;
  bytes = t.bytes_sent;
  send_errors = t.send_errors;
  recv_errors = t.recv_errors;
  connect_errors = t.connect_errors;
  connects = t.success_connects;
}

-- The start of a round of `go`: a sender that has run past its end starts to close, and takes its results.
unfoldable pub check_end : {S : Type 0} → Sender S → Counts → ℕ → ℕ → Sender S × Counts
unfolding is_running all_ids
check_end t counts now end =
    if is_running t.state && ltb end now
    then (record t { state = closing; to_close = all_ids t.connections ++ t.to_close }, counts_of t)
    else (t, counts)

-- Whether a sender that closes has no connection left.
unfoldable pub all_closed : {S : Type 0} → Sender S → Bool
all_closed t = elim t.state [
  | preparing ↦ false
  | waiting_for_ready ↦ false
  | running ↦ false
  | closing ↦ elim t.connections [ [] ↦ true | c ∷ more ↦ false ]
  | closed ↦ false
]

-- What a round of `go` is told: the time, the answers to each call of `submit`, the result of the wait
-- for a completion, the completions that it finds, and the time after these.
pub record Round : Type 0 where
  pub now : ℕ
  pub answers : List (List Res)
  pub waited : Res
  pub cqes : List (ℕ × Res)
  pub later : ℕ

module _ {S : Type 0} (done_last : S → ℕ → ActionOp → Result (S × List Action))
    (done_error : S → ℕ → ActionOp → Result (S × List Action)) where
  -- One connection of `processWaits`
  unfoldable pub wait_ended : Sender S → ℕ → Result (Sender S)
  unfolding is_op process_res
  wait_ended t i = elim (find i t.connections) [
    | none ↦ ok t
    | some c ↦
        if is_op c.current disconnect
        then ok t
        else if is_op c.current wait_until
        then process_res done_last done_error t c (success 0)
        else err died
  ]

  unfoldable pub process_due : Sender S → List (ℕ × ℕ) → ℕ → Result (Sender S)
  unfolding wait_ended
  process_due t [] now = ok (record t { waits = [] })
  process_due t ((until, i) ∷ waits) now =
      if leb until now
      then (wait_ended t i >>= λ t'. process_due t' waits now)
      else ok (record t { waits = (until, i) ∷ waits })

  -- `processWaits`
  unfoldable pub process_waits : Sender S → ℕ → Result (Sender S)
  unfolding process_due
  process_waits t now = process_due t t.waits now

  unfoldable pub process_cqes : Sender S → List (ℕ × Res) → Result (Sender S)
  unfolding process_cqe
  process_cqes t [] = ok t
  process_cqes t ((user_data, res) ∷ cqes) =
      process_cqe done_last done_error t user_data res >>= λ t'. process_cqes t' cqes

  -- `processCompletions`, for a wait that does not fail with -1, for which the code would read `errno`.
  unfoldable pub process_completions : Sender S → Res → List (ℕ × Res) → ℕ → Result (Sender S)
  unfolding checked_errno process_cqes process_waits
  process_completions t waited cqes later =
      checked_errno 0 waited >>= λ seen. process_cqes t cqes >>= λ t'. process_waits t' later

  -- `while (queueOne())`
  unfoldable pub queue_all : ℕ → Sender S → Result (Option (Sender S))
  unfolding queue_one
  queue_all zero t = ok none
  queue_all (suc fuel) t = queue_one done_last done_error t >>= λ next.
      if next.1 then queue_all fuel next.0 else ok (some next.0)

  -- The inner loop of `go`, and one list of answers for each `submit`.
  unfoldable pub flush : ℕ → Sender S → List (List Res) → Result (Option (Sender S))
  unfolding queue_all submit
  flush fuel t [] = queue_all fuel t >>= λ queued. elim queued [
    | none ↦ ok none
    | some t1 ↦ if t1.expected == 0 then ok (some t1) else ok none
  ]
  flush fuel t (answers ∷ more) = queue_all fuel t >>= λ queued. elim queued [
    | none ↦ ok none
    | some t1 ↦
        if t1.expected == 0
        then ok (some t1)
        else (submit t1 answers >>= λ sent. elim sent [
          | none ↦ ok none
          | some t2 ↦ flush fuel t2 more
        ])
  ]

  -- `go`, for the time that the test ends, and the rounds.
  unfoldable pub go : ℕ → ℕ → Sender S → Counts → List Round → Result (Option (Sender S × Counts))
  unfolding check_end all_closed flush process_completions
  go fuel end t counts [] = ok none
  go fuel end t counts (r ∷ rounds) =
      let (t1, counts1) = check_end t counts r.now end in
      if all_closed t1
      then ok (some (record t1 { state = closed }, counts1))
      else (flush fuel t1 r.answers >>= λ flushed. elim flushed [
        | none ↦ ok none
        | some t2 ↦
            process_completions t2 r.waited r.cqes r.later >>= λ t3. go fuel end t3 counts1 rounds
      ])
