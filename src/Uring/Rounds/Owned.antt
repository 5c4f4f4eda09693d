-- ===== src/Uring/Rounds/Owned.antt =====
-- The slots of the fixed file table from the constructor to the end of `loop`.
use netbench.Base.{
  ℕ, zero, suc, ◌≡◌, ◌∙◌, Option, none, some, List, [], ◌∷◌, ltb, Bool, true, false, ◌&&◌,
  if◌then◌else◌, inl, inr, Bool-cases, some-inj,
}
use mathlib.Core.Path.{subst}
use netbench.Base.Results.{Result, ok, bind-ok, ok-inj}
use netbench.Protocol.{Memory}
use netbench.Util.{checked_errno}
use netbench.Uring.{Config, Res, success, failure}
use netbench.Uring.Runner.{Runner, Buffers, provide_buffers}
use netbench.Uring.Places.{held}
use netbench.Uring.Held.{process_cqe-held}
use netbench.Uring.Rounds.{
  start, add_listen_socks, stop, Arrival, Round, is_over, arrive, arrive_all, wait_one, wait, loop,
}
use netbench.Uring.Rounds.Stops.{submit_and_wait1_only}
use netbench.Uring.Rounds.Steady.{process_cqe-Steady}
use netbench.Uring.Rounds.Unmoved.{
  Same, same, same_then, fixed_then, provide_buffers-Same, Closes, AllClose, FirstCloses,
  RoundsClose, add_listen_socks-Same, stopped, start_owns,
}

module _ (nonblock_accept : Bool) (payload : Memory → ℕ → Option (Memory × ℕ)) where
  arrive-Same :
      (r r' : Runner) (a : Arrival)
      → r.config.fixed_files ≡ true
      → Closes a
      → arrive nonblock_accept payload r a ≡ ok r'
      → Same r r'
  unfolding arrive
  arrive-Same r r' a fixed closes e = record {
    config = (process_cqe-Steady nonblock_accept payload r r' a.cqe a.ptr a.more e).config;
    places = λ i. process_cqe-held i nonblock_accept payload r r' a.cqe a.ptr a.more fixed closes e;
  }

  arrive_all-Same :
      (r r' : Runner) (arrivals : List Arrival)
      → r.config.fixed_files ≡ true
      → AllClose arrivals
      → arrive_all nonblock_accept payload r arrivals ≡ ok r'
      → Same r r'
  unfolding arrive_all
  arrive_all-Same r r' [] fixed closes e = subst (Same r) (ok-inj e) same
  arrive_all-Same r r' (a ∷ more) fixed closes e =
      let (r1, first, rest) = bind-ok (arrive nonblock_accept payload r a) _ e in
      let one = arrive-Same r r1 a fixed closes.0 first in
      same_then one (arrive_all-Same r1 r' more (fixed_then one fixed) closes.1 rest)

  wait_one-Same :
      (r r' : Runner) (rd : Round)
      → r.config.fixed_files ≡ true
      → FirstCloses rd.first
      → wait_one nonblock_accept payload r rd ≡ ok r'
      → Same r r'
  unfolding wait_one
  wait_one-Same r r' rd fixed closes e =
      let (got, checked, rest) = bind-ok (checked_errno rd.errno rd.waited) _ e in waited got rest
    where
      came :
          (first : Option Arrival)
          → FirstCloses first
          → (elim first as (λ first. Result Runner) [
            | none ↦ ok r
            | some a ↦ arrive nonblock_accept payload r a
          ])
            ≡ ok r'
          → Same r r'
      came none c h = subst (Same r) (ok-inj h) same
      came (some a) c h = arrive-Same r r' a fixed c h

      waited :
          (got : Res)
          → (elim got as (λ got. Result Runner) [
            | success zero ↦ elim rd.first as (λ first. Result Runner) [
              | none ↦ ok r
              | some a ↦ arrive nonblock_accept payload r a
            ]
            | success (suc n) ↦ ok r
            | failure n ↦ ok r
          ])
            ≡ ok r'
          → Same r r'
      waited (success zero) h = came rd.first closes h
      waited (success (suc n)) h = subst (Same r) (ok-inj h) same
      waited (failure n) h = subst (Same r) (ok-inj h) same

  wait-Same :
      (r r' : Runner) (rd : Round)
      → r.config.fixed_files ≡ true
      → FirstCloses rd.first
      → wait nonblock_accept payload r rd ≡ ok r'
      → Same r r'
  unfolding wait
  wait-Same r r' rd fixed closes e =
      let provided = provide_buffers-Same false r in
      elim (Bool-cases rd.overflow) [
        | inl full ↦ subst (Same r) (ok-inj (rw full at e)) provided
        | inr fits ↦ elim (Bool-cases (ltb 0 (provide_buffers false r).expected)) [
          | inl more ↦
              let (n, done) =
                submit_and_wait1_only (provide_buffers false r) r' rd.errno rd.waited
                  (rw more at (rw fits at e)) in
              subst (Same r) done (record { config = provided.config; places = provided.places })
          | inr nothing ↦ same_then provided (
              wait_one-Same (provide_buffers false r) r' rd (fixed_then provided fixed) closes
                (rw nothing at (rw fits at e)))
        ]
      ]

  loop-Same :
      (r r' : Runner) (rounds : List Round)
      → r.config.fixed_files ≡ true
      → RoundsClose rounds
      → loop nonblock_accept payload r rounds ≡ ok (some r')
      → Same r r'
  unfolding loop
  loop-Same r r' [] fixed closes e = elim (Bool-cases (is_over r)) [
    | inl over ↦ subst (Same r) (some-inj (ok-inj (rw over at e))) same
    | inr more ↦ let absurdity = rw more at e in cc
  ]
  loop-Same r r' (rd ∷ rounds) fixed closes e = elim (Bool-cases (is_over r)) [
    | inl over ↦ subst (Same r) (some-inj (ok-inj (rw over at e))) same
    | inr more ↦
        let (r1, waited, rest) = bind-ok (wait nonblock_accept payload r rd) _ (rw more at e) in
        let one = wait-Same r r1 rd fixed closes.0.0 waited in
        elim (Bool-cases (rd.shutdown && r1.stopping)) [
          | inl last ↦ subst (Same r) (some-inj (ok-inj (rw last at rest))) one
          | inr goes_on ↦
              let r2 = if rd.shutdown then stop r1 else r1 in
              let (r3, arrived, end) =
                bind-ok (arrive_all nonblock_accept payload r2 rd.cqes) _ (rw goes_on at rest) in
              let two = same_then one (stopped rd.shutdown r1) in
              let three =
                same_then two
                  (arrive_all-Same r2 r3 rd.cqes (fixed_then two fixed) closes.0.1 arrived) in
              same_then three (loop-Same r3 r' rounds (fixed_then three fixed) closes.1 end)
        ]
  ]

  -- With fixed files, from the constructor over any listeners to the end of the loop, each slot of the
  -- file table is in exactly one place (the pool, a listener that waits with it, a socket), and no other
  -- number is in any, if, for each close that completes, the kernel has closed the slot.
  pub loop_owns_each_slot :
      (c : Config) (buffers : Buffers) (fixed_file_count : ℕ) (answers : List Res)
      (listeners : List (ℕ × ℕ)) (rounds : List Round) (r1 r2 r3 : Runner)
      → c.fixed_files ≡ true
      → start c buffers fixed_file_count answers ≡ ok (some r1)
      → add_listen_socks r1 listeners ≡ ok r2
      → RoundsClose rounds
      → loop nonblock_accept payload r2 rounds ≡ ok (some r3)
      → (i : ℕ) → held i r3 ≡ (if ltb i fixed_file_count then 1 else 0)
  loop_owns_each_slot c buffers fixed_file_count answers listeners rounds r1 r2 r3 fixed started
        listening closes looped i =
      let (fixed1, first) = start_owns c buffers fixed_file_count answers r1 fixed started in
      let one = add_listen_socks-Same r1 r2 listeners fixed1 listening in
      let two = loop-Same r2 r3 rounds (fixed_then one fixed1) closes looped in
      two.places i ∙ one.places i ∙ first i
