-- ===== src/Uring/Rounds/Stops.antt =====
-- The end of `loop`, and what stays true until then.
use netbench.Base.{
  ℕ, zero, suc, ◌≡◌, refl, ◌∙◌, Option, none, some, List, [], ◌∷◌, ltb, ◌==◌, Bool, true, false,
  ◌||◌, if◌then◌else◌, inl, inr, ◌⊎◌, Bool-cases,
}
use mathlib.Core.Path.{subst}
use netbench.Base.Results.{Result, ok, err, Error, bind-ok, ok-inj}
use netbench.Protocol.{Memory}
use netbench.Util.{checked_errno, etime, eintr}
use netbench.Uring.{Res, success, failure}
use netbench.Uring.Runner.{Runner, provide_buffers}
use netbench.Uring.Rounds.{
  submit_and_wait1, stop, Arrival, Round, is_over, arrive, arrive_all, wait_one, wait, loop,
}
use netbench.Uring.Rounds.Accepting.{Steady, steady, Steady-then}
use netbench.Uring.Rounds.Steady.{provide_buffers-Steady, process_cqe-Steady}

pub Result-cases {ℓ} :
    {A : Type ℓ} (r : Result A) → ((e : Error) × (r ≡ err e)) ⊎ ((a : A) × (r ≡ ok a))
Result-cases (err e) = inl (e, refl)
Result-cases (ok a) = inr (a, refl)

-- `submitAndWait1` writes `expected` only.
pub submit_and_wait1_only :
    (r r' : Runner) (errno : ℕ) (res : Res)
    → submit_and_wait1 r errno res ≡ ok r'
    → (n : ℕ) × (record r { expected = n } ≡ r')
unfolding submit_and_wait1
submit_and_wait1_only r r' errno res e =
    let (got, checked, rest) = bind-ok (checked_errno errno res) _ e in answered got rest
  where
    answered :
        (got : Res)
        → (elim got as (λ got. Result Runner) [
          | success n ↦ ok (record r { expected = 0 })
          | failure n ↦ if (n == etime) || (n == eintr) then ok r else err Error.died
        ])
          ≡ ok r'
        → (n : ℕ) × (record r { expected = n } ≡ r')
    answered (success n) h = (0, ok-inj h)
    answered (failure n) h = elim (Bool-cases ((n == etime) || (n == eintr))) [
      | inl late ↦ (r.expected, ok-inj (rw late at h))
      | inr broken ↦ let absurdity = rw broken at h in cc
    ]

submit_and_wait1-Steady :
    (r r' : Runner) (errno : ℕ) (res : Res) → submit_and_wait1 r errno res ≡ ok r' → Steady r r'
submit_and_wait1-Steady r r' errno res e =
    let (n, done) = submit_and_wait1_only r r' errno res e in
    subst (Steady r) done (record { config = refl; stopping = refl })

module _ (nonblock_accept : Bool) (payload : Memory → ℕ → Option (Memory × ℕ)) where
  arrive-Steady :
      (r r' : Runner) (a : Arrival) → arrive nonblock_accept payload r a ≡ ok r' → Steady r r'
  unfolding arrive
  arrive-Steady r r' a e = process_cqe-Steady nonblock_accept payload r r' a.cqe a.ptr a.more e

  arrive_all-Steady :
      (r r' : Runner) (arrivals : List Arrival)
      → arrive_all nonblock_accept payload r arrivals ≡ ok r'
      → Steady r r'
  unfolding arrive_all
  arrive_all-Steady r r' [] e = subst (Steady r) (ok-inj e) steady
  arrive_all-Steady r r' (a ∷ more) e =
      let (r1, first, rest) = bind-ok (arrive nonblock_accept payload r a) _ e in
      Steady-then (arrive-Steady r r1 a first) (arrive_all-Steady r1 r' more rest)

  wait_one-Steady :
      (r r' : Runner) (rd : Round) → wait_one nonblock_accept payload r rd ≡ ok r' → Steady r r'
  unfolding wait_one
  wait_one-Steady r r' rd e =
      let (got, checked, rest) = bind-ok (checked_errno rd.errno rd.waited) _ e in waited got rest
    where
      came :
          (first : Option Arrival)
          → (elim first as (λ first. Result Runner) [
            | none ↦ ok r
            | some a ↦ arrive nonblock_accept payload r a
          ])
            ≡ ok r'
          → Steady r r'
      came none h = subst (Steady r) (ok-inj h) steady
      came (some a) h = arrive-Steady r r' a h

      waited :
          (got : Res)
          → (elim got as (λ got. Result Runner) [
            | success zero ↦ elim rd.first as (λ first. Result Runner) [
              | none ↦ ok r
              | some a ↦ arrive nonblock_accept payload r a
            ]
            | success (suc n) ↦ ok r
            | failure n ↦ ok r
          ])
            ≡ ok r'
          → Steady r r'
      waited (success zero) h = came rd.first h
      waited (success (suc n)) h = subst (Steady r) (ok-inj h) steady
      waited (failure n) h = subst (Steady r) (ok-inj h) steady

  wait-Steady :
      (r r' : Runner) (rd : Round) → wait nonblock_accept payload r rd ≡ ok r' → Steady r r'
  unfolding wait
  wait-Steady r r' rd e =
      let provided = provide_buffers-Steady false r in
      elim (Bool-cases rd.overflow) [
        | inl full ↦ subst (Steady r) (ok-inj (rw full at e)) provided
        | inr fits ↦ elim (Bool-cases (ltb 0 (provide_buffers false r).expected)) [
          | inl more ↦ Steady-then provided (
              submit_and_wait1-Steady (provide_buffers false r) r' rd.errno rd.waited
                (rw more at (rw fits at e)))
          | inr nothing ↦
              Steady-then provided
                (wait_one-Steady (provide_buffers false r) r' rd (rw nothing at (rw fits at e)))
        ]
      ]

  -- A runner that is stopping ends in its next round, or throws.
  loop_last :
      (r : Runner) (rd : Round) (rounds : List Round)
      → r.stopping ≡ true
      → rd.shutdown ≡ true
      → ((e : Error) × (loop nonblock_accept payload r (rd ∷ rounds) ≡ err e))
        ⊎ ((r' : Runner) × (loop nonblock_accept payload r (rd ∷ rounds) ≡ ok (some r')))
  unfolding loop
  loop_last r rd rounds stopping down = elim (Bool-cases (is_over r)) [
    | inl over ↦ inr (r, rw over refl)
    | inr more ↦ elim (Result-cases (wait nonblock_accept payload r rd)) [
      | inl (e, thrown) ↦ inl (e, rw (more, thrown) refl)
      | inr (r1, waited) ↦
          let still : r1.stopping ≡ true = (wait-Steady r r1 rd waited).stopping ∙ stopping in
          inr (r1, rw (more, waited) (rw (down, still) refl))
    ]
  ]

  -- Once two rounds of `loop` in succession find that the test, or the program, is over, the loop has
  -- ended or has thrown, whatever sockets there still are.
  pub loop_ends :
      (r : Runner) (rd1 rd2 : Round) (rounds : List Round)
      → rd1.shutdown ≡ true
      → rd2.shutdown ≡ true
      → ((e : Error) × (loop nonblock_accept payload r (rd1 ∷ rd2 ∷ rounds) ≡ err e))
        ⊎ ((r' : Runner) × (loop nonblock_accept payload r (rd1 ∷ rd2 ∷ rounds) ≡ ok (some r')))
  unfolding loop stop
  loop_ends r rd1 rd2 rounds down1 down2 = elim (Bool-cases (is_over r)) [
    | inl over ↦ inr (r, rw over refl)
    | inr more ↦ elim (Result-cases (wait nonblock_accept payload r rd1)) [
      | inl (e, thrown) ↦ inl (e, rw (more, thrown) refl)
      | inr (r1, waited) ↦ elim (Bool-cases r1.stopping) [
        | inl already ↦ inr (r1, rw (more, waited) (rw (down1, already) refl))
        | inr running ↦
            elim (Result-cases (arrive_all nonblock_accept payload (stop r1) rd1.cqes)) [
              | inl (e, thrown) ↦ inl (e, rw (more, waited) (rw (down1, running) (rw thrown refl)))
              | inr (r2, arrived) ↦
                  let still : r2.stopping ≡ true =
                    (arrive_all-Steady (stop r1) r2 rd1.cqes arrived).stopping in
                  elim (loop_last r2 rd2 rounds still down2) [
                    | inl (e, thrown) ↦
                        inl (e, rw (more, waited) (rw (down1, running) (rw arrived thrown)))
                    | inr (r3, ended) ↦
                        inr (r3, rw (more, waited) (rw (down1, running) (rw arrived ended)))
                  ]
            ]
      ]
    ]
  ]
