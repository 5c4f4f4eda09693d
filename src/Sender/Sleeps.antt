-- ===== src/Sender/Sleeps.antt =====
-- How long `Sender` sleeps, which waits it ends, and what `submit` counts.
use netbench.Base.{
  Bool, ◌∙◌, false, if◌then◌else◌, ℕ, zero, suc, ◌+◌, ◌-◌, ◌≤◌, ◌<◌, ◌≡◌, refl, ap, some, List, [],
  ◌∷◌, ◌++◌, arith, ltb, leb, inl, inr, Bool-cases, some-inj,
}
use mathlib.Core.Path.{subst}
use netbench.Base.Results.{died, err, Result, ok, bind-ok, step-ok, ok-inj}
use netbench.Scenarios.{ActionOp, Action}
use netbench.Uring.{Res, success, failure}
use netbench.Sender.{Sender, schedule}
use netbench.Sender.Loop.{
  Submitted, submit_loop, submit, get_sqe, second, timeout, wait_ended, process_due, process_waits,
}

-- Whatever is waited for, the timeout is at least a nanosecond and at most a second, and a second if there
-- are no waits. If there are, it does not reach past the first deadline, if that is still ahead; and a
-- timeout of less than a second ends at the first deadline or finds it passed.
pub timeout-bounds :
    (waits : List (ℕ × ℕ)) (now : ℕ)
    → (1 ≤ timeout waits now)
      × (timeout waits now ≤ second)
      × (waits ≡ [] → timeout waits now ≡ second)
      × ((until i : ℕ) (more : List (ℕ × ℕ))
          → waits ≡ (until, i) ∷ more
          → (now < until → now + timeout waits now ≤ until)
            × (timeout waits now < second → until ≤ now + timeout waits now))
unfolding timeout
timeout-bounds [] now = (omega arith, omega arith, λ none_left. refl, λ until i more h. absurd cc)
timeout-bounds ((until, i) ∷ waits) now = (
  ground arith,
  ground arith,
  λ h. absurd cc,
  λ until' i' more h.
      let same : until ≡ until' = cc in
      subst
        (λ u.
          (now < u → now + timeout ((until, i) ∷ waits) now ≤ u)
          × (timeout ((until, i) ∷ waits) now < second
              → u ≤ now + timeout ((until, i) ∷ waits) now))
        same (λ ahead. ground (arith, ahead), λ short. ground (arith, short)),
)

-- The deadlines, each no earlier than the one before.
abbrev pub SortedFrom : ℕ → List (ℕ × ℕ) → Type 0
SortedFrom low [] = Unit
SortedFrom low ((until, i) ∷ waits) = (low ≤ until) × SortedFrom until waits

abbrev pub Sorted : List (ℕ × ℕ) → Type 0
Sorted waits = SortedFrom 0 waits

schedule-SortedFrom :
    (low wait i : ℕ) (waits : List (ℕ × ℕ))
    → low ≤ wait
    → SortedFrom low waits
    → SortedFrom low (schedule wait i waits)
unfolding schedule
schedule-SortedFrom low wait i [] le s = (le, tt)
schedule-SortedFrom low wait i ((other, j) ∷ waits) le s = elim (Bool-cases (ltb wait other)) [
  | inl before ↦ rw before (le, (ground (arith, before), s.1))
  | inr after ↦ rw after (s.0, schedule-SortedFrom other wait i waits (ground (arith, after)) s.1)
]

abbrev pub AllDue : ℕ → List (ℕ × ℕ) → Type 0
AllDue now [] = Unit
AllDue now ((until, i) ∷ waits) = (until ≤ now) × AllDue now waits

still_ahead :
    (low now : ℕ) (waits : List (ℕ × ℕ))
    → SortedFrom low waits
    → now < low
    → SortedFrom (now + 1) waits
still_ahead low now [] s lt = tt
still_ahead low now ((until, i) ∷ waits) s lt = (omega (arith, s.0), s.1)

module _ {S : Type 0} (done_last done_error : S → ℕ → ActionOp → Result (S × List Action)) where
  process_due_lem :
      (t t' : Sender S) (low now : ℕ) (waits : List (ℕ × ℕ))
      → SortedFrom low waits
      → process_due done_last done_error t waits now ≡ ok t'
      → (due : List (ℕ × ℕ)) × (waits ≡ due ++ t'.waits)
        × AllDue now due
        × SortedFrom (now + 1) t'.waits
  unfolding process_due
  process_due_lem t t' low now [] s e =
      let same : _ ≡ t'.waits = ap (λ t. t.waits) (ok-inj e) in
      ([], same, tt, subst (SortedFrom (now + 1)) same tt)
  process_due_lem t t' low now ((until, i) ∷ waits) s e = elim (Bool-cases (leb until now)) [
    | inl due ↦
        let (t1, one, rest) = bind-ok (wait_ended done_last done_error t i) _ (rw due at e) in
        let (before, all, were_due, after) = process_due_lem t1 t' until now waits s.1 rest in
        ((until, i) ∷ before, ap (◌∷◌ (until, i)) all, (ground (arith, due), were_due), after)
    | inr early ↦
        let same : (until, i) ∷ waits ≡ t'.waits = ap (λ t. t.waits) (ok-inj (rw early at e)) in
        ([], same, tt, subst (SortedFrom (now + 1)) same (ground (arith, early), s.1))
  ]

  -- `processWaits`, on waits that are sorted, takes those whose deadline has come off the front, and what it
  -- leaves is sorted and still ahead.
  pub process_waits_ends_due :
      (t t' : Sender S) (now : ℕ)
      → Sorted t.waits
      → process_waits done_last done_error t now ≡ ok t'
      → (due : List (ℕ × ℕ)) × (t.waits ≡ due ++ t'.waits)
        × AllDue now due
        × SortedFrom (now + 1) t'.waits
  unfolding process_waits
  process_waits_ends_due t t' now s e = process_due_lem t t' 0 now t.waits s e

-- How much the kernel takes in all.
abbrev pub accepted : List Res → ℕ
accepted [] = 0
accepted (success n ∷ answers) = n + accepted answers
accepted (failure e ∷ answers) = accepted answers

abbrev pub AllPositive : List Res → Type 0
AllPositive [] = Unit
AllPositive (success n ∷ answers) = (1 ≤ n) × AllPositive answers
AllPositive (failure e ∷ answers) = ⊥

submit_loop-counts :
    (n : ℕ) (s s' : Submitted) (answers : List Res)
    → submit_loop n s answers ≡ ok (some s')
    → (s.taken + n + s'.refused ≤ s'.taken + s.refused)
      × (s'.taken ≤ s.taken + accepted answers)
      × (s.refused ≤ s'.refused)
unfolding submit_loop
submit_loop-counts zero s s' answers e =
    let same : s ≡ s' = some-inj (ok-inj e) in
    (
      omega (arith, ap (λ s. s.taken) same, ap (λ s. s.refused) same),
      omega (arith, ap (λ s. s.taken) same),
      omega (arith, ap (λ s. s.refused) same),
    )
submit_loop-counts (suc n) s s' [] e = cc
submit_loop-counts (suc n) s s' (success zero ∷ answers) e = cc
submit_loop-counts (suc n) s s' (success (suc k) ∷ answers) e =
    let (a, b, c) =
      submit_loop-counts (n - k) (record s { taken = s.taken + suc k }) s' answers e in
    (omega (arith, a), omega (arith, b), c)
submit_loop-counts (suc n) s s' (failure k ∷ answers) e =
    let (a, b, c) =
      submit_loop-counts (suc n + k) (record s { refused = s.refused + k }) s' answers e in
    (omega (arith, a), b, omega (arith, c))

submit_loop_total :
    (n : ℕ) (s : Submitted) (answers : List Res)
    → AllPositive answers
    → n ≤ accepted answers
    → (s' : Submitted) × (submit_loop n s answers ≡ ok (some s'))
unfolding submit_loop
submit_loop_total zero s answers p le = (s, refl)
submit_loop_total (suc n) s [] p le = absurd (omega arith)
submit_loop_total (suc n) s (success zero ∷ answers) p le = absurd (omega (arith, p.0))
submit_loop_total (suc n) s (success (suc k) ∷ answers) p le =
    submit_loop_total (n - k) (record s { taken = s.taken + suc k }) answers p.1 (omega (arith, le))
submit_loop_total (suc n) s (failure e ∷ answers) p le = absurd p

-- Every answer is above 0, but for errors numbered 0, which no call reports.
abbrev pub NoneBelow : List Res → Type 0
NoneBelow [] = Unit
NoneBelow (success n ∷ answers) = (1 ≤ n) × NoneBelow answers
NoneBelow (failure e ∷ answers) = (e ≡ 0) × NoneBelow answers

submit_loop_uses :
    (n : ℕ) (s s' : Submitted) (answers : List Res)
    → accepted answers ≤ n
    → submit_loop n s answers ≡ ok (some s')
    → (used rest : List Res) × (answers ≡ used ++ rest) × NoneBelow used × (accepted used ≡ n)
unfolding submit_loop
submit_loop_uses zero s s' answers le e = ([], answers, refl, tt, refl)
submit_loop_uses (suc n) s s' [] le e = cc
submit_loop_uses (suc n) s s' (success zero ∷ answers) le e = cc
submit_loop_uses (suc n) s s' (success (suc k) ∷ answers) le e =
    let (used, rest, all, above, taken) =
      submit_loop_uses (n - k) (record s { taken = s.taken + suc k }) s' answers (omega (arith, le))
        e in
    (
      success (suc k) ∷ used,
      rest,
      ap (◌∷◌ (success (suc k))) all,
      (omega arith, above),
      omega (arith, taken, le),
    )
submit_loop_uses (suc n) s s' (failure zero ∷ answers) le e =
    let (used, rest, all, above, taken) =
      submit_loop_uses (suc n + 0) (record s { refused = s.refused + 0 }) s' answers
        (omega (arith, le)) e in
    (failure zero ∷ used, rest, ap (◌∷◌ (failure zero)) all, (refl, above), omega (arith, taken))
submit_loop_uses (suc n) s s' (failure (suc k) ∷ answers) le e =
    let (a, b, c) =
      submit_loop-counts (suc n + suc k) (record s { refused = s.refused + suc k }) s' answers e in
    absurd (omega (arith, a, b, c, le))

-- Where the kernel takes no more submissions than there are, `submit` returns only with all of them
-- taken and counted as outstanding, and only by answers none of which is below 0 and which take just
-- all; and it does return if each answer is above 0 and all are taken.
pub submit_lem :
    {S : Type 0} (t : Sender S) (answers : List Res)
    → accepted answers ≤ t.expected
    → ((t' : Sender S)
        → submit t answers ≡ ok (some t')
        → (record t { outstanding = t.outstanding + t.expected; expected = 0 } ≡ t')
          × (used rest : List Res) × (answers ≡ used ++ rest)
          × NoneBelow used
          × (accepted used ≡ t.expected))
      × (AllPositive answers
          → accepted answers ≡ t.expected
          → (t' : Sender S) × (submit t answers ≡ ok (some t')))
unfolding submit
submit_lem t answers le = (λ t' e. counted t' e, λ p all. returns p all)
  where
    zero_counts : Submitted
    zero_counts = record { taken = 0; refused = 0 }

    counted :
        (t' : Sender _)
        → submit t answers ≡ ok (some t')
        → (record t { outstanding = t.outstanding + t.expected; expected = 0 } ≡ t')
          × (used rest : List Res) × (answers ≡ used ++ rest)
          × NoneBelow used
          × (accepted used ≡ t.expected)
    counted t' e =
        elim (step-ok (submit_loop t.expected zero_counts answers)
          (λ s.
            ok
              (some (record t { outstanding = t.outstanding + s.taken - s.refused; expected = 0 })))
          (some t') e) [
            | inl lasts ↦ let absurdity = lasts in cc
            | inr (s, ended, end) ↦
                let (a, b, c) = submit_loop-counts t.expected zero_counts s answers ended in
                let all : t.outstanding + t.expected ≡ t.outstanding + s.taken - s.refused =
                  omega (arith, a, b, c) in
                let (used, rest, split, above, taken) =
                  submit_loop_uses t.expected zero_counts s answers le ended in
                (rw all (some-inj (ok-inj end)), used, rest, split, above, taken)
          ]

    returns :
        AllPositive answers
        → accepted answers ≡ t.expected
        → (t' : Sender _) × (submit t answers ≡ ok (some t'))
    returns p all =
        let (s, ended) = submit_loop_total t.expected zero_counts answers p (omega (arith, all)) in
        (
          record t { outstanding = t.outstanding + s.taken - s.refused; expected = 0 },
          rw ended refl,
        )

-- `get_sqe` on a full queue, where the kernel takes no more than there is: all is outstanding, and one
-- submission is expected.
pub get_sqe-full :
    {S : Type 0} (t t' : Sender S) (answers : List Res) (again : Bool)
    → accepted answers ≤ t.expected
    → get_sqe t false answers again ≡ ok (some t')
    → record t { outstanding = t.outstanding + t.expected; expected = 1 } ≡ t'
unfolding get_sqe
get_sqe-full {S} t t' answers again le e =
    elim (step-ok (submit t answers)
      (λ t1. if again then ok (some (record t1 { expected = t1.expected + 1 })) else err died)
      (some t') e) [
        | inl lasts ↦ let absurdity = lasts in cc
        | inr (t1, sent, rest) ↦ elim (Bool-cases again) [
          | inr full ↦ let absurdity = rw full at rest in cc
          | inl room ↦
              let all = ((submit_lem t answers le).0 t1 sent).0 in
              ap {A = Sender S} (λ t1. record t1 { expected = t1.expected + 1 }) all
              ∙ some-inj (ok-inj (rw room at rest))
        ]
      ]
