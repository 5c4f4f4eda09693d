-- ===== src/Sender/Runs.antt =====
-- `Sender` over any run: actions begin and completions arrive in any order.
use netbench.Base.{
  ℕ, ◌+◌, ◌-◌, ◌≤◌, ◌≡◌, refl, ap, ◌∙◌, some, List, [], ◌∷◌, ◌++◌, arith, ◌==◌, leb, if◌then◌else◌,
  true, false, inl, inr, Bool-cases, Option-cases,
}
use mathlib.Core.Path.{subst}
use netbench.Base.Results.{Result, ok, bind-ok, ok-inj}
use netbench.Base.Assoc.{find, total}
use netbench.Scenarios.{
  ActionOp, unknown, connect, disconnect, recv, send, ready, wait_until, Action,
}
use netbench.Uring.{Res, success}
use netbench.Uring.Runner.{udata_timeout}
use netbench.Sender.{
  Request, do_connect, do_close, do_recv, do_sendmsg, Connection, Sender, is_idle, is_op,
  run_action,
}
use netbench.Sender.Books.{
  op_of, in_air, flights, busy, Books, find-Keyed, has_id, put-Books, found_waiting,
}
use netbench.Sender.Flights.{Booked, idle_busy, run_action-Booked}
use netbench.Sender.Completions.{at_rest, Ended, process_res-Booked}
use netbench.Sender.Actions.{process_cqe, become_ready}
use netbench.Sender.Loop.{wait_ended, process_due, process_waits}

module _ {S : Type 0} (done_last done_error : S → ℕ → ActionOp → Result (S × List Action)) where
  -- `runAction` on a connection that is at rest or not there, `queueOne` becoming ready, the kernel
  -- completing one of the submissions, and `processWaits`.
  pub data Step (t : Sender S) : Sender S → Type 0 where
    act :
        (a : Action) {t' : Sender S}
        → ((c : Connection) → find a.id t.connections ≡ some c → is_idle c.current ≡ true)
        → run_action t a ≡ ok t'
        → Step t t'
    get_ready : {t' : Sender S} → become_ready done_last done_error t ≡ ok t' → Step t t'
    complete :
        (i : ℕ) (q : Request) (res : Res) (before after : List (ℕ × Request)) {t' : Sender S}
        → t.sqes ≡ before ++ (i, q) ∷ after
        → (i == udata_timeout) ≡ false
        → process_cqe done_last done_error (record t { sqes = before ++ after }) i res ≡ ok t'
        → Step t t'
    wait : (now : ℕ) {t' : Sender S} → process_waits done_last done_error t now ≡ ok t' → Step t t'

  pub data Reaches (t : Sender S) : Sender S → Type 0 where
    here : Reaches t t
    next : {u v : Sender S} → Reaches t u → Step u v → Reaches t v

flights-split :
    (i : ℕ) (o : ActionOp) (j : ℕ) (q : Request) (before after : List (ℕ × Request))
    → flights i o (before ++ (j, q) ∷ after)
      ≡ flights i o (before ++ after) + (if j == i then in_air (op_of q) o else 0)
flights-split i o j q [] after = omega arith
flights-split i o j q ((k, r) ∷ before) after = omega (arith, flights-split i o j q before after)

in_air_self : (q : Request) → in_air (op_of q) (op_of q) ≡ 1
in_air_self do_connect = refl
in_air_self do_close = refl
in_air_self (do_recv n) = refl
in_air_self (do_sendmsg parts) = refl

-- A submission that is under way has its connection, which waits for it.
waiting_for :
    {S : Type 0} (t : Sender S) (i : ℕ) (q : Request) (before after : List (ℕ × Request))
    → Booked t
    → t.sqes ≡ before ++ (i, q) ∷ after
    → (c : Connection) × (find i t.connections ≡ some c) × (c.current ≡ op_of q)
waiting_for t i q before after b there =
    let split = ap (flights i (op_of q)) there ∙ flights-split i (op_of q) i q before after in
    let own : (if i == i then in_air (op_of q) (op_of q) else 0) ≡ 1 =
      ground (arith, in_air_self q) in
    found_waiting i q t.connections (omega (arith, b.awaited i (op_of q), split, own)) (b.single i)
      b.keyed

-- The connection of a completion, or of a wait that is over.
ended :
    {S : Type 0} (t : Sender S) (c : Connection) (sqes : List (ℕ × Request))
    → Booked t
    → find c.id t.connections ≡ some c
    → ((i : ℕ) (o : ActionOp) → flights i o t.sqes ≡ flights i o sqes + busy i o c)
    → Ended (record t { sqes = sqes }) c
unfolding is_idle
ended t c sqes b found left = record {
  found = found;
  rested =
      put-Books c.id c (at_rest c) t.connections t.sqes sqes b found refl
        λ i o. omega (arith, left i o, idle_busy i o (at_rest c) refl);
}

busy_of :
    (i j : ℕ) (o : ActionOp) (q : Request) (c : Connection)
    → i ≡ c.id
    → c.current ≡ op_of q
    → (if i == j then in_air (op_of q) o else 0) ≡ busy j o c
busy_of i j o q c same waits = rw (same, waits) refl

complete-Booked :
    {S : Type 0} (done_last done_error : S → ℕ → ActionOp → Result (S × List Action))
    (t t' : Sender S) (i : ℕ) (q : Request) (res : Res) (before after : List (ℕ × Request))
    → Booked t
    → t.sqes ≡ before ++ (i, q) ∷ after
    → (i == udata_timeout) ≡ false
    → process_cqe done_last done_error (record t { sqes = before ++ after }) i res ≡ ok t'
    → Booked t'
unfolding process_cqe
complete-Booked done_last done_error t t' i q res before after b there real e =
    let (c, found, waits) = waiting_for t i q before after b there in
    let same : i ≡ c.id = find-Keyed i c t.connections b.keyed found in
    let t1 : Sender _ = record t { sqes = before ++ after; outstanding = t.outstanding - 1 } in
    process_res-Booked done_last done_error t1 t' c res
      (ended (record t { outstanding = t.outstanding - 1 }) c (before ++ after) b (rw same at found)
        λ j o.
          ap (flights j o) there
          ∙ flights-split j o i q before after
          ∙ ap (λ n. flights j o (before ++ after) + n) (busy_of i j o q c same waits))
      (rw (found, process_cqe) at (rw (real, process_cqe) at e))

ready-Booked :
    {S : Type 0} (done_last done_error : S → ℕ → ActionOp → Result (S × List Action))
    (t t' : Sender S)
    → Booked t
    → become_ready done_last done_error t ≡ ok t'
    → Booked t'
unfolding become_ready
ready-Booked done_last done_error t t' b e =
    let (told, heard, end) = bind-ok (done_last t.scenario 0 ready) _ e in
    subst Booked (ok-inj end) b

start-Booked : {S : Type 0} (t : Sender S) → t.connections ≡ [] → t.sqes ≡ [] → Booked t
start-Booked t no_connections no_sqes = rw (no_connections, no_sqes) empty
  where
    empty : Books [] []
    empty = record { awaited = λ i o. refl; single = λ i. omega arith; keyed = tt }

is_wait : (o : ActionOp) → is_op o wait_until ≡ true → o ≡ wait_until
unfolding is_op
is_wait wait_until h = refl
is_wait unknown h = cc
is_wait connect h = cc
is_wait disconnect h = cc
is_wait recv h = cc
is_wait send h = cc
is_wait ready h = cc

module _ {S : Type 0} (done_last done_error : S → ℕ → ActionOp → Result (S × List Action)) where
  wait_ended-Booked :
      (t t' : Sender S) (i : ℕ) → Booked t → wait_ended done_last done_error t i ≡ ok t' → Booked t'
  unfolding wait_ended
  wait_ended-Booked t t' i b e = elim (Option-cases (find i t.connections)) [
    | inl gone ↦ subst Booked (ok-inj (rw (gone, wait_ended) at e)) b
    | inr (c, found) ↦
        let e1 = rw (found, wait_ended) at e in
        elim (Bool-cases (is_op c.current disconnect)) [
          | inl leaving ↦ subst Booked (ok-inj (rw leaving at e1)) b
          | inr stays ↦ elim (Bool-cases (is_op c.current wait_until)) [
            | inr other ↦ let absurdity = rw other at (rw stays at e1) in cc
            | inl waits ↦
                let same : i ≡ c.id = find-Keyed i c t.connections b.keyed found in
                process_res-Booked done_last done_error t t' c (success 0)
                  (ended t c t.sqes b (rw same at found)
                    λ j o. rw (is_wait c.current waits) (ground arith))
                  (rw waits at (rw stays at e1))
          ]
        ]
  ]

  process_due-Booked :
      (t t' : Sender S) (waits : List (ℕ × ℕ)) (now : ℕ)
      → Booked t
      → process_due done_last done_error t waits now ≡ ok t'
      → Booked t'
  unfolding process_due
  process_due-Booked t t' [] now b e = subst Booked (ok-inj e) b
  process_due-Booked t t' ((until, i) ∷ waits) now b e = elim (Bool-cases (leb until now)) [
    | inr early ↦ subst Booked (ok-inj (rw early at e)) b
    | inl due ↦
        let (t1, one, rest) = bind-ok (wait_ended done_last done_error t i) _ (rw due at e) in
        process_due-Booked t1 t' waits now (wait_ended-Booked t t1 i b one) rest
  ]

module _ {S : Type 0} (done_last done_error : S → ℕ → ActionOp → Result (S × List Action)) where
  Step-Booked : {t t' : Sender S} → Step done_last done_error t t' → Booked t → Booked t'
  unfolding process_waits
  Step-Booked {t} {t'} (act a idle e) b = run_action-Booked t t' a b idle e
  Step-Booked {t} {t'} (get_ready e) b = ready-Booked done_last done_error t t' b e
  Step-Booked {t} {t'} (complete i q res before after there real e) b =
      complete-Booked done_last done_error t t' i q res before after b there real e
  Step-Booked {t} {t'} (wait now e) b = process_due-Booked done_last done_error t t' t.waits now b e

  Reaches-Booked : {t t' : Sender S} → Reaches done_last done_error t t' → Booked t → Booked t'
  Reaches-Booked here b = b
  Reaches-Booked (next before step) b = Step-Booked step (Reaches-Booked before b)

  -- In every state that a new `Sender` can reach, if no action interrupts a connection that is busy, each
  -- submission that is prepared or under way belongs to a connection that is there and whose current
  -- action is the one submitted; and each connection has as many submissions of a kind as it has
  -- current actions of that kind, one or none.
  pub Reaches-owned :
      (t t' : Sender S)
      → t.connections ≡ []
      → t.sqes ≡ []
      → Reaches done_last done_error t t'
      → ((i : ℕ) (q : Request) (before after : List (ℕ × Request))
          → t'.sqes ≡ before ++ (i, q) ∷ after
          → (c : Connection) × (find i t'.connections ≡ some c) × (c.current ≡ op_of q))
        × ((i : ℕ) (o : ActionOp) → flights i o t'.sqes ≡ total (busy i o) t'.connections)
        × ((i : ℕ) → total (has_id i) t'.connections ≤ 1)
  Reaches-owned t t' no_connections no_sqes run =
      let b = Reaches-Booked run (start-Booked t no_connections no_sqes) in
      (λ i q before after there. waiting_for t' i q before after b there, b.awaited, b.single)
