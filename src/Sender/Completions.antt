-- ===== src/Sender/Completions.antt =====
-- A completion that `Sender` handles, and the books of its submissions.
use mathlib.Core.Path.{subst}
use netbench.Base.{
  ℕ, zero, suc, ◌+◌, ◌-◌, ◌≡◌, refl, ap, sym, ◌∙◌, some, List, ◌∷◌, arith, ltb, min, if◌then◌else◌,
  Bool, true, false, inl, inr, Bool-cases, some-inj,
}
use netbench.Base.Results.{Result, ok, bind-ok, ok-inj}
use netbench.Base.Assoc.{find, put, find-put_self, put-put}
use netbench.Scenarios.{
  ActionOp, unknown, connect, disconnect, recv, send, ready, wait_until, Action, action,
}
use netbench.Uring.{Res, success, failure}
use netbench.Sender.{
  Request, do_recv, do_sendmsg, Connection, Sender, push, queue_recv, queue_send, segments, is_idle,
}
use netbench.Sender.Books.{op_of, flights, busy, Books, put-Books, erase-Books}
use netbench.Sender.Flights.{Booked, idle_busy, run_action-Booked}
use netbench.Sender.Actions.{
  Outcome, too_many_connect_errors, connect_result, recv_result, stats_finished_write, send_result,
  op_result, rest, conclude, finish, process_res,
}

abbrev pub at_rest : Connection → Connection
at_rest c = record c { current = unknown }

-- A connection whose submission has completed: the books are right once it is at rest.
pub record Ended {S : Type 0} (t : Sender S) (c : Connection) : Type 0 where
  pub found : find c.id t.connections ≡ some c
  pub rested : Books (put c.id (at_rest c) t.connections) t.sqes

-- The connection goes on, and the submissions with it.
resume-Books :
    (c c2 : Connection) (conns : List (ℕ × Connection)) (sqes sqes' : List (ℕ × Request))
    → find c.id conns ≡ some c
    → Books (put c.id (at_rest c) conns) sqes
    → c2.id ≡ c.id
    → ((i : ℕ) (o : ActionOp) → flights i o sqes' ≡ flights i o sqes + busy i o c2)
    → Books (put c.id c2 conns) sqes'
unfolding is_idle
resume-Books c c2 conns sqes sqes' found b same more = rw (← put-put c.id (at_rest c) c2 conns) (
    put-Books c.id (at_rest c) c2 (put c.id (at_rest c) conns) sqes sqes' b
      (find-put_self c.id (at_rest c) c conns found) same
      λ i o. omega (arith, more i o, idle_busy i o (at_rest c) refl))

-- The rest of a transfer is submitted.
part-Books :
    {S : Type 0} (t : Sender S) (c c2 : Connection) (q : Request)
    → Ended t c
    → c2.id ≡ c.id
    → c2.current ≡ op_of q
    → Books (put c.id c2 t.connections) ((c.id, q) ∷ t.sqes)
part-Books t c c2 q ended same op =
    resume-Books c c2 t.connections t.sqes ((c.id, q) ∷ t.sqes) ended.found ended.rested same
      λ i o. rw (same, op) (omega arith)

-- What `op_result` may find: the action is over and nothing else has changed, or it goes on.
data Course {S : Type 0} (t : Sender S) (c : Connection) (o : Outcome S) : Type 0 where
  over :
      o.finished ≡ true
      → o.sender.connections ≡ t.connections
      → o.sender.sqes ≡ t.sqes
      → o.connection.id ≡ c.id
      → Course t c o
  goes_on :
      o.finished ≡ false
      → Books (put c.id (o.connection) o.sender.connections) o.sender.sqes
      → Course t c o

connect_result-Course :
    {S : Type 0} (t : Sender S) (c : Connection) (res : Res) (o : Outcome S)
    → connect_result t c res ≡ ok o
    → Course t c o
unfolding connect_result
connect_result-Course t c (success n) o e = subst (Course t c) (ok-inj e) (over refl refl refl refl)
connect_result-Course t c (failure n) o e =
    elim (Bool-cases
      (too_many_connect_errors (record t { connect_errors = t.connect_errors + 1 }))) [
        | inl many ↦ let absurdity = rw (many, connect_result) at e in cc
        | inr few ↦
            subst (Course t c) (ok-inj (rw (few, connect_result) at e)) (over refl refl refl refl)
      ]

recv_result-Course :
    {S : Type 0} (t : Sender S) (c : Connection) (res : Res)
    → Ended t c
    → c.current ≡ recv
    → Course t c (recv_result t c res)
unfolding recv_result queue_recv push
recv_result-Course t c (failure e) ended op = over refl refl refl refl
recv_result-Course t c (success zero) ended op = over refl refl refl refl
recv_result-Course t c (success (suc n)) ended op =
    let c1 = record c { remaining = c.remaining - suc n } in
    elim (Bool-cases (ltb (suc n) c.remaining)) [
      | inr whole ↦ rw whole (over refl refl refl refl)
      | inl part ↦ rw part (
          goes_on refl (
            rw (put-put c.id c1 c1 t.connections)
              (part-Books t c c1 (do_recv (c.remaining - suc n)) ended refl op)))
    ]

stats_connections :
    {S : Type 0} (t : Sender S) (n : ℕ) → (stats_finished_write t n).connections ≡ t.connections
unfolding stats_finished_write
stats_connections t n = ground arith

stats_sqes : {S : Type 0} (t : Sender S) (n : ℕ) → (stats_finished_write t n).sqes ≡ t.sqes
unfolding stats_finished_write
stats_sqes t n = ground arith

send_result-Course :
    {S : Type 0} (t : Sender S) (c : Connection) (res : Res)
    → Ended t c
    → c.current ≡ send
    → Course t c (send_result t c res)
unfolding send_result queue_send push
send_result-Course t c (failure e) ended op = over refl refl refl refl
send_result-Course t c (success zero) ended op = over refl refl refl refl
send_result-Course t c (success (suc n)) ended op =
    let c1 = record c { remaining = c.remaining - min c.remaining (suc n) } in
    elim (Bool-cases (ltb 0 (c.remaining - min c.remaining (suc n)))) [
      | inr whole ↦ rw whole (over refl (stats_connections t (suc n)) (stats_sqes t (suc n)) refl)
      | inl part ↦
          rw part (goes_on refl (part-Books t c c1 (do_sendmsg (segments c1)) ended refl op))
    ]

op_result-Course :
    {S : Type 0} (t : Sender S) (c : Connection) (res : Res) (out : Outcome S) (o : ActionOp)
    → Ended t c
    → c.current ≡ o
    → op_result t c o res ≡ ok out
    → Course t c out
unfolding op_result
op_result-Course t c res out connect ended op e = connect_result-Course t c res out e
op_result-Course t c res out recv ended op e =
    subst (Course t c) (ok-inj e) (recv_result-Course t c res ended op)
op_result-Course t c res out send ended op e =
    subst (Course t c) (ok-inj e) (send_result-Course t c res ended op)
op_result-Course t c res out wait_until ended op e =
    subst (Course t c) (ok-inj e) (over refl refl refl refl)
op_result-Course t c res out disconnect ended op e =
    subst (Course t c) (ok-inj e) (over refl refl refl refl)
op_result-Course t c res out unknown ended op e =
    subst (Course t c) (ok-inj e) (over refl refl refl refl)
op_result-Course t c res out ready ended op e =
    subst (Course t c) (ok-inj e) (over refl refl refl refl)

rest-idle :
    (c : Connection) (was_error : Bool)
    → (is_idle (rest c was_error).current ≡ true) × ((rest c was_error).id ≡ c.id)
unfolding rest is_idle
rest-idle c true = (refl, refl)
rest-idle c false = (refl, refl)

conclude-Booked :
    {S : Type 0} (t t' : Sender S) (c : Connection) (kill : Bool)
    → Booked t
    → find c.id t.connections ≡ some c
    → is_idle c.current ≡ true
    → conclude t c kill ≡ ok t'
    → Booked t'
unfolding conclude
conclude-Booked t t' c true b found idle e =
    subst Booked (ok-inj e)
      (erase-Books c.id c t.connections t.sqes b found λ i o. idle_busy i o c idle)
conclude-Booked t t' c false b found idle e = elim (Bool-cases c.want_close) [
  | inl closing ↦
      run_action-Booked t t' (action disconnect c.id 0) b
        (λ d there.
          let same : d ≡ c = some-inj (sym there ∙ found) in
          ap (λ c. is_idle c.current) same ∙ idle)
        (rw (closing, conclude) at e)
  | inr stays ↦ subst Booked (ok-inj (rw (stays, conclude) at e)) b
]

module _ {S : Type 0} (done_last done_error : S → ℕ → ActionOp → Result (S × List Action))
    (t t' : Sender S) (c : Connection) where
  finish-Booked :
      (out : Outcome S) (was : ActionOp)
      → Ended t c
      → out.sender.connections ≡ t.connections
      → out.sender.sqes ≡ t.sqes
      → out.connection.id ≡ c.id
      → finish done_last done_error out was ≡ ok t'
      → Booked t'
  unfolding finish
  finish-Booked out was ended conns sqes same e =
      let (told, heard, end) =
        bind-ok
          (if out.was_error
            then done_error out.sender.scenario (rest (out.connection) out.was_error).id was
            else done_last out.sender.scenario (rest (out.connection) out.was_error).id was)
          _ e in
      let (idle, kept) = rest-idle (out.connection) out.was_error in
      let c1 = rest (out.connection) out.was_error in
      let at : c1.id ≡ c.id = kept ∙ same in
      let found1 : find c1.id (put c1.id c1 out.sender.connections) ≡ some c1 =
        rw (at, conns) (find-put_self c.id c1 c t.connections ended.found) in
      let books : Books (put c1.id c1 out.sender.connections) out.sender.sqes =
        rw (at, conns, sqes)
          (resume-Books c c1 t.connections t.sqes t.sqes ended.found ended.rested at
            λ i o. omega (arith, idle_busy i o c1 idle)) in
      conclude-Booked _ t' c1 out.kill books found1 idle end

  -- `processRes` for a connection whose submission has completed.
  pub process_res-Booked :
      (res : Res) → Ended t c → process_res done_last done_error t c res ≡ ok t' → Booked t'
  unfolding process_res
  process_res-Booked res ended e =
      let (out, found, rest) = bind-ok (op_result t c c.current res) _ e in
      elim (op_result-Course t c res out c.current ended refl found) [
        | over finished conns sqes same ↦
            finish-Booked out c.current ended conns sqes same (rw finished at rest)
        | goes_on unfinished b ↦ subst Booked (ok-inj (rw unfinished at rest)) b
      ]
