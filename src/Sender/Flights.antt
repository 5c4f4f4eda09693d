-- ===== src/Sender/Flights.antt =====
-- The operations of `Sender` and the books of its submissions.
use mathlib.Core.Path.{subst}
use netbench.Base.{
  ℕ, ◌≡◌, refl, sym, ◌∙◌, some, List, ◌∷◌, arith, ◌==◌, if◌then◌else◌, true, inl, inr, Bool-cases,
  Option-cases, ◌%◌, ◌^◌,
}
use netbench.Base.Results.{ok, ok-inj}
use netbench.Base.Assoc.{find, put, find-put_self, find_head}
use netbench.Scenarios.{
  ActionOp, unknown, connect, disconnect, recv, send, ready, wait_until, Action,
}
use netbench.Sender.{
  Request, do_connect, do_close, do_recv, do_sendmsg, Connection, new_connection, Sender, push,
  try_get_connection, queue_connect, queue_send, start_send, queue_new_send, queue_recv,
  queue_wait_until, start_action, segments, is_idle, is_op, run_on, run_action,
}
use netbench.Sender.Books.{op_of, in_air, busy, Books, find-Keyed, put-Books, new-Books}

abbrev pub Booked : {S : Type 0} → Sender S → Type 0
Booked t = Books t.connections t.sqes

pub idle_in_air : (a o : ActionOp) → is_idle a ≡ true → in_air a o ≡ 0
unfolding is_idle
idle_in_air unknown o e = ground arith
idle_in_air connect o e = cc
idle_in_air disconnect o e = cc
idle_in_air recv o e = cc
idle_in_air send o e = cc
idle_in_air ready o e = cc
idle_in_air wait_until o e = cc

pub idle_busy : (i : ℕ) (o : ActionOp) (c : Connection) → is_idle c.current ≡ true → busy i o c ≡ 0
idle_busy i o c e = ground (arith, idle_in_air c.current o e)

-- An idle connection starts an action with a submission of its kind.
start-Books :
    (c c' : Connection) (q : Request) (conns : List (ℕ × Connection)) (sqes : List (ℕ × Request))
    → Books conns sqes
    → find c.id conns ≡ some c
    → is_idle c.current ≡ true
    → c'.id ≡ c.id
    → c'.current ≡ op_of q
    → Books (put c.id c' conns) ((c.id, q) ∷ sqes)
start-Books c c' q conns sqes b found idle same op =
    put-Books c.id c c' conns sqes ((c.id, q) ∷ sqes) b found same
      λ i o. omega (arith, idle_busy i o c idle, new_flight i o)
  where
    new_flight :
        (i : ℕ) (o : ActionOp) → busy i o c' ≡ (if c.id == i then in_air (op_of q) o else 0)
    new_flight i o = rw (same, op) refl

-- The connection is written once more, with nothing changed that the books look at.
again-Books :
    (c c' c2 : Connection) (conns : List (ℕ × Connection)) (sqes : List (ℕ × Request))
    → find c.id conns ≡ some c
    → c'.id ≡ c.id
    → c2.id ≡ c.id
    → c2.current ≡ c'.current
    → Books (put c.id c' conns) sqes
    → Books (put c.id c2 (put c.id c' conns)) sqes
again-Books c c' c2 conns sqes found same same2 op b =
    put-Books c.id c' c2 (put c.id c' conns) sqes sqes b (find-put_self c.id c' c conns found)
      (same2 ∙ sym same) λ i o. rw (same, same2, op) refl

abbrev at_op : Connection → ActionOp → Connection
at_op c o = record c { current = o }

abbrev begun : {S : Type 0} → Sender S → Connection → ActionOp → Sender S
begun t c o = record t { connections = put c.id (at_op c o) t.connections }

start_action-Booked :
    {S : Type 0} (t t' : Sender S) (c : Connection) (o : ActionOp) (param : ℕ)
    → Booked t
    → find c.id t.connections ≡ some c
    → is_idle c.current ≡ true
    → start_action (begun t c o) (at_op c o) o param ≡ ok t'
    → Booked t'
unfolding start_action queue_connect push queue_recv queue_new_send queue_send queue_wait_until
    start_send
start_action-Booked t t' c unknown param b found idle h = let absurdity = h in cc
start_action-Booked t t' c ready param b found idle h = let absurdity = h in cc
start_action-Booked t t' c connect param b found idle h = subst Booked (ok-inj h) (
    again-Books c (at_op c connect) (record c { current = connect; fd = true }) t.connections
      ((c.id, do_connect) ∷ t.sqes) found refl refl refl
      (start-Books c (at_op c connect) do_connect t.connections t.sqes b found idle refl refl))
start_action-Booked t t' c disconnect param b found idle h =
    subst Booked (ok-inj h)
      (start-Books c (at_op c disconnect) do_close t.connections t.sqes b found idle refl refl)
start_action-Booked t t' c recv param b found idle h = subst Booked (ok-inj h) (
    again-Books c (at_op c recv) (record c { current = recv; remaining = param % 2 ^ 32 })
      t.connections ((c.id, do_recv (param % 2 ^ 32)) ∷ t.sqes) found refl refl refl
      (start-Books c (at_op c recv) (do_recv (param % 2 ^ 32)) t.connections t.sqes b found idle
        refl refl))
start_action-Booked t t' c send param b found idle h = subst Booked (ok-inj h) (
    again-Books c (at_op c send) (start_send (at_op c send) (param % 2 ^ 32)) t.connections
      ((c.id, do_sendmsg (segments (start_send (at_op c send) (param % 2 ^ 32)))) ∷ t.sqes) found
      refl refl refl
      (start-Books c (at_op c send)
        (do_sendmsg (segments (start_send (at_op c send) (param % 2 ^ 32)))) t.connections t.sqes b
        found idle refl refl))
start_action-Booked t t' c wait_until param b found idle h = subst Booked (ok-inj h) (
    put-Books c.id c (at_op c wait_until) t.connections t.sqes t.sqes b found refl
      λ i o. ground (arith, idle_busy i o c idle))

run_on-Booked :
    {S : Type 0} (t t' : Sender S) (c : Connection) (a : Action)
    → Booked t
    → find c.id t.connections ≡ some c
    → is_idle c.current ≡ true
    → run_on t c a ≡ ok t'
    → Booked t'
unfolding run_on
run_on-Booked t t' c a b found idle e =
    start_action-Booked t t' c a.op a.param b found idle (rw (idle, run_on) at e)

-- An action that finds its connection idle, or none, keeps the books.
pub run_action-Booked :
    {S : Type 0} (t t' : Sender S) (a : Action)
    → Booked t
    → ((c : Connection) → find a.id t.connections ≡ some c → is_idle c.current ≡ true)
    → run_action t a ≡ ok t'
    → Booked t'
unfolding run_action try_get_connection
run_action-Booked t t' a b idle e = elim (Bool-cases (is_op a.op ready)) [
  | inl is_ready ↦ subst Booked (ok-inj (rw (is_ready, run_action) at e)) b
  | inr other ↦
      let e1 = rw (other, run_action) at e in
      elim (Option-cases (find a.id t.connections)) [
        | inr (c, found) ↦
            let same = find-Keyed a.id c t.connections b.keyed found in
            run_on-Booked t t' c a b (rw same at found) (idle c found)
              (rw (found, try_get_connection) at e1)
        | inl fresh ↦ elim (Bool-cases (is_op a.op connect)) [
          | inr dropped ↦
              subst Booked (ok-inj (rw dropped at (rw (fresh, try_get_connection) at e1))) b
          | inl created ↦
              run_on-Booked (record t { connections = (a.id, new_connection a.id) ∷ t.connections })
                t' (new_connection a.id) a (new-Books a.id t.connections t.sqes b fresh)
                (find_head a.id (new_connection a.id) t.connections) refl
                (rw created at (rw (fresh, try_get_connection) at e1))
        ]
      ]
]
