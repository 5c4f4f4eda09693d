-- ===== src/EpollSender/Sends.antt =====
-- What `EpollSender` has given to the kernel.
use netbench.Base.{
  ℕ, zero, suc, ◌+◌, ◌-◌, ◌≡◌, Option, none, some, List, [], ◌∷◌, ltb, ◌==◌, if◌then◌else◌, Bool,
  true, false, inl, inr, get_elem?, Bool-cases, Option-cases,
}
use mathlib.Core.Path.{subst}
use netbench.Base.Results.{Result, ok, bind-ok, step-ok, ok-inj}
use netbench.Uring.{Res, success, failure}
use netbench.Util.{eintr}
use netbench.EpollSender.{
  eagain, EpollConnection, EpollSender, start, do_connect, sent, do_send, read_loop, do_read,
  EpollEvent, on_event, on_events, send_all, run,
}
use netbench.EpollSender.Pieces.{
  FromStart, set_connection-AllFromStart, get_elem?-FromStart, Restarts, Kept, KeptRead,
  do_connect-Restarts, do_send-Restarts,
}

read_loop-Restarts :
    (t : EpollSender) (i : ℕ) (c : EpollConnection) (e : ℕ) (answers : List Res) (now : ℕ)
    (end : Option (EpollSender × Bool))
    → Restarts t
    → FromStart c
    → read_loop t i c e answers now ≡ ok end
    → KeptRead end
unfolding read_loop
read_loop-Restarts t i c e [] now end k known h = subst KeptRead (ok-inj h) tt
read_loop-Restarts t i c e (success zero ∷ answers) now end k known h =
    elim (Bool-cases (e == eintr)) [
      | inl again ↦ let absurdity = rw again at h in cc
      | inr other ↦ let absurdity = rw other at h in cc
    ]
read_loop-Restarts t i c e (success (suc n) ∷ answers) now end k known h =
    elim (Bool-cases (ltb c.to_recv (suc n))) [
      | inl much ↦ let absurdity = rw much at h in cc
      | inr fits ↦ elim (Bool-cases (suc n == c.to_recv)) [
        | inl whole ↦
            subst KeptRead (ok-inj (rw (fits, whole) at h)) (
              set_connection-AllFromStart t.connections i (some (record c { to_recv = 0 })) k known)
        | inr part ↦ subst KeptRead (ok-inj (rw (fits, part) at h)) (
            set_connection-AllFromStart t.connections i
              (some (record c { to_recv = c.to_recv - suc n })) k known)
      ]
    ]
read_loop-Restarts t i c e (failure e2 ∷ answers) now end k known h =
    elim (Bool-cases (e2 == eagain)) [
      | inl empty ↦ subst KeptRead (ok-inj (rw empty at h)) k
      | inr other ↦ elim (Bool-cases (e2 == eintr)) [
        | inl again ↦
            read_loop-Restarts (record t { recv_errors = t.recv_errors + 1 }) i c e2 answers now end
              k known (rw (other, again) at h)
        | inr broken ↦ let absurdity = rw (other, broken) at h in cc
      ]
    ]

do_read-Restarts :
    (t : EpollSender) (i e : ℕ) (answers : List Res) (now : ℕ) (end : Option (EpollSender × Bool))
    → Restarts t
    → do_read t i e answers now ≡ ok end
    → KeptRead end
unfolding do_read
do_read-Restarts t i e answers now end k h = elim (Option-cases (get_elem? t.connections i)) [
  | inl outside ↦ let absurdity = rw (outside, do_read) at h in cc
  | inr (none, closed) ↦ subst KeptRead (ok-inj (rw (closed, do_read) at h)) k
  | inr (some c, there) ↦
      read_loop-Restarts t i c e answers now end k (get_elem?-FromStart t.connections i c k there)
        (rw (there, do_read) at h)
]

on_event-Restarts :
    (t : EpollSender) (i : ℕ) (ev : EpollEvent) (end : Option EpollSender)
    → Restarts t
    → on_event t i ev ≡ ok end
    → Kept end
unfolding on_event
on_event-Restarts t i ev end k h = elim (Bool-cases ev.input) [
  | inl input ↦
      let (seen, read, rest) =
        bind-ok (do_read t i ev.garbage ev.received ev.now) _ (rw (input, on_event) at h) in
      after seen (do_read-Restarts t i ev.garbage ev.received ev.now seen k read) rest
  | inr other ↦ elim (Bool-cases ev.output) [
    | inl output ↦
        do_send-Restarts t i true ev.taken ev.now end k
          (rw (output, on_event) at (rw (other, on_event) at h))
    | inr nothing ↦ subst Kept (ok-inj (rw (other, nothing, on_event) at h)) k
  ]
]
  where
    after :
        (seen : Option (EpollSender × Bool))
        → KeptRead seen
        → (elim seen as (λ seen. Result (Option EpollSender)) [
          | none ↦ ok none
          | some (t', whole) ↦ if whole then do_send t' i false ev.taken ev.now else ok (some t')
        ])
          ≡ ok end
        → Kept end
    after none known h = subst Kept (ok-inj h) tt
    after (some (t', true)) known h = do_send-Restarts t' i false ev.taken ev.now end known h
    after (some (t', false)) known h = subst Kept (ok-inj h) known

on_events-Restarts :
    (t : EpollSender) (i : ℕ) (events : List EpollEvent) (end : Option EpollSender)
    → Restarts t
    → on_events t i events ≡ ok end
    → Kept end
unfolding on_events
on_events-Restarts t i [] end k h = subst Kept (ok-inj h) k
on_events-Restarts t i (ev ∷ events) end k h =
    elim (step-ok (on_event t i ev) (λ t1. on_events t1 (i + 1) events) end h) [
      | inl lasts ↦ rw lasts tt
      | inr (t1, came, rest) ↦
          on_events-Restarts t1 (i + 1) events end (on_event-Restarts t i ev (some t1) k came) rest
    ]

send_all-Restarts :
    (t : EpollSender) (i : ℕ) (more : List (List Res)) (now : ℕ) (end : Option EpollSender)
    → Restarts t
    → send_all t i more now ≡ ok end
    → Kept end
unfolding send_all
send_all-Restarts t i [] now end k h = subst Kept (ok-inj h) k
send_all-Restarts t i (answers ∷ more) now end k h =
    elim (step-ok (do_send t i false answers now) (λ t1. send_all t1 (i + 1) more now) end h) [
      | inl lasts ↦ rw lasts tt
      | inr (t1, came, rest) ↦
          send_all-Restarts t1 (i + 1) more now end
            (do_send-Restarts t i false answers now (some t1) k came) rest
    ]

run-Kept :
    (end : ℕ) (t : EpollSender) (rounds : List (ℕ × List EpollEvent)) (left : Option EpollSender)
    → Restarts t
    → run end t rounds ≡ ok left
    → Kept left
unfolding run
run-Kept end t [] left k h = subst Kept (ok-inj h) tt
run-Kept end t ((now, events) ∷ rounds) left k h = elim (Bool-cases (ltb now end)) [
  | inr late ↦ subst Kept (ok-inj (rw late at h)) k
  | inl early ↦
      elim (step-ok (on_events t 0 events) (λ t1. run end t1 rounds) left (rw early at h)) [
        | inl lasts ↦ rw lasts tt
        | inr (t1, came, rest) ↦
            run-Kept end t1 rounds left (on_events-Restarts t 0 events (some t1) k came) rest
      ]
]

-- In a run of `EpollSender`, from its constructor over its connects and first sends to the end of its
-- rounds, each piece that the kernel has taken, on any connection, comes from the start of the buffer:
-- what remains of a message that the kernel took in part is not what is sent after that part.
pub run-Restarts :
    (size resp : ℕ) (made : List Bool) (first : List (List Res)) (now end : ℕ)
    (rounds : List (ℕ × List EpollEvent)) (t1 t2 t3 : EpollSender)
    → do_connect (start size resp) made ≡ ok t1
    → send_all t1 0 first now ≡ ok (some t2)
    → run end t2 rounds ≡ ok (some t3)
    → Restarts t3
unfolding start
run-Restarts size resp made first now end rounds t1 t2 t3 connected sent ran =
    let k1 = do_connect-Restarts (start size resp) t1 made tt connected in
    run-Kept end t2 rounds (some t3) (send_all-Restarts t1 0 first now (some t2) k1 sent) ran
