-- ===== src/EpollSender/Events.antt =====
-- Which connections of `EpollSender` a round serves.
use netbench.Base.{
  ℕ, zero, suc, ◌+◌, ◌≤◌, ◌≡◌, refl, ◌∙◌, Option, none, some, List, [], ◌∷◌, arith, ltb, ◌==◌,
  if◌then◌else◌, Bool, true, false, inl, inr, get_elem?, length, Bool-cases, Option-cases,
}
use mathlib.Core.Path.{subst}
use netbench.Base.Results.{Result, ok, bind-ok, step-ok, ok-inj}
use netbench.Uring.{Res, success, failure}
use netbench.Util.{eintr}
use netbench.EpollSender.{
  eagain, EpollConnection, EpollSender, set_connection, SendEnd, all_sent, blocked, still_sending,
  send_loop, sent, rewound, do_send, read_loop, do_read, EpollEvent, on_event, on_events,
}

-- The connections from a place on are as they were.
abbrev pub SameFrom : ℕ → EpollSender → EpollSender → Type 0
SameFrom n t t' = (j : ℕ) → n ≤ j → get_elem? t'.connections j ≡ get_elem? t.connections j

get_elem?-set_connection :
    (connections : List (Option EpollConnection)) (i j : ℕ) (c : Option EpollConnection)
    → suc i ≤ j
    → get_elem? (set_connection connections i c) j ≡ get_elem? connections j
unfolding set_connection
get_elem?-set_connection [] i j c lt = refl
get_elem?-set_connection (old ∷ connections) zero zero c lt = absurd (omega arith)
get_elem?-set_connection (old ∷ connections) zero (suc j) c lt = refl
get_elem?-set_connection (old ∷ connections) (suc i) zero c lt = absurd (omega arith)
get_elem?-set_connection (old ∷ connections) (suc i) (suc j) c lt =
    get_elem?-set_connection connections i j c (omega arith)

abbrev Kept : ℕ → EpollSender → Option EpollSender → Type 0
Kept n t none = Unit
Kept n t (some t') = SameFrom n t t'

abbrev KeptRead : ℕ → EpollSender → Option (EpollSender × Bool) → Type 0
KeptRead n t none = Unit
KeptRead n t (some t') = SameFrom n t t'.0

do_send-Kept :
    (t : EpollSender) (i : ℕ) (from_poll : Bool) (answers : List Res) (now : ℕ)
    (end : Option EpollSender)
    → do_send t i from_poll answers now ≡ ok end
    → Kept (i + 1) t end
unfolding do_send sent
do_send-Kept t i from_poll answers now end e = elim (Option-cases (get_elem? t.connections i)) [
  | inl outside ↦ let absurdity = rw (outside, do_send) at e in cc
  | inr (none, closed) ↦ let absurdity = rw (closed, do_send) at e in cc
  | inr (some c, there) ↦
      let (left, ended, rest) =
        bind-ok (send_loop (rewound t c from_poll) 0 answers) _ (rw (there, do_send) at e) in
      after left rest
]
  where
    after :
        (left : SendEnd)
        → (elim left as (λ left. Result (Option EpollSender)) [
          | all_sent c1 errors ↦ ok (some (sent t i c1 errors from_poll now))
          | blocked c1 errors ↦ ok (
              some (record t {
                connections =
                    set_connection t.connections i
                      (some (if from_poll then c1 else record c1 { watch_output = true }));
                send_errors = t.send_errors + errors;
              }))
          | still_sending ↦ ok none
        ])
          ≡ ok end
        → Kept (i + 1) t end
    after (all_sent c1 errors) h =
        subst (Kept (i + 1) t) (ok-inj h)
          λ j le. get_elem?-set_connection t.connections i j _ (omega arith)
    after (blocked c1 errors) h =
        subst (Kept (i + 1) t) (ok-inj h)
          λ j le. get_elem?-set_connection t.connections i j _ (omega arith)
    after still_sending h = subst (Kept (i + 1) t) (ok-inj h) tt

read_loop-Kept :
    (t : EpollSender) (i : ℕ) (c : EpollConnection) (e : ℕ) (answers : List Res) (now : ℕ)
    (end : Option (EpollSender × Bool))
    → read_loop t i c e answers now ≡ ok end
    → KeptRead (i + 1) t end
unfolding read_loop
read_loop-Kept t i c e [] now end h = subst (KeptRead (i + 1) t) (ok-inj h) tt
read_loop-Kept t i c e (success zero ∷ answers) now end h = elim (Bool-cases (e == eintr)) [
  | inl again ↦ let absurdity = rw again at h in cc
  | inr other ↦ let absurdity = rw other at h in cc
]
read_loop-Kept t i c e (success (suc n) ∷ answers) now end h =
    elim (Bool-cases (ltb c.to_recv (suc n))) [
      | inl much ↦ let absurdity = rw much at h in cc
      | inr fits ↦ elim (Bool-cases (suc n == c.to_recv)) [
        | inl whole ↦
            subst (KeptRead (i + 1) t) (ok-inj (rw (fits, whole) at h))
              λ j le. get_elem?-set_connection t.connections i j _ (omega arith)
        | inr part ↦
            subst (KeptRead (i + 1) t) (ok-inj (rw (fits, part) at h))
              λ j le. get_elem?-set_connection t.connections i j _ (omega arith)
      ]
    ]
read_loop-Kept t i c e (failure e2 ∷ answers) now end h = elim (Bool-cases (e2 == eagain)) [
  | inl empty ↦ subst (KeptRead (i + 1) t) (ok-inj (rw empty at h)) λ j le. refl
  | inr other ↦ elim (Bool-cases (e2 == eintr)) [
    | inl again ↦
        read_loop-Kept (record t { recv_errors = t.recv_errors + 1 }) i c e2 answers now end
          (rw (other, again) at h)
    | inr broken ↦ let absurdity = rw (other, broken) at h in cc
  ]
]

do_read-Kept :
    (t : EpollSender) (i e : ℕ) (answers : List Res) (now : ℕ) (end : Option (EpollSender × Bool))
    → do_read t i e answers now ≡ ok end
    → KeptRead (i + 1) t end
unfolding do_read
do_read-Kept t i e answers now end h = elim (Option-cases (get_elem? t.connections i)) [
  | inl outside ↦ let absurdity = rw (outside, do_read) at h in cc
  | inr (none, closed) ↦
      subst (KeptRead (i + 1) t) (ok-inj (rw (closed, do_read) at h)) λ j le. refl
  | inr (some c, there) ↦ read_loop-Kept t i c e answers now end (rw (there, do_read) at h)
]

on_event-Kept :
    (t : EpollSender) (i : ℕ) (ev : EpollEvent) (end : Option EpollSender)
    → on_event t i ev ≡ ok end
    → Kept (i + 1) t end
unfolding on_event
on_event-Kept t i ev end h = elim (Bool-cases ev.input) [
  | inl input ↦
      let (seen, read, rest) =
        bind-ok (do_read t i ev.garbage ev.received ev.now) _ (rw (input, on_event) at h) in
      after seen (do_read-Kept t i ev.garbage ev.received ev.now seen read) end rest
  | inr other ↦ elim (Bool-cases ev.output) [
    | inl output ↦
        do_send-Kept t i true ev.taken ev.now end
          (rw (output, on_event) at (rw (other, on_event) at h))
    | inr nothing ↦
        subst (Kept (i + 1) t) (ok-inj (rw (other, nothing, on_event) at h)) λ j le. refl
  ]
]
  where
    then_sent :
        (t1 : EpollSender) (end : Option EpollSender)
        → SameFrom (i + 1) t t1
        → Kept (i + 1) t1 end
        → Kept (i + 1) t end
    then_sent t1 none same kept = tt
    then_sent t1 (some t2) same kept = λ j le. kept j le ∙ same j le

    after :
        (seen : Option (EpollSender × Bool))
        → KeptRead (i + 1) t seen
        → (end : Option EpollSender)
        → (elim seen as (λ seen. Result (Option EpollSender)) [
          | none ↦ ok none
          | some (t', whole) ↦ if whole then do_send t' i false ev.taken ev.now else ok (some t')
        ])
          ≡ ok end
        → Kept (i + 1) t end
    after none known end h = subst (Kept (i + 1) t) (ok-inj h) tt
    after (some (t', true)) known end h =
        then_sent t' end known (do_send-Kept t' i false ev.taken ev.now end h)
    after (some (t', false)) known end h = subst (Kept (i + 1) t) (ok-inj h) known

on_events-Kept :
    (t t' : EpollSender) (i : ℕ) (events : List EpollEvent)
    → on_events t i events ≡ ok (some t')
    → SameFrom (i + length events) t t'
unfolding on_events
on_events-Kept t t' i [] h =
    let same : some t ≡ some t' = ok-inj h in subst (λ end. Kept (i + 0) t end) same λ j le. refl
on_events-Kept t t' i (ev ∷ events) h =
    elim (step-ok (on_event t i ev) (λ t1. on_events t1 (i + 1) events) (some t') h) [
      | inl lasts ↦ let absurdity = lasts in cc
      | inr (t1, came, rest) ↦ λ j le.
          on_events-Kept t1 t' (i + 1) events rest j (omega arith)
          ∙ on_event-Kept t i ev (some t1) came j (omega arith)
    ]

-- A round of `n` events leaves every connection but the first `n` as it is, whichever connections the
-- events are for.
pub on_events_first :
    (t t' : EpollSender) (events : List EpollEvent)
    → on_events t 0 events ≡ ok (some t')
    → SameFrom (length events) t t'
on_events_first t t' events h j le = on_events-Kept t t' 0 events h j (omega arith)
