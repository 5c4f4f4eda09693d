-- ===== src/EpollSender/Pieces.antt =====
-- The pieces of messages that `doSend` of `EpollSender` gives to the kernel.
use netbench.Base.{
  ℕ, zero, suc, ◌+◌, ◌-◌, ◌≡◌, refl, Option, none, some, List, [], ◌∷◌, ◌++◌, leb, ◌==◌,
  if◌then◌else◌, Bool, true, false, inl, inr, get_elem?, Bool-cases, Option-cases, some-inj,
}
use mathlib.Core.Path.{subst}
use netbench.Base.Results.{Result, ok, bind-ok, ok-inj}
use netbench.Uring.{Res, success, failure}
use netbench.Util.{eintr}
use netbench.EpollSender.{
  eagain, EpollConnection, new_connection, EpollSender, add_connection, do_connect, set_connection,
  SendEnd, all_sent, blocked, still_sending, took, send_loop, sent, rewound, do_send,
}

-- Each piece was taken from the start of the buffer.
abbrev pub AllFirst : List (ℕ × ℕ) → Type 0
AllFirst [] = Unit
AllFirst ((at, n) ∷ pieces) = (at ≡ 0) × AllFirst pieces

abbrev pub FromStart : EpollConnection → Type 0
FromStart c = (c.to_send_at ≡ 0) × AllFirst c.wire

abbrev pub Known : Option EpollConnection → Type 0
Known none = Unit
Known (some c) = FromStart c

abbrev pub AllFromStart : List (Option EpollConnection) → Type 0
AllFromStart [] = Unit
AllFromStart (c ∷ connections) = Known c × AllFromStart connections

AllFirst-append :
    (pieces : List (ℕ × ℕ)) (at n : ℕ)
    → AllFirst pieces
    → at ≡ 0
    → AllFirst (pieces ++ (at, n) ∷ [])
AllFirst-append [] at n k same = (same, tt)
AllFirst-append ((other, m) ∷ pieces) at n k same = (k.0, AllFirst-append pieces at n k.1 same)

AllFromStart-append :
    (connections : List (Option EpollConnection)) (c : EpollConnection)
    → AllFromStart connections
    → FromStart c
    → AllFromStart (connections ++ some c ∷ [])
AllFromStart-append [] c k new = (new, tt)
AllFromStart-append (other ∷ connections) c k new = (k.0, AllFromStart-append connections c k.1 new)

pub set_connection-AllFromStart :
    (connections : List (Option EpollConnection)) (i : ℕ) (c : Option EpollConnection)
    → AllFromStart connections
    → Known c
    → AllFromStart (set_connection connections i c)
unfolding set_connection
set_connection-AllFromStart [] i c k new = tt
set_connection-AllFromStart (old ∷ connections) zero c k new = (new, k.1)
set_connection-AllFromStart (old ∷ connections) (suc i) c k new =
    (k.0, set_connection-AllFromStart connections i c k.1 new)

pub get_elem?-FromStart :
    (connections : List (Option EpollConnection)) (i : ℕ) (c : EpollConnection)
    → AllFromStart connections
    → get_elem? connections i ≡ some (some c)
    → FromStart c
get_elem?-FromStart [] i c k there = cc
get_elem?-FromStart (old ∷ connections) zero c k there = subst Known (some-inj there) k.0
get_elem?-FromStart (old ∷ connections) (suc i) c k there =
    get_elem?-FromStart connections i c k.1 there

-- The connection that the loop of `doSend` leaves.
abbrev Left : SendEnd → Type 0
Left (all_sent c errors) = FromStart c
Left (blocked c errors) = FromStart c
Left still_sending = Unit

send_loop-FromStart :
    (c : EpollConnection) (errors : ℕ) (answers : List Res) (end : SendEnd)
    → FromStart c
    → send_loop c errors answers ≡ ok end
    → Left end
unfolding send_loop
send_loop-FromStart c errors [] end k e = subst Left (ok-inj e) tt
send_loop-FromStart c errors (success n ∷ answers) end k e =
    let k1 : FromStart (took c n) = (k.0, AllFirst-append c.wire c.to_send_at n k.1 k.0) in
    elim (Bool-cases (leb c.to_send n)) [
      | inl whole ↦ subst Left (ok-inj (rw whole at e)) k1
      | inr part ↦
          send_loop-FromStart (record (took c n) { to_send = c.to_send - n }) errors answers end k1
            (rw part at e)
    ]
send_loop-FromStart c errors (failure n ∷ answers) end k e = elim (Bool-cases (n == eagain)) [
  | inl full ↦ subst Left (ok-inj (rw full at e)) k
  | inr other ↦ elim (Bool-cases (n == eintr)) [
    | inr broken ↦ let absurdity = rw (other, broken) at e in cc
    | inl again ↦ elim (Bool-cases (c.to_send == 0)) [
      | inl nothing ↦ subst Left (ok-inj (rw (other, again, nothing) at e)) k
      | inr more ↦ send_loop-FromStart c (errors + 1) answers end k (rw (other, again, more) at e)
    ]
  ]
]

abbrev pub Restarts : EpollSender → Type 0
Restarts t = AllFromStart t.connections

abbrev pub Kept : Option EpollSender → Type 0
Kept none = Unit
Kept (some t) = Restarts t

abbrev pub KeptRead : Option (EpollSender × Bool) → Type 0
KeptRead none = Unit
KeptRead (some t) = Restarts t.0

pub do_connect-Restarts :
    (t t' : EpollSender) (made : List Bool) → Restarts t → do_connect t made ≡ ok t' → Restarts t'
unfolding do_connect add_connection
do_connect-Restarts t t' [] k e = subst Restarts (ok-inj e) k
do_connect-Restarts t t' (false ∷ made) k e = cc
do_connect-Restarts t t' (true ∷ made) k e =
    do_connect-Restarts
      (record t {
        connections = t.connections ++ some new_connection ∷ [];
        success_connects = t.success_connects + 1;
      })
      t' made (AllFromStart-append t.connections new_connection k (refl, tt)) e

pub do_send-Restarts :
    (t : EpollSender) (i : ℕ) (from_poll : Bool) (answers : List Res) (now : ℕ)
    (end : Option EpollSender)
    → Restarts t
    → do_send t i from_poll answers now ≡ ok end
    → Kept end
unfolding do_send sent
do_send-Restarts t i from_poll answers now end k e =
    elim (Option-cases (get_elem? t.connections i)) [
      | inl outside ↦ let absurdity = rw (outside, do_send) at e in cc
      | inr (none, closed) ↦ let absurdity = rw (closed, do_send) at e in cc
      | inr (some c, there) ↦
          let (left, ended, rest) =
            bind-ok (send_loop (rewound t c from_poll) 0 answers) _ (rw (there, do_send) at e) in
          let known = get_elem?-FromStart t.connections i c k there in
          after left
            (send_loop-FromStart (rewound t c from_poll) 0 answers left (start_of from_poll c known)
              ended)
            rest
    ]
  where
    start_of :
        (from_poll : Bool) (c : EpollConnection) → FromStart c → FromStart (rewound t c from_poll)
    start_of true c known = known
    start_of false c known = (refl, known.1)

    finished :
        (from_poll : Bool) (c : EpollConnection)
        → FromStart c
        → FromStart (record (if from_poll then record c { watch_output = false } else c) {
          to_recv = t.resp;
          last = now;
        })
    finished true c known = known
    finished false c known = known

    watched :
        (from_poll : Bool) (c : EpollConnection)
        → FromStart c
        → FromStart (if from_poll then c else record c { watch_output = true })
    watched true c known = known
    watched false c known = known

    after :
        (left : SendEnd)
        → Left left
        → (elim left as (λ left. Result (Option EpollSender)) [
          | all_sent c1 errors ↦ ok (some (sent t i c1 errors from_poll now))
          | blocked c1 errors ↦ ok (
              some (record t {
                connections =
                    set_connection t.connections i
                      (some (if from_poll then c1 else record c1 { watch_output = true }));
                send_errors = t.send_errors + errors;
              }))
          | still_sending ↦ ok none
        ])
          ≡ ok end
        → Kept end
    after (all_sent c1 errors) known h = subst Kept (ok-inj h) (
        set_connection-AllFromStart t.connections i
          (some (record (if from_poll then record c1 { watch_output = false } else c1) {
            to_recv = t.resp;
            last = now;
          }))
          k (finished from_poll c1 known))
    after (blocked c1 errors) known h = subst Kept (ok-inj h) (
        set_connection-AllFromStart t.connections i
          (some (if from_poll then c1 else record c1 { watch_output = true })) k
          (watched from_poll c1 known))
    after still_sending known h = subst Kept (ok-inj h) tt
