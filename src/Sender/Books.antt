-- ===== src/Sender/Books.antt =====
-- The submissions of `Sender` that are prepared or under way, against the current actions of its
-- connections.
use netbench.Base.{
  ℕ, ◌+◌, ◌≤◌, ◌≡◌, refl, ap, sym, ◌∙◌, none, some, List, [], ◌∷◌, arith, ◌==◌, if◌then◌else◌, true,
  inl, inr, Bool-cases, some-inj,
}
use netbench.Base.Assoc.{find, put, erase, total, total-put, total-erase}
use netbench.Scenarios.{ActionOp, unknown, connect, disconnect, recv, send, ready, wait_until}
use netbench.Sender.{Request, do_connect, do_close, do_recv, do_sendmsg, Connection, new_connection}

abbrev pub op_of : Request → ActionOp
op_of do_connect = connect
op_of do_close = disconnect
op_of (do_recv n) = recv
op_of (do_sendmsg parts) = send

-- Actions as numbers, to tell them apart.
abbrev code : ActionOp → ℕ
code unknown = 0
code connect = 1
code disconnect = 2
code recv = 3
code send = 4
code ready = 5
code wait_until = 6

abbrev decode : ℕ → ActionOp
decode n =
    if n == 0
    then unknown
    else if n == 1
    then connect
    else if n == 2
    then disconnect
    else if n == 3
    then recv
    else if n == 4
    then send
    else if n == 5
    then ready
    else wait_until

decode-code : (a : ActionOp) → decode (code a) ≡ a
decode-code unknown = refl
decode-code connect = refl
decode-code disconnect = refl
decode-code recv = refl
decode-code send = refl
decode-code ready = refl
decode-code wait_until = refl

-- Whether the kernel reports the end of an action: 1 or 0.
abbrev in_kernel : ActionOp → ℕ
in_kernel unknown = 0
in_kernel connect = 1
in_kernel disconnect = 1
in_kernel recv = 1
in_kernel send = 1
in_kernel ready = 0
in_kernel wait_until = 0

-- Whether an action that waits for a completion is of a kind: 1 or 0.
abbrev pub in_air : ActionOp → ActionOp → ℕ
in_air a o = if code a == code o then in_kernel a else 0

in_kernel-le : (a : ActionOp) → in_kernel a ≤ 1
in_kernel-le unknown = omega arith
in_kernel-le connect = omega arith
in_kernel-le disconnect = omega arith
in_kernel-le recv = omega arith
in_kernel-le send = omega arith
in_kernel-le ready = omega arith
in_kernel-le wait_until = omega arith

in_air-eq : (a o : ActionOp) → 1 ≤ in_air a o → a ≡ o
in_air-eq a o h =
    let same : code a ≡ code o = ground (arith, h) in
    sym (decode-code a) ∙ ap decode same ∙ decode-code o

-- How many submissions of a kind a connection has.
abbrev pub flights : ℕ → ActionOp → List (ℕ × Request) → ℕ
flights i o [] = 0
flights i o ((j, q) ∷ sqes) = (if j == i then in_air (op_of q) o else 0) + flights i o sqes

-- Whether a connection waits for one.
abbrev pub busy : ℕ → ActionOp → Connection → ℕ
busy i o c = if c.id == i then in_air c.current o else 0

abbrev pub has_of : ℕ → ℕ → ℕ
has_of i j = if j == i then 1 else 0

abbrev pub has_id : ℕ → Connection → ℕ
has_id i c = has_of i c.id

busy-le : (i : ℕ) (o : ActionOp) (c : Connection) → busy i o c ≤ has_id i c
busy-le i o c = ground (arith, in_kernel-le c.current)

total-busy_le :
    (i : ℕ) (o : ActionOp) (conns : List (ℕ × Connection))
    → total (busy i o) conns ≤ total (has_id i) conns
total-busy_le i o [] = omega arith
total-busy_le i o ((p, c) ∷ conns) = omega (arith, busy-le i o c, total-busy_le i o conns)

abbrev pub Keyed : List (ℕ × Connection) → Type 0
Keyed [] = Unit
Keyed ((p, c) ∷ conns) = (p ≡ c.id) × Keyed conns

-- Each submission belongs to a connection that waits for one of its kind, and each connection that
-- waits has one; ids are unique.
pub record Books (conns : List (ℕ × Connection)) (sqes : List (ℕ × Request)) : Type 0 where
  pub awaited : (i : ℕ) (o : ActionOp) → flights i o sqes ≡ total (busy i o) conns
  pub single : (i : ℕ) → total (has_id i) conns ≤ 1
  pub keyed : Keyed conns

pub find-Keyed :
    (p : ℕ) (c : Connection) (conns : List (ℕ × Connection))
    → Keyed conns
    → find p conns ≡ some c
    → p ≡ c.id
unfolding find
find-Keyed p c [] k h = absurd (ground arith)
find-Keyed p c ((q, d) ∷ conns) k h = elim (Bool-cases (q == p)) [
  | inl e ↦
      let same : d ≡ c = some-inj (rw e at h) in
      let at : q ≡ p = ground (arith, e) in omega (arith, k.0, at, ap (λ c. c.id) same)
  | inr e ↦ find-Keyed p c conns k.1 (rw e at h)
]

put-Keyed :
    (p : ℕ) (c : Connection) (conns : List (ℕ × Connection))
    → c.id ≡ p
    → Keyed conns
    → Keyed (put p c conns)
unfolding put
put-Keyed p c [] same k = tt
put-Keyed p c ((q, d) ∷ conns) same k = elim (Bool-cases (q == p)) [
  | inl e ↦ rw e (ground (arith, e, same), k.1)
  | inr e ↦ rw e (k.0, put-Keyed p c conns same k.1)
]

erase-Keyed : (p : ℕ) (conns : List (ℕ × Connection)) → Keyed conns → Keyed (erase p conns)
unfolding erase
erase-Keyed p [] k = tt
erase-Keyed p ((q, d) ∷ conns) k = elim (Bool-cases (q == p)) [
  | inl e ↦ rw e k.1
  | inr e ↦ rw e (k.0, erase-Keyed p conns k.1)
]

-- A connection gives way to one with its id, and the submissions change as its current action does.
pub put-Books :
    (p : ℕ) (c c' : Connection) (conns : List (ℕ × Connection)) (sqes sqes' : List (ℕ × Request))
    → Books conns sqes
    → find p conns ≡ some c
    → c'.id ≡ c.id
    → ((i : ℕ) (o : ActionOp) → flights i o sqes' + busy i o c ≡ flights i o sqes + busy i o c')
    → Books (put p c' conns) sqes'
put-Books p c c' conns sqes sqes' b found same moved = record {
  awaited = λ i o. omega (arith, total-put (busy i o) p c' c conns found, b.awaited i o, moved i o);
  single =
      λ i. omega (arith, total-put (has_id i) p c' c conns found, b.single i, ap (has_of i) same);
  keyed = put-Keyed p c' conns (omega (arith, same, find-Keyed p c conns b.keyed found)) b.keyed;
}

pub erase-Books :
    (p : ℕ) (c : Connection) (conns : List (ℕ × Connection)) (sqes : List (ℕ × Request))
    → Books conns sqes
    → find p conns ≡ some c
    → ((i : ℕ) (o : ActionOp) → busy i o c ≡ 0)
    → Books (erase p conns) sqes
erase-Books p c conns sqes b found idle = record {
  awaited = λ i o. omega (arith, total-erase (busy i o) p c conns found, b.awaited i o, idle i o);
  single = λ i. omega (arith, total-erase (has_id i) p c conns found, b.single i);
  keyed = erase-Keyed p conns b.keyed;
}

absent :
    (p i : ℕ) (conns : List (ℕ × Connection))
    → Keyed conns
    → find p conns ≡ none
    → (p == i) ≡ true
    → total (has_id i) conns ≡ 0
unfolding find
absent p i [] k h e = refl
absent p i ((q, d) ∷ conns) k h e = elim (Bool-cases (q == p)) [
  | inl here ↦ let absurdity = rw here at h in cc
  | inr other ↦
      let elsewhere : has_of i d.id ≡ 0 = ground (arith, k.0, e, other) in
      omega (arith, elsewhere, absent p i conns k.1 (rw other at h) e)
]

pub new-Books :
    (p : ℕ) (conns : List (ℕ × Connection)) (sqes : List (ℕ × Request))
    → Books conns sqes
    → find p conns ≡ none
    → Books ((p, new_connection p) ∷ conns) sqes
new-Books p conns sqes b fresh = record {
  awaited = λ i o. ground (arith, b.awaited i o);
  single = λ i. ground (arith, b.single i, absent p i conns b.keyed fresh);
  keyed = (refl, b.keyed);
}

-- A submission that is there has its connection, with the action that it is for.
pub found_waiting :
    (i : ℕ) (q : Request) (conns : List (ℕ × Connection))
    → 1 ≤ total (busy i (op_of q)) conns
    → total (has_id i) conns ≤ 1
    → Keyed conns
    → (c : Connection) × (find i conns ≡ some c) × (c.current ≡ op_of q)
unfolding find
found_waiting i q [] there single k = absurd (omega (arith, there))
found_waiting i q ((p, c) ∷ conns) there single k = elim (Bool-cases (p == i)) [
  | inl here ↦
      let mine : has_of i c.id ≡ 1 = ground (arith, k.0, here) in
      let its : 1 ≤ busy i (op_of q) c =
        omega (arith, there, single, mine, total-busy_le i (op_of q) conns) in
      (c, rw here refl, in_air-eq c.current (op_of q) (ground (arith, its)))
  | inr other ↦
      let elsewhere : has_of i c.id ≡ 0 = ground (arith, k.0, other) in
      let more =
        found_waiting i q conns (omega (arith, there, busy-le i (op_of q) c, elsewhere))
          (omega (arith, single)) k.1 in
      (more.0, rw other (more.1), more.2)
]
