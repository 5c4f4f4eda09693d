-- ===== src/Epoll/Store.antt =====
-- Laws of the map from pointers to sockets.
use netbench.Base.{
  ℕ, ◌+◌, ◌≡◌, refl, none, some, [], ◌∷◌, arith, ◌==◌, ==_iff, sym, length, false, inl, inr,
  Bool-cases,
}
use mathlib.Core.Path.{subst}
use netbench.Epoll.{EpollData}
use netbench.Epoll.Loop.{Sockets, find, put, erase}

pub find-put :
    (p j : ℕ) (ed : EpollData) (l : Sockets) → find j l ≡ none → find j (put p ed l) ≡ none
unfolding find put
find-put p j ed [] h = refl
find-put p j ed ((q, old) ∷ l) h = ground (arith, find-put p j ed l)

pub find-erase : (p j : ℕ) (l : Sockets) → find j l ≡ none → find j (erase p l) ≡ none
unfolding find erase
find-erase p j [] h = refl
find-erase p j ((q, old) ∷ l) h = ground (arith, find-erase p j l)

pub length-put : (p : ℕ) (ed : EpollData) (l : Sockets) → length (put p ed l) ≡ length l
unfolding put
length-put p ed [] = refl
length-put p ed ((q, old) ∷ l) = ground (arith, length-put p ed l)

pub length-erase :
    (p : ℕ) (ed : EpollData) (l : Sockets) → find p l ≡ some ed → length (erase p l) + 1 ≡ length l
unfolding find erase
length-erase p ed [] h = ground arith
length-erase p ed ((q, old) ∷ l) h = ground (arith, length-erase p ed l)

-- No pointer stands twice.
abbrev pub Unique : Sockets → Type 0
Unique [] = Unit
Unique ((p, ed) ∷ l) = (find p l ≡ none) × Unique l

pub put-Unique : (p : ℕ) (ed : EpollData) (l : Sockets) → Unique l → Unique (put p ed l)
unfolding put
put-Unique p ed [] u = tt
put-Unique p ed ((q, old) ∷ l) u = elim (Bool-cases (q == p)) [
  | inl e ↦ rw e u
  | inr e ↦ rw e (find-put p q ed l u.0, put-Unique p ed l u.1)
]

pub erase-Unique : (p : ℕ) (l : Sockets) → Unique l → Unique (erase p l)
unfolding erase
erase-Unique p [] u = tt
erase-Unique p ((q, old) ∷ l) u = elim (Bool-cases (q == p)) [
  | inl e ↦ rw e u.1
  | inr e ↦ rw e (find-erase p q l u.0, erase-Unique p l u.1)
]

-- A predicate on every socket, with its pointer.
abbrev pub All : (ℕ → EpollData → Type 0) → Sockets → Type 0
All P [] = Unit
All P ((p, ed) ∷ l) = P p ed × All P l

pub All-find :
    (P : ℕ → EpollData → Type 0) (p : ℕ) (ed : EpollData) (l : Sockets)
    → All P l
    → find p l ≡ some ed
    → P p ed
unfolding find
All-find P p ed [] a h = absurd (ground arith)
All-find P p ed ((q, old) ∷ l) a h = elim (Bool-cases (q == p)) [
  | inl e ↦ subst (λ x. P x ed) ((==_iff q p).0 e) (subst (P q) (ground arith) a.0)
  | inr e ↦ All-find P p ed l a.1 (rw e at h)
]

pub All-put :
    (P : ℕ → EpollData → Type 0) (p : ℕ) (ed : EpollData) (l : Sockets)
    → All P l
    → P p ed
    → All P (put p ed l)
unfolding put
All-put P p ed [] a h = tt
All-put P p ed ((q, old) ∷ l) a h = elim (Bool-cases (q == p)) [
  | inl e ↦ rw e (subst (λ x. P x ed) (sym ((==_iff q p).0 e)) h, a.1)
  | inr e ↦ rw e (a.0, All-put P p ed l a.1 h)
]

pub All-erase : (P : ℕ → EpollData → Type 0) (p : ℕ) (l : Sockets) → All P l → All P (erase p l)
unfolding erase
All-erase P p [] a = tt
All-erase P p ((q, old) ∷ l) a = elim (Bool-cases (q == p)) [
  | inl e ↦ rw e a.1
  | inr e ↦ rw e (a.0, All-erase P p l a.1)
]

pub All-map :
    (P Q : ℕ → EpollData → Type 0) (l : Sockets)
    → ((p : ℕ) (ed : EpollData) → P p ed → Q p ed)
    → All P l
    → All Q l
All-map P Q [] f a = tt
All-map P Q ((p, ed) ∷ l) f a = (f p ed a.0, All-map P Q l f a.1)

module _ (P Q : ℕ → EpollData → Type 0) (p : ℕ)
    (other : (j : ℕ) (e : EpollData) → (j == p) ≡ false → P j e → Q j e) where
  pub All-others : (l : Sockets) → find p l ≡ none → All P l → All Q l
  unfolding find
  All-others [] h a = tt
  All-others ((q, old) ∷ l) h a = elim (Bool-cases (q == p)) [
    | inl e ↦ absurd (ground (arith, h))
    | inr e ↦ (other q old e a.0, All-others l (rw e at h) a.1)
  ]

  pub All-at :
      (ed : EpollData) (l : Sockets) → Unique l → find p l ≡ some ed → Q p ed → All P l → All Q l
  unfolding find
  All-at ed [] u h x a = tt
  All-at ed ((q, old) ∷ l) u h x a = elim (Bool-cases (q == p)) [
    | inl e ↦
        let same = (==_iff q p).0 e in
        (
          subst (λ j. Q j old) (sym same) (subst (Q p) (ground arith) x),
          All-others l (subst (λ j. find j l ≡ none) same u.0) a.1,
        )
    | inr e ↦ (other q old e a.0, All-at ed l u.1 (rw e at h) x a.1)
  ]

  pub All-put_at : (ed : EpollData) (l : Sockets) → Unique l → Q p ed → All P l → All Q (put p ed l)
  unfolding put
  All-put_at ed [] u x a = tt
  All-put_at ed ((q, old) ∷ l) u x a = elim (Bool-cases (q == p)) [
    | inl e ↦
        let same = (==_iff q p).0 e in
        rw e (
          subst (λ j. Q j ed) (sym same) x,
          All-others l (subst (λ j. find j l ≡ none) same u.0) a.1,
        )
    | inr e ↦ rw e (other q old e a.0, All-put_at ed l u.1 x a.1)
  ]
