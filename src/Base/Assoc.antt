-- ===== src/Base/Assoc.antt =====
-- The heap of objects of one class: a map from pointers to values.
use Prim.Native.Nat.{ℕ, ◌+◌}
use mathlib.Core.Logic.{inl, inr}
use native.Mathlib.Omega.{arith}
use mathlib.Core.Path.{◌≡◌, refl, ap}
use mathlib.Core.List.{List, [], ◌∷◌}
use mathlib.Core.Option.{Option, none, some}
use netbench.Base.Tests.{◌==◌, if◌then◌else◌, Bool-cases, some-inj}

module _ {ℓ} {V : Type ℓ} where
  unfoldable pub find : ℕ → List (ℕ × V) → Option V
  find p [] = none
  find p ((q, v) ∷ rest) = if q == p then some v else find p rest

  -- Write through a pointer.
  unfoldable pub put : ℕ → V → List (ℕ × V) → List (ℕ × V)
  put p v [] = []
  put p v ((q, old) ∷ rest) = if q == p then (q, v) ∷ rest else (q, old) ∷ put p v rest

  -- `delete`
  unfoldable pub erase : ℕ → List (ℕ × V) → List (ℕ × V)
  erase p [] = []
  erase p ((q, v) ∷ rest) = if q == p then rest else (q, v) ∷ erase p rest

  -- A sum over all objects.
  abbrev pub total : (V → ℕ) → List (ℕ × V) → ℕ
  total f [] = 0
  total f ((q, v) ∷ rest) = f v + total f rest

  pub total-put :
      (f : V → ℕ) (p : ℕ) (v old : V) (l : List (ℕ × V))
      → find p l ≡ some old
      → total f (put p v l) + f old ≡ total f l + f v
  unfolding find put
  total-put f p v old [] h = absurd (ground arith)
  total-put f p v old ((q, w) ∷ rest) h = elim (Bool-cases (q == p)) [
    | inl e ↦ let same : w ≡ old = some-inj (rw e at h) in rw e (omega (arith, ap f same))
    | inr e ↦ rw e (omega (arith, total-put f p v old rest (rw e at h)))
  ]

  pub total-erase :
      (f : V → ℕ) (p : ℕ) (old : V) (l : List (ℕ × V))
      → find p l ≡ some old
      → total f (erase p l) + f old ≡ total f l
  unfolding find erase
  total-erase f p old [] h = absurd (ground arith)
  total-erase f p old ((q, w) ∷ rest) h = elim (Bool-cases (q == p)) [
    | inl e ↦ let same : w ≡ old = some-inj (rw e at h) in rw e (omega (arith, ap f same))
    | inr e ↦ rw e (omega (arith, total-erase f p old rest (rw e at h)))
  ]

  pub find-put_self :
      (p : ℕ) (v old : V) (l : List (ℕ × V)) → find p l ≡ some old → find p (put p v l) ≡ some v
  unfolding find put
  find-put_self p v old [] h = absurd (ground arith)
  find-put_self p v old ((q, w) ∷ rest) h = elim (Bool-cases (q == p)) [
    | inl e ↦ rw e (rw e refl)
    | inr e ↦ rw e (rw e (find-put_self p v old rest (rw e at h)))
  ]

  pub put-put : (p : ℕ) (v w : V) (l : List (ℕ × V)) → put p w (put p v l) ≡ put p w l
  unfolding put
  put-put p v w [] = refl
  put-put p v w ((q, u) ∷ rest) = elim (Bool-cases (q == p)) [
    | inl e ↦ rw e (rw e refl)
    | inr e ↦ rw e (rw e (ap (◌∷◌ (q, u)) (put-put p v w rest)))
  ]

  pub find_head : (p : ℕ) (v : V) (l : List (ℕ × V)) → find p ((p, v) ∷ l) ≡ some v
  unfolding find
  find_head p v l = ground arith
