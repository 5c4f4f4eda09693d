-- ===== src/Base/Results.antt =====
-- The errors of util.h: `die` throws a runtime_error, `checkedErrno` may also throw
-- InterruptedException. A call that throws is `err`; the constructor names the throwing site.
use mathlib.Core.Path.{◌≡◌, refl, sym}
use mathlib.Core.Logic.{◌⊎◌, inl, inr}
use mathlib.Core.Option.{Option, none, some}

pub data Error : Type 0 where
  -- `InterruptedException`
  interrupted : Error
  -- `die` in `checkedErrno`
  bad_errno : Error
  -- `die` on a state or value that the code rejects
  died : Error
  -- "not enough data" of the control protocol
  not_enough_data : Error
  -- not an exception: the model follows a pointer to nothing
  fault : Error

pub data Result {ℓ} (A : Type ℓ) : Type ℓ where
  err : Error → Result A
  ok : A → Result A

module _ {ℓ κ} {A : Type ℓ} {B : Type κ} where
  -- What follows a call that may throw.
  infixl 5 ◌>>=◌
  abbrev pub ◌>>=◌ : (r : Result A) (rest : A → Result B) → Result B
  err thrown >>= rest = err thrown
  ok value >>= rest = rest value

  -- Where a whole sequence of calls came through, so did its first.
  pub bind-ok :
      (r : Result A) (rest : A → Result B) {end : B}
      → (r >>= rest) ≡ ok end
      → (value : A) × (r ≡ ok value) × (rest value ≡ ok end)
  bind-ok (err thrown) rest came = cc
  bind-ok (ok value) rest came = (value, refl, came)

-- The same for a step of a loop that may not come to its end.
module _ {ℓ κ} {A : Type ℓ} {B : Type κ} where
  pub step-ok :
      (r : Result (Option A)) (rest : A → Result (Option B)) (end : Option B)
      → (r >>= λ next. elim next as (λ next. Result (Option B)) [
        | none ↦ ok none
        | some value ↦ rest value
      ])
        ≡ ok end
      → (end ≡ none) ⊎ ((value : A) × (r ≡ ok (some value)) × (rest value ≡ ok end))
  step-ok (err thrown) rest end came = cc
  step-ok (ok none) rest end came = inl (sym (ok-none came))
    where
      ok-none : {x y : Option B} → ok x ≡ ok y → x ≡ y
      ok-none same = cc
  step-ok (ok (some value)) rest end came = inr (value, refl, came)

pub ok-inj {ℓ} : {A : Type ℓ} {x y : A} → ok x ≡ ok y → x ≡ y
ok-inj same = cc
