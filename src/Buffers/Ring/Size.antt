-- ===== src/Buffers/Ring/Size.antt =====
-- The size of the ring: the least power of two that holds every buffer.
use netbench.Base.{
  ℕ, zero, suc, ◌*◌, ◌%◌, ◌^◌, ◌<◌, ◌≤◌, ◌≡◌, refl, some, arith, ltb, ltb→lt, le→ltb, ap, inl, inr,
  Bool-cases, ◌⊎◌,
}
use native.Mathlib.Nat.{pow-succ'}
use netbench.Buffers.Ring.{grow}

-- What the loop leaves: a power of two, at least the count, and with no smaller one that is.
pub record IsRingSize (count size : ℕ) : Type 0 where
  pub exponent : ℕ
  pub is_power : size ≡ 2 ^ exponent
  pub holds : count ≤ size
  pub least : (size ≡ 1) ⊎ (size < 2 * count)

le-mul_pos : (a b : ℕ) → 0 < b → a ≤ a * b
le-mul_pos a b h = grind arith

grow_from :
    (fuel count k : ℕ)
    → count ≤ 2 ^ 31
    → 2 ^ k * 2 ^ fuel ≡ 2 ^ 32
    → 0 < fuel
    → (2 ^ k ≡ 1) ⊎ (2 ^ k < 2 * count)
    → (size : ℕ) × (grow fuel count (2 ^ k) ≡ some size) × IsRingSize count size
unfolding grow
grow_from zero count k small enough pos least = absurd (omega arith)
grow_from (suc zero) count k small enough pos least = (
  2 ^ k,
  rw (le→ltb (2 ^ k) count (omega arith)),
  record { exponent = k; is_power = refl; holds = omega arith; least = least },
)
grow_from (suc (suc f)) count k small enough pos least = elim (Bool-cases (ltb (2 ^ k) count)) [
  | inr e ↦
      (2 ^ k, rw e, record { exponent = k; is_power = refl; holds = ground arith; least = least })
  | inl e ↦
      let next : 2 ^ k * 2 % 2 ^ 32 ≡ 2 ^ suc k = omega (arith, pow-succ' 2 k, ltb→lt _ _ e) in
      let same : 2 ^ suc k * 2 ^ suc f ≡ 2 ^ 32 =
        rw (pow-succ' 2 k) (omega (arith, enough, ap (λ t. 2 ^ k * t) (pow-succ' 2 (suc f)))) in
      rw (e, next)
        (grow_from (suc f) count (suc k) small same (omega arith)
          (inr (omega (arith, pow-succ' 2 k, ltb→lt _ _ e))))
]

-- For every count up to 2 ^ 31, 32 rounds of the loop are enough: it leaves the least power of two
-- that is at least the count, and no product on the way wraps.
pub grow-IsRingSize :
    (count : ℕ)
    → count ≤ 2 ^ 31
    → (size : ℕ) × (grow 32 count 1 ≡ some size) × IsRingSize count size
grow-IsRingSize count small = grow_from 32 count 0 small refl (omega arith) (inl refl)
