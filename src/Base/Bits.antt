-- ===== src/Base/Bits.antt =====
-- `&` and `|` on words, digit by digit: a mask of low ones is a remainder, and setting low bits that
-- are clear is a sum.
use Prim.Native.Nat.{
  ℕ, zero, suc, ◌+◌, ◌-◌, ◌*◌, ◌/◌, ◌%◌, ◌^◌, ◌≤◌, ◌<◌, min, max, bit_and, bit_or, digits,
  bit_and-bitwise, bit_or-bitwise,
}
use mathlib.Core.Path.{◌≡◌, refl, ap, ◌∙◌}
use native.Mathlib.Nat.{pow-suc, pow-succ'}
use native.Mathlib.Omega.{arith}

-- The recursion behind both operations stops by itself, once its fuel is at least the first operand.
module _ (leaf : ℕ → ℕ) (op : ℕ → ℕ → ℕ) where
  digits_enough : (a b f g : ℕ) → a ≤ f → a ≤ g → digits leaf op f a b ≡ digits leaf op g a b
  digits_enough (suc a) b (suc f) (suc g) p q =
      omega (arith, digits_enough (suc a / 2) (b / 2) f g (omega arith) (omega arith))
  digits_enough (suc a) b zero g p q = elim p [ ]
  digits_enough (suc a) b (suc f) zero p q = elim q [ ]
  digits_enough zero b (suc f) (suc g) p q = refl
  digits_enough zero b (suc f) zero p q = refl
  digits_enough zero b zero (suc g) p q = refl
  digits_enough zero b zero zero p q = refl

-- The lowest digit, and the others.
and_low : (a b : ℕ) → bit_and a b ≡ bit_and (a / 2) (b / 2) * 2 + min (a % 2) (b % 2)
and_low zero b = omega (arith, bit_and-bitwise 0 b, bit_and-bitwise 0 (b / 2))
and_low (suc a) b =
    let rest =
      digits_enough (λ _. 0) min (suc a / 2) (b / 2) a (suc a / 2) (omega arith) (omega arith) in
    omega (arith, rest, bit_and-bitwise (suc a) b, bit_and-bitwise (suc a / 2) (b / 2))

or_low : (a b : ℕ) → bit_or a b ≡ bit_or (a / 2) (b / 2) * 2 + max (a % 2) (b % 2)
or_low zero b = omega (arith, bit_or-bitwise 0 b, bit_or-bitwise 0 (b / 2))
or_low (suc a) b =
    let rest =
      digits_enough (λ c. c) max (suc a / 2) (b / 2) a (suc a / 2) (omega arith) (omega arith) in
    omega (arith, rest, bit_or-bitwise (suc a) b, bit_or-bitwise (suc a / 2) (b / 2))

and_none_below : (n a : ℕ) → a < n → bit_and a 0 ≡ 0
and_none_below zero a h = elim h [ ]
and_none_below (suc n) zero h = bit_and-bitwise 0 0
and_none_below (suc n) (suc a) h =
    omega (arith, and_low (suc a) 0, and_none_below n (suc a / 2) (omega arith))

pow_pos : (k : ℕ) → 0 < 2 ^ k
pow_pos zero = omega arith
pow_pos (suc k) = omega (arith, pow-suc 2 k, pow_pos k)

mod_double : (a p : ℕ) → 0 < p → a % (2 * p) ≡ a / 2 % p * 2 + a % 2
mod_double a p pos = grind arith

-- `a & (2^k - 1)`
pub and_mask : (k a : ℕ) → bit_and a (2 ^ k - 1) ≡ a % 2 ^ k
and_mask zero a = omega (arith, and_none_below (suc a) a (omega arith))
and_mask (suc k) a =
    let double = pow-succ' 2 k in
    let half : (2 * 2 ^ k - 1) / 2 ≡ 2 ^ k - 1 = omega (arith, pow_pos k) in
    rw double (
      omega (
        arith,
        and_low a (2 * 2 ^ k - 1),
        ap (λ m. bit_and (a / 2) m) half,
        and_mask k (a / 2),
        mod_double a (2 ^ k) (pow_pos k),
        pow_pos k,
      ))

or_none_below : (n a : ℕ) → a < n → bit_or a 0 ≡ a
or_none_below zero a h = elim h [ ]
or_none_below (suc n) zero h = bit_or-bitwise 0 0
or_none_below (suc n) (suc a) h =
    omega (arith, or_low (suc a) 0, or_none_below n (suc a / 2) (omega arith))

-- `a | x`, where the low bits of `a` are clear and `x` has no others.
pub or_clear : (k a x : ℕ) → a % 2 ^ k ≡ 0 → x < 2 ^ k → bit_or a x ≡ a + x
or_clear zero a x clear small =
    let none : x ≡ 0 = omega arith in rw none (or_none_below (suc a) a (omega arith) ∙ omega arith)
or_clear (suc k) a x clear small =
    let double = pow-succ' 2 k in
    let parts = mod_double a (2 ^ k) (pow_pos k) in
    let clear' : a % (2 * 2 ^ k) ≡ 0 = rw double at clear in
    let rest =
      or_clear k (a / 2) (x / 2) (omega (arith, parts, clear')) (omega (arith, double, small)) in
    omega (arith, or_low a x, rest, parts, clear')

-- `a & ~0x0f` on 64 bits.
pub and_high : (a : ℕ) → a < 2 ^ 64 → bit_and a (2 ^ 64 - 16) ≡ a - a % 16
and_high a h = omega (
  arith,
  and_low a (2 ^ 64 - 16),
  and_low (a / 2) (2 ^ 63 - 8),
  and_low (a / 2 / 2) (2 ^ 62 - 4),
  and_low (a / 2 / 2 / 2) (2 ^ 61 - 2),
  and_mask 60 (a / 2 / 2 / 2 / 2),
)
