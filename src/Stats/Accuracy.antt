-- ===== src/Stats/Accuracy.antt =====
-- Where `double` cuts off a whole number times a literal: the index of the 95th percentile.
use native.Mathlib.Nat.{mul-le-mul_right, mul-le-mul_left, mul_left_comm, add-mul, mul_assoc}
use netbench.Base.{
  ℕ, ◌+◌, ◌-◌, ◌*◌, ◌^◌, ◌≤◌, ◌<◌, arith, ◌≡◌, refl, ap, ◌∙◌, leb, inl, inr, Bool-cases,
}
use netbench.Stats.{Doubles, index_95}

-- What is used of `double`, as IEEE 754 has it for 64 bits. A value that is not negative is a number of
-- units, of which `one` make 1. A literal of at most 1, and its product with a whole number below 2^31, are
-- rounded with a relative error of at most 2^-53; the conversion to `int` cuts off.
pub record IsAccurate {D : Type 0} (doubles : Doubles D) : Type 0 where
  pub units : D → ℕ
  pub one : ℕ
  pub one_positive : 1 ≤ one
  pub literal_low :
      (k : ℕ) → k ≤ 100 → (2 ^ 53 - 1) * (k * one) ≤ 2 ^ 53 * (100 * units (doubles.hundredths k))
  pub literal_high :
      (k : ℕ) → k ≤ 100 → 2 ^ 53 * (100 * units (doubles.hundredths k)) ≤ (2 ^ 53 + 1) * (k * one)
  pub mul_low :
      (n k : ℕ)
      → n < 2 ^ 31
      → k ≤ 100
      → (2 ^ 53 - 1) * (n * units (doubles.hundredths k))
        ≤ 2 ^ 53 * units (doubles.mul (doubles.of_nat n) (doubles.hundredths k))
  pub mul_high :
      (n k : ℕ)
      → n < 2 ^ 31
      → k ≤ 100
      → 2 ^ 53 * units (doubles.mul (doubles.of_nat n) (doubles.hundredths k))
        ≤ (2 ^ 53 + 1) * (n * units (doubles.hundredths k))
  pub trunc_low : (d : D) → units d < 2 ^ 31 * one → doubles.trunc d * one ≤ units d
  pub trunc_high : (d : D) → units d < 2 ^ 31 * one → units d < doubles.trunc d * one + one

expand : (a x b one : ℕ) → (a * x + b) * one ≡ a * (x * one) + b * one
expand a x b one = omega (arith, add-mul (a * x) b one, mul_assoc a x one)

mul_inwards : (n a b x : ℕ) → n * (a * (b * x)) ≡ a * (b * (n * x))
mul_inwards n a b x = mul_left_comm n a (b * x) ∙ ap (λ y. a * y) (mul_left_comm n b x)

-- Both sides `n` times.
scale : (n a b x c d y : ℕ) → a * (b * x) ≤ c * (d * y) → a * (b * (n * x)) ≤ c * (d * (n * y))
scale n a b x c d y h = omega (arith, mul-le-mul_left n h, mul_inwards n a b x, mul_inwards n c d y)

-- The arithmetic: `u` units of the product, `l` of the literal, and `t` what is left of it, with the
-- products of unknowns as numbers of their own.
module _ (n u l one nl n_one : ℕ) (pos : 1 ≤ one) (size : n_one ≤ 2 ^ 31 * one) where
  product_high :
      2 ^ 53 * u ≤ (2 ^ 53 + 1) * nl
      → 2 ^ 53 * (100 * nl) ≤ (2 ^ 53 + 1) * (95 * n_one)
      → 2 ^ 106 * (100 * u) ≤ 2 ^ 106 * (95 * n_one) + 2 ^ 105 * one
  product_high product literal = omega (arith, product, literal, size)

  product_low :
      (2 ^ 53 - 1) * nl ≤ 2 ^ 53 * u
      → (2 ^ 53 - 1) * (95 * n_one) ≤ 2 ^ 53 * (100 * nl)
      → 2 ^ 106 * (95 * n_one) ≤ 2 ^ 106 * (100 * u) + 2 ^ 105 * one
  product_low product literal = omega (arith, product, literal, size)

  scaled_low :
      (t : ℕ)
      → t * one ≤ u
      → n_one ≡ n * one
      → 2 ^ 106 * (100 * u) ≤ 2 ^ 106 * (95 * n_one) + 2 ^ 105 * one
      → 100 * t ≤ 95 * n
  scaled_low t cut same near = elim (Bool-cases (leb (100 * t) (95 * n))) [
    | inl le ↦ ground (arith, le)
    | inr gt ↦
        let more : 95 * n + 1 ≤ 100 * t = ground (arith, gt) in
        let scaled = mul-le-mul_right one more in
        absurd (omega (arith, pos, cut, same, near, scaled, expand 95 n 1 one, mul_assoc 100 t one))
  ]

  scaled_high :
      (t : ℕ)
      → u < t * one + one
      → n_one ≡ n * one
      → 2 ^ 106 * (95 * n_one) ≤ 2 ^ 106 * (100 * u) + 2 ^ 105 * one
      → 95 * n ≤ 100 * (t + 1)
  scaled_high t cut same near = elim (Bool-cases (leb (95 * n) (100 * (t + 1)))) [
    | inl le ↦ ground (arith, le)
    | inr gt ↦
        let more : 100 * t + 101 ≤ 95 * n = ground (arith, gt) in
        let scaled = mul-le-mul_right one more in
        absurd
          (omega (arith, pos, cut, same, near, scaled, expand 100 t 101 one, mul_assoc 95 n one))
  ]

-- The index is 95 hundredths of the length, cut off, or just below where these are a whole number.
pub index_95-near :
    {D : Type 0} {doubles : Doubles D}
    → IsAccurate doubles
    → (n : ℕ) → n < 2 ^ 31
    → (100 * index_95 doubles n ≤ 95 * n) × (95 * n ≤ 100 * (index_95 doubles n + 1))
unfolding index_95
index_95-near {D} {doubles} a n small =
    let p = doubles.mul (doubles.of_nat n) (doubles.hundredths 95) in
    let u = a.units p in
    let l = a.units (doubles.hundredths 95) in
    let size = mul-le-mul_right a.one (lt_le small) in
    let low =
      product_low n u l a.one (n * l) (n * a.one) a.one_positive size
        (a.mul_low n 95 small (omega arith))
        (scale n (2 ^ 53 - 1) 95 a.one (2 ^ 53) 100 l (a.literal_low 95 (omega arith))) in
    let high =
      product_high n u l a.one (n * l) (n * a.one) a.one_positive size
        (a.mul_high n 95 small (omega arith))
        (scale n (2 ^ 53) 100 l (2 ^ 53 + 1) 95 a.one (a.literal_high 95 (omega arith))) in
    let fits : u < 2 ^ 31 * a.one = omega (arith, high, size, a.one_positive) in
    (
      scaled_low n u l a.one (n * l) (n * a.one) a.one_positive size (doubles.trunc p)
          (a.trunc_low p fits) refl high,
      scaled_high n u l a.one (n * l) (n * a.one) a.one_positive size (doubles.trunc p)
          (a.trunc_high p fits) refl low,
    )
  where
    lt_le : {a b : ℕ} → a < b → a ≤ b
    lt_le h = omega (arith, h)
