-- ===== src/Stats/Bounds.antt =====
-- How the numbers of a `LatencyResult` stand to each other.
use native.Mathlib.Nat.{div-le_of_le-mul, suc-mul}
use mathlib.Core.Path.{subst}
use netbench.Base.{
  ℕ, zero, suc, ◌+◌, ◌-◌, ◌*◌, ◌/◌, ◌≤◌, ◌<◌, ◌^◌, ◌≡◌, refl, ap, sym, ◌∙◌, List, [], ◌∷◌, leb,
  arith, ltb, if◌then◌else◌, Bool, inl, inr, Bool-cases, length, get_or,
}
use netbench.Stats.Accuracy.{IsAccurate, index_95-near}
use netbench.Stats.{Doubles, insert, sort, sum, LatencyResult, index_95, from}

abbrev pub AllUpTo : ℕ → List ℕ → Type 0
AllUpTo m [] = Unit
AllUpTo m (x ∷ xs) = (x ≤ m) × AllUpTo m xs

abbrev Ascends : ℕ → List ℕ → Type 0
Ascends low [] = Unit
Ascends low (x ∷ xs) = (low ≤ x) × Ascends x xs

insert-Ascends : (low x : ℕ) (xs : List ℕ) → low ≤ x → Ascends low xs → Ascends low (insert x xs)
unfolding insert
insert-Ascends low x [] le a = (le, tt)
insert-Ascends low x (y ∷ ys) le a = elim (Bool-cases (leb x y)) [
  | inl before ↦ rw before (le, (ground (arith, before), a.1))
  | inr after ↦ rw after (a.0, insert-Ascends y x ys (ground (arith, after)) a.1)
]

sort-Ascends : (xs : List ℕ) → Ascends 0 (sort xs)
unfolding sort
sort-Ascends [] = tt
sort-Ascends (x ∷ xs) = insert-Ascends 0 x (sort xs) (omega arith) (sort-Ascends xs)

length-insert : (x : ℕ) (xs : List ℕ) → length (insert x xs) ≡ suc (length xs)
unfolding insert
length-insert x [] = refl
length-insert x (y ∷ ys) = elim (Bool-cases (leb x y)) [
  | inl before ↦ rw before refl
  | inr after ↦ rw after (ap suc (length-insert x ys))
]

length-sort : (xs : List ℕ) → length (sort xs) ≡ length xs
unfolding sort
length-sort [] = refl
length-sort (x ∷ xs) = length-insert x (sort xs) ∙ ap suc (length-sort xs)

above_low : (low i : ℕ) (xs : List ℕ) → Ascends low xs → i < length xs → low ≤ get_or xs i 0
above_low low i [] a lt = absurd (omega arith)
above_low low zero (x ∷ xs) a lt = a.0
above_low low (suc i) (x ∷ xs) a lt = omega (arith, a.0, above_low x i xs a.1 (omega arith))

get_or-le :
    (low i j : ℕ) (xs : List ℕ)
    → Ascends low xs
    → i ≤ j
    → j < length xs
    → get_or xs i 0 ≤ get_or xs j 0
get_or-le low i j [] a le lt = absurd (omega arith)
get_or-le low zero zero (x ∷ xs) a le lt = omega arith
get_or-le low zero (suc j) (x ∷ xs) a le lt = above_low x j xs a.1 (omega arith)
get_or-le low (suc i) zero (x ∷ xs) a le lt = absurd (omega arith)
get_or-le low (suc i) (suc j) (x ∷ xs) a le lt = get_or-le x i j xs a.1 (omega arith) (omega arith)

up_to_last :
    (low : ℕ) (x : ℕ) (xs : List ℕ)
    → Ascends low (x ∷ xs)
    → AllUpTo (get_or (x ∷ xs) (length xs) 0) (x ∷ xs)
up_to_last low x [] a = (omega arith, tt)
up_to_last low x (y ∷ ys) a =
    let rest = up_to_last x y ys a.1 in (omega (arith, a.1.0, rest.0), rest)

insert-AllUpTo : (m x : ℕ) (xs : List ℕ) → AllUpTo m (insert x xs) → (x ≤ m) × AllUpTo m xs
unfolding insert
insert-AllUpTo m x [] a = (a.0, tt)
insert-AllUpTo m x (y ∷ ys) a = elim (Bool-cases (leb x y)) [
  | inl before ↦ let b : AllUpTo m (x ∷ y ∷ ys) = rw before at a in (b.0, b.1)
  | inr after ↦
      let b : AllUpTo m (y ∷ insert x ys) = rw after at a in
      let (c, d) = insert-AllUpTo m x ys b.1 in (c, (b.0, d))
]

sort-AllUpTo : (m : ℕ) (xs : List ℕ) → AllUpTo m (sort xs) → AllUpTo m xs
unfolding sort
sort-AllUpTo m [] a = tt
sort-AllUpTo m (x ∷ xs) a = let (b, c) = insert-AllUpTo m x (sort xs) a in (b, sort-AllUpTo m xs c)

sum-le : (m : ℕ) (xs : List ℕ) → AllUpTo m xs → sum xs ≤ length xs * m
sum-le m [] a = omega arith
sum-le m (x ∷ xs) a = omega (arith, suc-mul (length xs) m, a.0, sum-le m xs a.1)

sum-insert : (x : ℕ) (xs : List ℕ) → sum (insert x xs) ≡ x + sum xs
unfolding insert
sum-insert x [] = refl
sum-insert x (y ∷ ys) = elim (Bool-cases (leb x y)) [
  | inl before ↦ rw before refl
  | inr after ↦ rw after (omega (arith, sum-insert x ys))
]

sum-sort : (xs : List ℕ) → sum (sort xs) ≡ sum xs
unfolding sort
sum-sort [] = refl
sum-sort (x ∷ xs) = omega (arith, sum-insert x (sort xs), sum-sort xs)

-- Counting is not changed by sorting.
abbrev pub count : (ℕ → Bool) → List ℕ → ℕ
count f [] = 0
count f (x ∷ xs) = (if f x then 1 else 0) + count f xs

count-insert :
    (f : ℕ → Bool) (x : ℕ) (xs : List ℕ)
    → count f (insert x xs) ≡ (if f x then 1 else 0) + count f xs
unfolding insert
count-insert f x [] = refl
count-insert f x (y ∷ ys) = elim (Bool-cases (leb x y)) [
  | inl before ↦ rw before refl
  | inr after ↦ rw after (omega (arith, count-insert f x ys))
]

count-sort : (f : ℕ → Bool) (xs : List ℕ) → count f (sort xs) ≡ count f xs
unfolding sort
count-sort f [] = refl
count-sort f (x ∷ xs) = omega (arith, count-insert f x (sort xs), count-sort f xs)

-- Those below a number, and those above it.
abbrev pub below : ℕ → ℕ → Bool
below m x = ltb x m

abbrev pub above : ℕ → ℕ → Bool
above m x = ltb m x

none_below : (m low : ℕ) (xs : List ℕ) → Ascends low xs → m ≤ low → count (below m) xs ≡ 0
none_below m low [] a le = refl
none_below m low (x ∷ xs) a le =
    let rest = none_below m x xs a.1 (omega (arith, a.0, le)) in ground (arith, rest, a.0, le)

count-length : (f : ℕ → Bool) (xs : List ℕ) → count f xs ≤ length xs
count-length f [] = omega arith
count-length f (x ∷ xs) = let rest = count-length f xs in ground (arith, rest)

few_below :
    (low i : ℕ) (xs : List ℕ)
    → Ascends low xs
    → i < length xs
    → count (below (get_or xs i 0)) xs ≤ i
few_below low i [] a lt = absurd (omega arith)
few_below low zero (x ∷ xs) a lt =
    let rest = none_below x x xs a.1 (omega arith) in ground (arith, rest)
few_below low (suc i) (x ∷ xs) a lt =
    let rest = few_below x i xs a.1 (omega (arith, lt)) in ground (arith, rest)

few_above :
    (low i : ℕ) (xs : List ℕ)
    → Ascends low xs
    → i < length xs
    → count (above (get_or xs i 0)) xs + i + 1 ≤ length xs
few_above low i [] a lt = absurd (omega arith)
few_above low zero (x ∷ xs) a lt = let rest = count-length (above x) xs in ground (arith, rest)
few_above low (suc i) (x ∷ xs) a lt =
    let rest = few_above x i xs a.1 (omega (arith, lt)) in
    let le = above_low x i xs a.1 (omega (arith, lt)) in ground (arith, rest, le)

sorted_last :
    (xs : List ℕ) → 1 ≤ length xs → Ascends 0 xs → AllUpTo (get_or xs (length xs - 1) 0) xs
sorted_last [] le a = absurd (omega arith)
sorted_last (x ∷ xs) le a =
    let end : suc (length xs) - 1 ≡ length xs = omega arith in
    subst (λ k. AllUpTo (get_or (x ∷ xs) k 0) (x ∷ xs)) (sym end) (up_to_last 0 x xs a)

-- Of some numbers, at most `p` in a hundred are below `m` and at most the others above it.
abbrev pub Splits : ℕ → ℕ → List ℕ → Type 0
Splits p m xs =
    (100 * count (below m) xs ≤ p * length xs)
    × (100 * count (above m) xs + p * length xs ≤ 100 * length xs)

sort-Splits :
    (p i : ℕ) (xs : List ℕ)
    → i < length xs
    → 100 * i ≤ p * length xs
    → p * length xs ≤ 100 * (i + 1)
    → Splits p (get_or (sort xs) i 0) xs
sort-Splits p i xs lt low high =
    let m = get_or (sort xs) i 0 in
    let up = sort-Ascends xs in
    let inside : i < length (sort xs) = omega (arith, length-sort xs, lt) in
    (
      omega (arith, few_below 0 i (sort xs) up inside, count-sort (below m) xs, low),
      omega
          (arith, few_above 0 i (sort xs) up inside, count-sort (above m) xs, length-sort xs, high),
    )

module _ {D : Type 0} ⦃doubles : Doubles D⦄ where
  -- The percentiles in order, and the average up to the largest.
  abbrev pub InOrder : LatencyResult D → Type 0
  InOrder r = (r.p50 ≤ r.p95) × (r.p95 ≤ r.p100) × (r.avg ≤ r.p100)

  -- Of the latencies that `LatencyResult::from` is given, at least one and fewer than 2^31, with a `double`
  -- that rounds as IEEE 754 has it, none is above p100, at most 95 in a hundred are below p95 and at most 5
  -- above it, and at most half are below p50 and at most half above it; p50, p95 and p100 are in order; and
  -- the average is not above p100.
  pub from-bounds :
      (d : ℕ) (ds : List ℕ)
      → IsAccurate doubles
      → length (d ∷ ds) < 2 ^ 31
      → AllUpTo (from {D = D} (d ∷ ds)).p100 (d ∷ ds)
        × InOrder (from {D = D} (d ∷ ds))
        × Splits 95 (from {D = D} (d ∷ ds)).p95 (d ∷ ds)
        × Splits 50 (from {D = D} (d ∷ ds)).p50 (d ∷ ds)
  unfolding from
  from-bounds d ds accurate short =
      let xs = sort (d ∷ ds) in
      let n = length (d ∷ ds) in
      let up = sort-Ascends (d ∷ ds) in
      let len : length xs ≡ n = length-sort (d ∷ ds) in
      let at : AllUpTo (get_or xs (length xs - 1) 0) xs = sorted_last xs (omega (arith, len)) up in
      let last : AllUpTo (get_or xs (n - 1) 0) xs = rw len at at in
      let i = index_95 doubles n in
      let (low, high) = index_95-near accurate n short in
      let total : sum xs ≤ n * get_or xs (n - 1) 0 =
        rw len at (sum-le (get_or xs (n - 1) 0) xs last) in
      (
        sort-AllUpTo (get_or xs (n - 1) 0) (d ∷ ds) last,
        (
          get_or-le 0 (n / 2) i xs up (omega (arith, low, high)) (omega (arith, len, low)),
          get_or-le 0 i (n - 1) xs up (omega (arith, low)) (omega (arith, len)),
          div-le_of_le-mul n total,
        ),
        sort-Splits 95 i (d ∷ ds) (omega (arith, low)) low high,
        sort-Splits 50 (n / 2) (d ∷ ds) (omega arith) (omega arith) (omega arith),
      )
