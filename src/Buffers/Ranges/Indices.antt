-- ===== src/Buffers/Ranges/Indices.antt =====
-- Which buffer indices the ranges hold, and how often: no operation loses one or makes one up.
use netbench.Base.{
  ℕ, ◌+◌, ◌^◌, ◌<◌, ◌≡◌, refl, ◌&&◌, some, List, [], ◌∷◌, ltb, leb, ◌==◌, if◌then◌else◌, arith, inl,
  inr, Option-cases, Bool-cases,
}
use netbench.Buffers.Ranges.{
  Range, merge_index, merge_range, Provider, put_second, put_index, return_index, provide,
  merge_onto, merge_all, insert_sorted, sort_ranges, compact_ranges, compact, sortable,
}

-- How often `a` stands in a range, and in a list of them.
abbrev pub in_range : ℕ → Range → ℕ
in_range a r = if leb r.start a && ltb a (r.start + r.count) then 1 else 0

abbrev pub occurs : ℕ → List Range → ℕ
occurs a [] = 0
occurs a (r ∷ rs) = in_range a r + occurs a rs

abbrev pub total : List Range → ℕ
total [] = 0
total (r ∷ rs) = r.count + total rs

abbrev pub is_index : ℕ → ℕ → ℕ
is_index a i = if a == i then 1 else 0

merge_index-in_range :
    (r m : Range) (i a : ℕ)
    → r.count + 1 < 2 ^ 16
    → merge_index r i ≡ some m
    → (in_range a m ≡ in_range a r + is_index a i) × (m.count ≡ r.count + 1)
unfolding merge_index
merge_index-in_range r m i a h e = ground arith

merge_range-in_range :
    (r s m : Range) (a : ℕ)
    → r.count + s.count < 2 ^ 16
    → merge_range r s ≡ some m
    → (in_range a m ≡ in_range a r + in_range a s) × (m.count ≡ r.count + s.count)
unfolding merge_range
merge_range-in_range r s m a h e = ground arith

put_second-occurs :
    (back : Range) (rest : List Range) (i a : ℕ)
    → back.count + total rest + 1 < 2 ^ 16
    → (occurs a (put_second back rest i) ≡ is_index a i + occurs a (back ∷ rest))
      × (total (put_second back rest i) ≡ total (back ∷ rest) + 1)
unfolding put_second
put_second-occurs back [] i a h = ground arith
put_second-occurs back (second ∷ rest) i a h = elim (Option-cases (merge_index second i)) [
  | inl e ↦ rw (e, put_second) (ground arith)
  | inr (s, e) ↦
      let first = merge_index-in_range second s i a (omega arith) e in
      elim (Option-cases (merge_range s back)) [
        | inl e' ↦ rw (e, put_second) (rw (e', put_second) (omega (arith, first)))
        | inr (m, e') ↦
            rw (e, put_second)
              (rw (e', put_second)
                (omega (arith, first, merge_range-in_range s back m a (omega (arith, first)) e')))
      ]
]

put_index-occurs :
    (rs : List Range) (i a : ℕ)
    → total rs + 1 < 2 ^ 16
    → (occurs a (put_index rs i) ≡ is_index a i + occurs a rs)
      × (total (put_index rs i) ≡ total rs + 1)
unfolding put_index
put_index-occurs [] i a h = ground arith
put_index-occurs (back ∷ rest) i a h = elim (Option-cases (merge_index back i)) [
  | inl e ↦ rw (e, put_index) (put_second-occurs back rest i a h)
  | inr (b, e) ↦ rw (e, put_index) (omega (arith, merge_index-in_range back b i a (omega arith) e))
]

-- The count that the provider keeps is the number of indices in its ranges.
pub record IsCounted (p : Provider) : Type 0 where
  pub counted : p.to_provide_count ≡ total p.to_provide

-- For a provider whose count is right, with room for one more index in 16 bits, `returnIndex` adds one
-- index to those that can be given back, merges or not, and the count stays right.
pub return_index-occurs :
    (p : Provider) (i : ℕ)
    → IsCounted p
    → total p.to_provide + 1 < 2 ^ 16
    → ((a : ℕ) → occurs a (return_index p i).to_provide ≡ is_index a i + occurs a p.to_provide)
      × IsCounted (return_index p i)
unfolding return_index
return_index-occurs p i v h = (
  λ a. (put_index-occurs p.to_provide i a h).0,
  record { counted = omega (arith, put_index-occurs p.to_provide i i h, v.counted) },
)

insert_sorted-occurs :
    (r : Range) (rs : List Range) (a : ℕ)
    → (occurs a (insert_sorted r rs) ≡ in_range a r + occurs a rs)
      × (total (insert_sorted r rs) ≡ r.count + total rs)
unfolding insert_sorted
insert_sorted-occurs r [] a = (refl, refl)
insert_sorted-occurs r (s ∷ rest) a = elim (Bool-cases (ltb (sortable s) (sortable r))) [
  | inl e ↦ rw e (omega (arith, insert_sorted-occurs r rest a))
  | inr e ↦ rw e (refl, refl)
]

pub sort_ranges-occurs :
    (rs : List Range) (a : ℕ)
    → (occurs a (sort_ranges rs) ≡ occurs a rs) × (total (sort_ranges rs) ≡ total rs)
unfolding sort_ranges
sort_ranges-occurs [] a = (refl, refl)
sort_ranges-occurs (r ∷ rest) a =
    omega (arith, insert_sorted-occurs r (sort_ranges rest) a, sort_ranges-occurs rest a)

pub merge_onto-occurs :
    (out : List Range) (p : Range) (a : ℕ)
    → total out + p.count < 2 ^ 16
    → (occurs a (merge_onto out p) ≡ occurs a out + in_range a p)
      × (total (merge_onto out p) ≡ total out + p.count)
unfolding merge_onto
merge_onto-occurs [] p a h = omega arith
merge_onto-occurs (b ∷ out) p a h = elim (Option-cases (merge_range b p)) [
  | inl e ↦ rw (e, merge_onto) (omega arith)
  | inr (m, e) ↦ rw (e, merge_onto) (omega (arith, merge_range-in_range b p m a (omega arith) e))
]

merge_all-occurs :
    (out ps : List Range) (a : ℕ)
    → total out + total ps < 2 ^ 16
    → (occurs a (merge_all out ps) ≡ occurs a out + occurs a ps)
      × (total (merge_all out ps) ≡ total out + total ps)
unfolding merge_all
merge_all-occurs out [] a h = omega arith
merge_all-occurs out (p ∷ ps) a h =
    let step = merge_onto-occurs out p a (omega arith) in
    omega (arith, step, merge_all-occurs (merge_onto out p) ps a (omega (arith, step)))

compact_ranges-occurs :
    (rs : List Range) (a : ℕ)
    → total rs < 2 ^ 16
    → (occurs a (compact_ranges rs) ≡ occurs a rs) × (total (compact_ranges rs) ≡ total rs)
unfolding compact_ranges
compact_ranges-occurs [] a h = (refl, refl)
compact_ranges-occurs (x ∷ []) a h = (refl, refl)
compact_ranges-occurs (y ∷ x ∷ []) a h = elim (Option-cases (merge_range x y)) [
  | inl e ↦ rw (e, compact_ranges) (refl, refl)
  | inr (m, e) ↦
      rw (e, compact_ranges) (omega (arith, merge_range-in_range x y m a (omega arith) e))
]
compact_ranges-occurs (z ∷ y ∷ x ∷ rest) a h =
    let sorted = sort_ranges-occurs (z ∷ y ∷ x ∷ rest) a in
    omega (
      arith,
      sorted,
      merge_all-occurs [] (sort_ranges (z ∷ y ∷ x ∷ rest)) a (omega (arith, sorted)),
    )

-- For a provider whose count is right and whose indices together fit 16 bits, `compact` changes how the
-- indices are grouped, never which they are or how many, and the count stays right.
pub compact-occurs :
    (p : Provider)
    → IsCounted p
    → total p.to_provide < 2 ^ 16
    → ((a : ℕ) → occurs a (compact p).to_provide ≡ occurs a p.to_provide)
      × (total (compact p).to_provide ≡ total p.to_provide)
      × IsCounted (compact p)
unfolding compact
compact-occurs p v h = (
  λ a. (compact_ranges-occurs p.to_provide a h).0,
  (compact_ranges-occurs p.to_provide 0 h).1,
  record { counted = omega (arith, v.counted, compact_ranges-occurs p.to_provide 0 h) },
)

-- For a provider whose count is right, `provide` takes the range that it gives to the kernel out of the
-- vector and nothing else, and the count falls by its size, never below zero, and stays right.
pub provide-occurs :
    (p q : Provider) (r : Range)
    → IsCounted p
    → provide p ≡ some (r, q)
    → ((a : ℕ) → occurs a p.to_provide ≡ in_range a r + occurs a q.to_provide)
      × (p.to_provide_count ≡ r.count + q.to_provide_count)
      × IsCounted q
unfolding provide
provide-occurs p q r v e = go p.to_provide refl
  where
    go :
        (rs : List Range)
        → p.to_provide ≡ rs
        → ((a : ℕ) → occurs a p.to_provide ≡ in_range a r + occurs a q.to_provide)
          × (p.to_provide_count ≡ r.count + q.to_provide_count)
          × IsCounted q
    go [] e' = ground (arith, e, e')
    go (x ∷ rest) e' = (
      λ a. ground (arith, e, e'),
      ground (arith, e, e', v.counted),
      record { counted = ground (arith, e, e', v.counted) },
    )
