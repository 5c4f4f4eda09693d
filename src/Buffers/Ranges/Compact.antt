-- ===== src/Buffers/Ranges/Compact.antt =====
-- What `compact` leaves: ranges of which no two neighbours can be merged.
use netbench.Base.{
  ℕ, ◌+◌, ◌^◌, ◌<◌, ◌≤◌, ◌≡◌, none, some, List, [], ◌∷◌, ltb, arith, inl, inr, Option-cases,
  Bool-cases,
}
use netbench.Buffers.Ranges.Indices.{total, merge_onto-occurs, sort_ranges-occurs}
use netbench.Buffers.Ranges.{
  Range, merge_index, merge_range, Provider, merge_onto, merge_all, insert_sorted, sort_ranges,
  compact_ranges, compact, sortable,
}

-- No range is empty or as long as a 16-bit count can hold.
abbrev pub Filled : List Range → Type 0
Filled [] = Unit
Filled (r ∷ rs) = (0 < r.count) × (r.count < 2 ^ 16) × Filled rs

-- Neighbours in the vector, front first, cannot be merged.
abbrev pub IsSettled : List Range → Type 0
IsSettled [] = Unit
IsSettled (x ∷ []) = Unit
IsSettled (x ∷ y ∷ rest) = (merge_range y x ≡ none) × IsSettled (y ∷ rest)

-- Starts rise from `lo`, and no range is empty.
abbrev Ascending : ℕ → List Range → Type 0
Ascending lo [] = Unit
Ascending lo (r ∷ rs) = (lo ≤ r.start) × (0 < r.count) × Ascending r.start rs

Ascending-mono : (lo hi : ℕ) (rs : List Range) → lo ≤ hi → Ascending hi rs → Ascending lo rs
Ascending-mono lo hi [] le h = tt
Ascending-mono lo hi (r ∷ rs) le h = (omega arith, h.1, h.2)

insert_sorted-Ascending :
    (lo : ℕ) (r : Range) (rs : List Range)
    → lo ≤ r.start
    → 0 < r.count
    → r.count < 2 ^ 16
    → Filled rs
    → Ascending lo rs
    → Ascending lo (insert_sorted r rs)
unfolding insert_sorted
insert_sorted-Ascending lo r [] le pos small f h = (le, pos, tt)
insert_sorted-Ascending lo r (s ∷ rest) le pos small f h =
    elim (Bool-cases (ltb (sortable s) (sortable r))) [
      | inl e ↦
          rw e (h.0, h.1, insert_sorted-Ascending s.start r rest (ground arith) pos small f.2 h.2)
      | inr e ↦ rw e (le, pos, (ground arith, h.1, h.2))
    ]

insert_sorted-Filled :
    (r : Range) (rs : List Range)
    → 0 < r.count
    → r.count < 2 ^ 16
    → Filled rs
    → Filled (insert_sorted r rs)
unfolding insert_sorted
insert_sorted-Filled r [] pos small f = (pos, small, tt)
insert_sorted-Filled r (s ∷ rest) pos small f = elim (Bool-cases (ltb (sortable s) (sortable r))) [
  | inl e ↦ rw e (f.0, f.1, insert_sorted-Filled r rest pos small f.2)
  | inr e ↦ rw e (pos, small, f)
]

sort_ranges-Filled : (rs : List Range) → Filled rs → Filled (sort_ranges rs)
unfolding sort_ranges
sort_ranges-Filled [] f = tt
sort_ranges-Filled (r ∷ rs) f =
    insert_sorted-Filled r (sort_ranges rs) f.0 f.1 (sort_ranges-Filled rs f.2)

sort_ranges-Ascending : (rs : List Range) → Filled rs → Ascending 0 (sort_ranges rs)
unfolding sort_ranges
sort_ranges-Ascending [] f = tt
sort_ranges-Ascending (r ∷ rs) f =
    insert_sorted-Ascending 0 r (sort_ranges rs) (omega arith) f.0 f.1 (sort_ranges-Filled rs f.2)
      (sort_ranges-Ascending rs f.2)

-- The front of `out` starts no later than what comes next.
abbrev Reaches : List Range → ℕ → Type 0
Reaches [] lo = Unit
Reaches (b ∷ out) lo = b.start ≤ lo

merge_range-start :
    (b p m : Range) → b.start ≤ p.start → 0 < p.count → merge_range b p ≡ some m → m.start ≡ b.start
unfolding merge_range
merge_range-start b p m le pos e = ground arith

-- A longer range in front of `y` still does not reach back to it.
merge_range-grown :
    (y b m p : Range)
    → y.start ≤ b.start
    → b.start ≤ p.start
    → 0 < p.count
    → b.count + p.count < 2 ^ 16
    → merge_range b p ≡ some m
    → merge_range y b ≡ none
    → merge_range y m ≡ none
unfolding merge_range
merge_range-grown y b m p le le' pos small e h = ground arith

-- What `merge_all` keeps of `toProvide2_`, with the range that comes next.
abbrev Stacked : List Range → Type 0
Stacked [] = Unit
Stacked (x ∷ []) = Unit
Stacked (x ∷ y ∷ rest) = (y.start ≤ x.start) × Stacked (y ∷ rest)

merge_onto-Settled :
    (out : List Range) (p : Range)
    → IsSettled out × Stacked out × Reaches out p.start
    → 0 < p.count
    → total out + p.count < 2 ^ 16
    → IsSettled (merge_onto out p) × Stacked (merge_onto out p) × Reaches (merge_onto out p) p.start
unfolding merge_onto
merge_onto-Settled [] p h pos small = (tt, tt, omega arith)
merge_onto-Settled (b ∷ []) p h pos small = elim (Option-cases (merge_range b p)) [
  | inl e ↦ rw (e, merge_onto) ((e, tt), (h.2, tt), omega arith)
  | inr (m, e) ↦ rw (e, merge_onto) (tt, tt, omega (arith, merge_range-start b p m h.2 pos e, h.2))
]
merge_onto-Settled (b ∷ y ∷ rest) p h pos small = elim (Option-cases (merge_range b p)) [
  | inl e ↦ rw (e, merge_onto) ((e, h.0), (h.2, h.1), omega arith)
  | inr (m, e) ↦
      let start = merge_range-start b p m h.2 pos e in
      rw (e, merge_onto)
        (
          (merge_range-grown y b m p h.1.0 h.2 pos (omega arith) e h.0.0, h.0.1),
          (omega (arith, start, h.1.0), h.1.1),
          omega (arith, start, h.2),
        )
]

Reaches-mono : (out : List Range) (lo hi : ℕ) → lo ≤ hi → Reaches out lo → Reaches out hi
Reaches-mono [] lo hi le h = tt
Reaches-mono (b ∷ out) lo hi le h = omega arith

merge_all-Settled :
    (lo : ℕ) (out ps : List Range)
    → IsSettled out × Stacked out × Reaches out lo
    → Ascending lo ps
    → total out + total ps < 2 ^ 16
    → IsSettled (merge_all out ps)
unfolding merge_all
merge_all-Settled lo out [] h up small = h.0
merge_all-Settled lo out (p ∷ ps) h up small =
    merge_all-Settled p.start (merge_onto out p) ps
      (merge_onto-Settled out p (h.0, h.1, Reaches-mono out lo p.start up.0 h.2) up.1 (omega arith))
      up.2 (omega (arith, merge_onto-occurs out p 0 (omega arith)))

compact_ranges-Settled :
    (rs : List Range) → Filled rs → total rs < 2 ^ 16 → IsSettled (compact_ranges rs)
unfolding compact_ranges
compact_ranges-Settled [] f small = tt
compact_ranges-Settled (x ∷ []) f small = tt
compact_ranges-Settled (y ∷ x ∷ []) f small = elim (Option-cases (merge_range x y)) [
  | inl e ↦ rw (e, compact_ranges) (e, tt)
  | inr (m, e) ↦ rw (e, compact_ranges) tt
]
compact_ranges-Settled (z ∷ y ∷ x ∷ rest) f small =
    merge_all-Settled 0 [] (sort_ranges (z ∷ y ∷ x ∷ rest)) (tt, tt, tt)
      (sort_ranges-Ascending (z ∷ y ∷ x ∷ rest) f)
      (omega (arith, sort_ranges-occurs (z ∷ y ∷ x ∷ rest) 0))

-- After `compact` no two neighbouring ranges of the vector can be merged, if none was empty and all
-- indices together fit 16 bits.
pub compact-IsSettled :
    (p : Provider)
    → Filled p.to_provide
    → total p.to_provide < 2 ^ 16
    → IsSettled (compact p).to_provide
unfolding compact
compact-IsSettled p f small = compact_ranges-Settled p.to_provide f small

-- The last branch of `returnIndex` that merges two ranges is never taken: if the back and the range
-- before it could not be merged, the back cannot take the index, and the other can, then the grown
-- range and the back still cannot be merged.
pub put_second_apart :
    (back second grown : Range) (i : ℕ)
    → 0 < second.count
    → second.count + 1 < 2 ^ 16
    → 0 < back.count
    → merge_range second back ≡ none
    → merge_index back i ≡ none
    → merge_index second i ≡ some grown
    → merge_range grown back ≡ none
unfolding merge_range merge_index
put_second_apart back second grown i pos small pos' apart no_back yes_second = ground arith
