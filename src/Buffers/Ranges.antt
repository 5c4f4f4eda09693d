-- ===== src/Buffers/Ranges.antt =====
-- `BufferProviderV1` of netbench.cpp: the indices of free buffers, kept as ranges that are given to
-- the kernel one at a time. `to_provide` holds the vector `toProvide_` with its back at the head.
pub mod Indices
pub mod Compact
mod Tests
use netbench.Base.{
  ℕ, suc, ◌+◌, ◌-◌, ◌*◌, ◌/◌, ◌%◌, ◌^◌, Bool, Option, none, some, List, [], ◌∷◌, ltb, leb, ◌==◌,
  if◌then◌else◌, length,
}

-- `Range`, both fields `uint16_t`.
pub record Range : Type 0 where
  pub start : ℕ
  pub count : ℕ

-- `Range(idx, count)` narrows both to 16 bits.
unfoldable pub mk_range : ℕ → ℕ → Range
mk_range idx count = record { start = idx % 2 ^ 16; count = count % 2 ^ 16 }

-- `sortable`, the two fields read as one word on a little endian machine.
abbrev pub sortable : Range → ℕ
sortable r = r.start * 2 ^ 16 + r.count

-- `merge(uint16_t idx)`: `none` is `false`. `start - 1` is an `int`, so no index is before 0.
unfoldable pub merge_index : Range → ℕ → Option Range
merge_index r idx =
    if idx + 1 == r.start
    then some (record { start = idx; count = (r.count + 1) % 2 ^ 16 })
    else if idx == r.start + r.count
    then some (record r { count = (r.count + 1) % 2 ^ 16 })
    else none

-- `merge(Range const& r)`
unfoldable pub merge_range : Range → Range → Option Range
merge_range a r =
    if a.start + a.count == r.start
    then some (record a { count = (a.count + r.count) % 2 ^ 16 })
    else if r.start + r.count == a.start
    then some (record { start = r.start; count = (a.count + r.count) % 2 ^ 16 })
    else none

pub record Provider : Type 0 where
  pub size_per_buffer : ℕ
  pub buffer_count : ℕ
  pub to_provide_count : ℕ
  pub low_watermark : ℕ
  pub to_provide : List Range

-- `addAlignment`, also of `BufferProviderV2`.
unfoldable pub add_alignment : ℕ → ℕ
add_alignment n = 32 * ((n + 31) / 32)

-- The constructor. The watermark is the one that `parseRx` leaves, which is not negative.
unfoldable pub init : ℕ → ℕ → ℕ → Provider
unfolding mk_range add_alignment
init recv_size low_watermark count = record {
  size_per_buffer = add_alignment recv_size;
  buffer_count = count;
  to_provide_count = count;
  low_watermark = low_watermark;
  to_provide = mk_range 0 count ∷ [];
}

unfoldable pub can_provide : Provider → Bool
can_provide p = ltb 0 (length p.to_provide)

unfoldable pub needs_to_provide : Provider → Bool
needs_to_provide p = ltb p.low_watermark p.to_provide_count

-- The loop of `compact` over the sorted vector: the head of `out` is `toProvide2_.back()`.
unfoldable pub merge_onto : List Range → Range → List Range
merge_onto [] p = p ∷ []
merge_onto (b ∷ out) p = elim (merge_range b p) [ none ↦ p ∷ b ∷ out | some m ↦ m ∷ out ]

unfoldable pub merge_all : List Range → List Range → List Range
merge_all out [] = out
merge_all out (p ∷ ps) = merge_all (merge_onto out p) ps

-- `std::sort` by `sortable`. Ranges that compare equal are equal, so every sort gives this one.
unfoldable pub insert_sorted : Range → List Range → List Range
insert_sorted r [] = r ∷ []
insert_sorted r (s ∷ rest) =
    if ltb (sortable s) (sortable r) then s ∷ insert_sorted r rest else r ∷ s ∷ rest

unfoldable pub sort_ranges : List Range → List Range
unfolding insert_sorted
sort_ranges [] = []
sort_ranges (r ∷ rest) = insert_sorted r (sort_ranges rest)

unfoldable pub compact_ranges : List Range → List Range
compact_ranges [] = []
compact_ranges (a ∷ []) = a ∷ []
compact_ranges (b ∷ a ∷ []) = elim (merge_range a b) [ none ↦ b ∷ a ∷ [] | some m ↦ m ∷ [] ]
compact_ranges (c ∷ b ∷ a ∷ rest) = merge_all [] (sort_ranges (c ∷ b ∷ a ∷ rest))

-- `compact`
unfoldable pub compact : Provider → Provider
unfolding compact_ranges
compact p = record p { to_provide = compact_ranges p.to_provide }

-- The branches of `returnIndex` on the vector.
unfoldable pub put_second : Range → List Range → ℕ → List Range
put_second back [] i = record { start = i; count = 1 } ∷ back ∷ []
put_second back (second ∷ rest) i = elim (merge_index second i) [
  | none ↦ record { start = i; count = 1 } ∷ back ∷ second ∷ rest
  | some s ↦ elim (merge_range s back) [ none ↦ back ∷ s ∷ rest | some m ↦ m ∷ rest ]
]

unfoldable pub put_index : List Range → ℕ → List Range
unfolding put_second
put_index [] i = record { start = i; count = 1 } ∷ []
put_index (back ∷ rest) i = elim (merge_index back i) [
  | none ↦ put_second back rest i
  | some b ↦ b ∷ rest
]

-- `returnIndex`
unfoldable pub return_index : Provider → ℕ → Provider
unfolding put_index
return_index p i = record p {
  to_provide = put_index p.to_provide i;
  to_provide_count = p.to_provide_count + 1;
}

-- `provide`: the range that goes to the kernel. `none` is a call on an empty vector.
unfoldable pub provide : Provider → Option (Range × Provider)
provide p = elim p.to_provide [
  | [] ↦ none
  | r ∷ rest ↦
      some (r, record p { to_provide_count = p.to_provide_count - r.count; to_provide = rest })
]
