-- ===== src/Buffers/Ranges/Tests.antt =====
-- Runs of `BufferProviderV1`, and its theorems at a small provider.
use netbench.Base.{ℕ, ◌+◌, ◌≡◌, refl, [], ◌∷◌, arith}
use netbench.Buffers.Ranges.{
  Range, Provider, put_index, return_index, compact_ranges, compact, merge_range, merge_index,
  sort_ranges, insert_sorted, merge_all, merge_onto,
}
use netbench.Buffers.Ranges.Indices.{
  occurs, is_index, total, IsCounted, return_index-occurs, compact-occurs,
}
use netbench.Buffers.Ranges.Compact.{IsSettled, compact-IsSettled}

abbrev range : ℕ → ℕ → Range
range s n = record { start = s; count = n }

-- Indices 7, 1 to 2, 20 and 3 to 5, returned in that order.
abbrev scattered : Provider
scattered = record {
  size_per_buffer = 4096;
  buffer_count = 100;
  to_provide_count = 7;
  low_watermark = 25;
  to_provide = range 3 3 ∷ range 20 1 ∷ range 1 2 ∷ range 7 1 ∷ [];
}

scattered-IsCounted : IsCounted scattered
scattered-IsCounted = record { counted = refl }

compact_scattered : compact_ranges scattered.to_provide ≡ range 20 1 ∷ range 7 1 ∷ range 1 5 ∷ []
unfolding compact_ranges sort_ranges insert_sorted merge_all merge_onto merge_range
compact_scattered = refl

-- The order 1, 3, 2 that a comment in the source names: the two ranges stay apart.
out_of_order : put_index (put_index (put_index [] 1) 3) 2 ≡ range 2 2 ∷ range 1 1 ∷ []
unfolding put_index merge_index merge_range
out_of_order = refl

return_index-occurs_example :
    ((a : ℕ)
      → occurs a (return_index scattered 6).to_provide
        ≡ is_index a 6 + occurs a scattered.to_provide)
    × IsCounted (return_index scattered 6)
return_index-occurs_example = return_index-occurs scattered 6 scattered-IsCounted (omega arith)

compact-occurs_example :
    ((a : ℕ) → occurs a (compact scattered).to_provide ≡ occurs a scattered.to_provide)
    × (total (compact scattered).to_provide ≡ total scattered.to_provide)
    × IsCounted (compact scattered)
compact-occurs_example = compact-occurs scattered scattered-IsCounted (omega arith)

compact-IsSettled_example : IsSettled (compact scattered).to_provide
compact-IsSettled_example = compact-IsSettled scattered (omega arith) (omega arith)

abbrev provided : Provider
provided = record scattered {
  to_provide_count = 4;
  to_provide = range 20 1 ∷ range 1 2 ∷ range 7 1 ∷ [];
}
