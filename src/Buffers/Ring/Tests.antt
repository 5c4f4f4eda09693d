-- ===== src/Buffers/Ring/Tests.antt =====
-- Runs of `BufferProviderV2`, and its theorems at a small ring.
use netbench.Base.{ℕ, ◌+◌, ◌*◌, ◌<◌, ◌≡◌, ◌≢◌, refl, some, arith}
use netbench.Buffers.Ring.{Ring, batch, grow, populate, return_index}
use netbench.Buffers.Ring.Size.{IsRingSize, grow-IsRingSize}
use netbench.Buffers.Ring.Flush.{IsValid, slot, keep, return_index-publishes}

-- 64 slots, the tail at 50, and `cached` indices remembered.
abbrev with_cached : ℕ → Ring
with_cached cached = record {
  count = 60;
  size_per_buffer = 4096;
  buffer_base = 8192;
  ring_size = 64;
  ring_mask = 63;
  tail_cached = 50;
  tail = 50;
  bufs = λ i. record { bid = i; addr = 8192 + i * 4096; len = 4096 };
  cached_indices = cached;
  indices = λ j. j + 3;
}

with_cached-IsValid : (cached : ℕ) → cached < batch → IsValid 6 (with_cached cached)
with_cached-IsValid cached lt = record {
  sized = refl;
  masked = refl;
  enough = omega arith;
  wraps = refl;
  tail_fits = omega arith;
  room = lt;
}

grow_thousand : grow 32 1000 1 ≡ some 1024
unfolding grow
grow_thousand = refl

grow-IsRingSize_example : (size : ℕ) × (grow 32 8000 1 ≡ some size) × IsRingSize 8000 size
grow-IsRingSize_example = grow-IsRingSize 8000 (omega arith)

return_index-publishes_example :
    let r = with_cached 31 in
    let r' = return_index r 9 in
    ((m : ℕ) → m < batch → r'.bufs (slot 6 r m) ≡ populate r ((keep r 9).indices m))
    × ((s : ℕ) → ((m : ℕ) → m < batch → s ≢ slot 6 r m) → r'.bufs s ≡ r.bufs s)
    × (r'.tail ≡ 82)
    × (r'.cached_indices ≡ 0)
    × IsValid 6 r'
return_index-publishes_example =
    return_index-publishes 6 (with_cached 31) 9 (with_cached-IsValid 31 (omega arith)) refl
