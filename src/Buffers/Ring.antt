-- ===== src/Buffers/Ring.antt =====
-- `BufferProviderV2` of netbench.cpp: a ring of buffer entries shared with the kernel. Returned
-- indices are kept in an array of 32 and published together. Arrays are functions from indices; the
-- modules below prove that the writes stay in range. `io_uring_buf_ring_mask` of liburing, documented
-- as the number of entries less one, is the argument `buf_ring_mask`.
pub mod Size
pub mod Flush
pub mod Init
mod Tests
use Prim.Native.Nat.{bit_and}
use netbench.Base.{
  ℕ, zero, suc, ◌+◌, ◌-◌, ◌*◌, ◌%◌, ◌^◌, Option, none, some, ltb, leb, ◌==◌, if◌then◌else◌,
}
use netbench.Base.Results.{Result, ok, err, died}
use netbench.Buffers.Ranges.{add_alignment}

-- `struct io_uring_buf`, the fields that `populate` writes.
pub record Entry : Type 0 where
  pub bid : ℕ
  pub addr : ℕ
  pub len : ℕ

pub record Ring : Type 0 where
  pub count : ℕ
  pub size_per_buffer : ℕ
  -- the address of `buffers_[0]`
  pub buffer_base : ℕ
  pub ring_size : ℕ
  pub ring_mask : ℕ
  pub tail_cached : ℕ
  -- `ring_->tail`, which the kernel reads
  pub tail : ℕ
  pub bufs : ℕ → Entry
  pub cached_indices : ℕ
  pub indices : ℕ → ℕ

-- `indices.size()`
abbrev pub batch : ℕ
batch = 32

unfoldable pub update {ℓ} : {A : Type ℓ} → (ℕ → A) → ℕ → A → ℕ → A
update f i a j = if i == j then a else f j

-- The loop that sizes the ring, on `uint32_t`. `none`: the fuel ran out.
unfoldable pub grow : ℕ → ℕ → ℕ → Option ℕ
grow zero count size = none
grow (suc fuel) count size =
    let more = grow fuel count (size * 2 % 2 ^ 32) in if ltb size count then more else some size

-- `getData`
unfoldable pub get_data : Ring → ℕ → ℕ
get_data r i = r.buffer_base + i * r.size_per_buffer

-- `populate`, the entry that it leaves
unfoldable pub populate : Ring → ℕ → Entry
unfolding get_data
populate r i = record { bid = i; addr = get_data r i; len = r.size_per_buffer }

-- The loop of the constructor: entry `i` of the ring is buffer `i`.
unfoldable pub fill : ℕ → Ring → Ring
unfolding populate update
fill zero r = r
fill (suc i) r = let r' = fill i r in record r' { bufs = update r'.bufs i (populate r' i) }

-- The members before the loop, with the ring and the buffers mapped.
unfoldable pub mapped : (ℕ → ℕ) → (ℕ → Entry) → (ℕ → ℕ) → ℕ → ℕ → ℕ → ℕ → Ring
unfolding add_alignment
mapped buf_ring_mask bufs indices base recv_size count ring_size = record {
  count = count;
  size_per_buffer = add_alignment recv_size;
  buffer_base = base;
  ring_size = ring_size;
  ring_mask = buf_ring_mask ring_size;
  tail_cached = 0;
  tail = 0;
  bufs = bufs;
  cached_indices = 0;
  indices = indices;
}

-- The constructor from the check of the count on.
unfoldable pub init : Ring → Result Ring
unfolding fill
init r =
    if leb 65535 r.count
    then err died
    else ok (record (fill r.count r) { tail_cached = r.count; tail = r.count })

-- One round of the publishing loop.
unfoldable pub push_entry : Ring → ℕ → Ring
unfolding populate update
push_entry r idx = record r {
  bufs = update r.bufs (bit_and r.tail_cached r.ring_mask) (populate r idx);
  tail_cached = (r.tail_cached + 1) % 2 ^ 16;
}

-- `for (uint16_t idx : indices)`, from entry `j` on, with `left` entries to go.
unfoldable pub push_all : ℕ → ℕ → Ring → Ring
unfolding push_entry
push_all zero j r = r
push_all (suc left) j r = push_all left (j + 1) (push_entry r (r.indices j))

unfoldable pub publish : Ring → Ring
unfolding push_all
publish r =
    let r' = push_all batch 0 (record r { cached_indices = 0 }) in
    record r' { tail = r'.tail_cached }

-- `returnIndex`
unfoldable pub return_index : Ring → ℕ → Ring
unfolding publish update
return_index r i =
    let kept = record r {
      indices = update r.indices r.cached_indices i;
      cached_indices = r.cached_indices + 1;
    } in
    if ltb kept.cached_indices batch then kept else publish kept
