-- ===== src/Buffers/Ring/Init.antt =====
-- What the constructor of `BufferProviderV2` leaves.
use netbench.Base.{
  ℕ, zero, suc, ◌+◌, ◌*◌, ◌/◌, ◌<◌, ◌≤◌, ◌≡◌, refl, arith, leb, leb→le, ◌⊎◌, inl, inr, Bool-cases,
}
use netbench.Base.Results.{ok, err, died}
use netbench.Buffers.Ranges.{add_alignment}
use netbench.Buffers.Ring.{Ring, Entry, update, get_data, populate, fill, mapped, init}

-- The size of a buffer is the least multiple of 32 that holds `recv_size`.
pub add_alignment_lem :
    (n : ℕ)
    → (n ≤ add_alignment n)
      × (add_alignment n < n + 32)
      × (add_alignment n / 32 * 32 ≡ add_alignment n)
unfolding add_alignment
add_alignment_lem n = omega arith

fill_same :
    (n : ℕ) (r : Ring)
    → (get_data (fill n r) 0 ≡ get_data r 0)
      × ((fill n r).size_per_buffer ≡ r.size_per_buffer)
      × ((fill n r).buffer_base ≡ r.buffer_base)
unfolding fill get_data
fill_same zero r = (refl, refl, refl)
fill_same (suc n) r = fill_same n r

populate_same : (n : ℕ) (r : Ring) (i : ℕ) → populate (fill n r) i ≡ populate r i
unfolding populate get_data
populate_same n r i = ground (arith, fill_same n r)

fill_populates : (n : ℕ) (r : Ring) (i : ℕ) → i < n → (fill n r).bufs i ≡ populate r i
unfolding fill update
fill_populates zero r i lt = elim lt [ ]
fill_populates (suc n) r i lt = ground (arith, populate_same n r n, fill_populates n r i)

-- The constructor dies for 65535 buffers or more. For fewer it leaves buffer `i` as entry `i` of the
-- ring, at `base` plus `i` whole buffers, and publishes exactly those entries.
pub init_populates :
    (buf_ring_mask : ℕ → ℕ) (bufs : ℕ → Entry) (indices : ℕ → ℕ)
    (base recv_size count ring_size : ℕ)
    → let r = mapped buf_ring_mask bufs indices base recv_size count ring_size in
      ((65535 ≤ count) × (init r ≡ err died))
      ⊎ ((r' : Ring) × (init r ≡ ok r')
          × (r'.tail ≡ count)
          × ((i : ℕ)
              → i < count
              → r'.bufs i ≡ record {
                bid = i;
                addr = base + i * add_alignment recv_size;
                len = add_alignment recv_size;
              }))
unfolding init mapped populate get_data
init_populates buf_ring_mask bufs indices base recv_size count ring_size =
    elim (Bool-cases (leb 65535 count)) [
      | inl e ↦ inl (leb→le 65535 count e, rw e)
      | inr e ↦ inr (
        record (fill count r) { tail_cached = count; tail = count },
        rw e,
        refl,
        λ i lt. fill_populates count r i lt,
      )
    ]
  where
    r : Ring
    r = mapped buf_ring_mask bufs indices base recv_size count ring_size
