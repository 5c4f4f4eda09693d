-- ===== src/Buffers/Ring/Flush.antt =====
-- What `BufferProviderV2::returnIndex` writes to the ring, and when.
use netbench.Base.{
  ℕ, zero, suc, ◌+◌, ◌-◌, ◌*◌, ◌/◌, ◌%◌, ◌^◌, ◌<◌, ◌≤◌, ◌≡◌, ◌≢◌, refl, arith, le→ltb, lt→ltb, ap,
  ◌∙◌, sym,
}
use native.Mathlib.Nat.{add-mul-mod_self_left}
use netbench.Base.Bits.{and_mask}
use netbench.Buffers.Ring.{
  Ring, batch, update, get_data, populate, push_entry, push_all, publish, return_index,
}

-- The ring has 2 ^ k entries, at least one for each index of a batch and at most one for each value of
-- the 16-bit tail.
pub record IsValid (k : ℕ) (r : Ring) : Type 0 where
  pub sized : r.ring_size ≡ 2 ^ k
  pub masked : r.ring_mask ≡ 2 ^ k - 1
  pub enough : batch ≤ 2 ^ k
  pub wraps : 2 ^ k * 2 ^ (16 - k) ≡ 2 ^ 16
  pub tail_fits : r.tail_cached < 2 ^ 16
  pub room : r.cached_indices < batch

-- The slot of the `j`th entry after the tail.
abbrev pub slot : ℕ → Ring → ℕ → ℕ
slot k r j = (r.tail_cached + j) % 2 ^ k

-- A 16-bit tail finds the same slot as one that never wraps.
mod_wrapped : (t j p q : ℕ) → 0 < p → p * q ≡ 65536 → (t % 65536 + j) % p ≡ (t + j) % p
mod_wrapped t j p q pos e =
    let whole : t % 65536 + j + p * (q * (t / 65536)) ≡ t + j =
      omega (arith, ap (λ (c : ℕ). c * (t / 65536)) e) in
    sym (add-mul-mod_self_left (t % 65536 + j) p (q * (t / 65536))) ∙ ap (λ c. c % p) whole

-- Fewer than `p` steps on, another slot.
mod_apart : (t j p : ℕ) → 0 < j → j < p → (t + j) % p ≢ t % p
mod_apart t j p pos lt e = grind arith

update_at {ℓ} : {A : Type ℓ} (f : ℕ → A) (i : ℕ) (a : A) → update f i a i ≡ a
unfolding update
update_at f i a = ground arith

update_off {ℓ} : {A : Type ℓ} (f : ℕ → A) (i j : ℕ) (a : A) → i ≢ j → update f i a j ≡ f j
unfolding update
update_off f i j a ne = ground arith

-- What is said of the state after `left` rounds of the publishing loop.
record Pushed (k left j : ℕ) (r r' : Ring) : Type 0 where
  written : (m : ℕ) → m < left → r'.bufs (slot k r m) ≡ populate r (r.indices (j + m))
  kept : (s : ℕ) → ((m : ℕ) → m < left → s ≢ slot k r m) → r'.bufs s ≡ r.bufs s
  moved : r'.tail_cached ≡ (r.tail_cached + left) % 2 ^ 16
  same_cached : r'.cached_indices ≡ r.cached_indices
  same_size : r'.ring_size ≡ r.ring_size
  same_mask : r'.ring_mask ≡ r.ring_mask

module _ (k q : ℕ) (size_pos : 0 < 2 ^ k) (divides : 2 ^ k * q ≡ 65536) where
  push_entry_slot :
      (r : Ring) (idx : ℕ)
      → r.ring_mask ≡ 2 ^ k - 1
      → push_entry r idx ≡ record r {
        bufs = update r.bufs (r.tail_cached % 2 ^ k) (populate r idx);
        tail_cached = (r.tail_cached + 1) % 2 ^ 16;
      }
  unfolding push_entry
  push_entry_slot r idx e = rw (e, and_mask k r.tail_cached)

  -- `r` after one round with the tail taken modulo the size.
  abbrev pushed_one : ℕ → Ring → Ring
  pushed_one j r = record r {
    bufs = update r.bufs (r.tail_cached % 2 ^ k) (populate r (r.indices j));
    tail_cached = (r.tail_cached + 1) % 2 ^ 16;
  }

  slot_next : (r : Ring) (j m : ℕ) → slot k (pushed_one j r) m ≡ slot k r (suc m)
  slot_next r j m =
      mod_wrapped (r.tail_cached + 1) m (2 ^ k) q size_pos divides
      ∙ ap (λ t. t % 2 ^ k) (omega arith)

  slot_here : (r : Ring) → slot k r 0 ≡ r.tail_cached % 2 ^ k
  slot_here r = ap (λ t. t % 2 ^ k) (omega arith)

  slot_apart : (r : Ring) (m : ℕ) → suc m < 2 ^ k → r.tail_cached % 2 ^ k ≢ slot k r (suc m)
  slot_apart r m lt same = mod_apart r.tail_cached (suc m) (2 ^ k) (omega arith) lt (sym same)

  Pushed-suc :
      (left j : ℕ) (r r' : Ring)
      → suc left ≤ 2 ^ k
      → Pushed k left (j + 1) (pushed_one j r) r'
      → Pushed k (suc left) j r r'
  unfolding populate get_data
  Pushed-suc left j r r' le rest = record {
    written = written;
    kept = λ s away.
        rest.kept s (λ m lt same. away (suc m) (omega arith) (same ∙ slot_next r j m))
        ∙ update_off r.bufs (r.tail_cached % 2 ^ k) s _
            (λ same. away 0 (omega arith) (sym same ∙ sym (slot_here r)));
    moved = omega (arith, rest.moved);
    same_cached = rest.same_cached;
    same_size = rest.same_size;
    same_mask = rest.same_mask;
  }
    where
      written : (m : ℕ) → m < suc left → r'.bufs (slot k r m) ≡ populate r (r.indices (j + m))
      written zero lt =
          ap r'.bufs (slot_here r)
          ∙ rest.kept (r.tail_cached % 2 ^ k)
              (λ m less same. slot_apart r m (omega arith) (same ∙ slot_next r j m))
          ∙ update_at r.bufs (r.tail_cached % 2 ^ k) _
          ∙ ap (λ i. populate r (r.indices i)) (omega arith)
      written (suc m) lt =
          ap r'.bufs (sym (slot_next r j m))
          ∙ rest.written m (omega arith)
          ∙ ap (λ i. populate r (r.indices i)) (omega arith)

  push_all-Pushed :
      (left j : ℕ) (r : Ring)
      → r.ring_mask ≡ 2 ^ k - 1
      → r.tail_cached < 2 ^ 16
      → left ≤ 2 ^ k
      → Pushed k left j r (push_all left j r)
  unfolding push_all
  push_all-Pushed zero j r e small le = record {
    written = λ m lt. absurd (omega arith);
    kept = λ s away. refl;
    moved = omega arith;
    same_cached = refl;
    same_size = refl;
    same_mask = refl;
  }
  push_all-Pushed (suc left) j r e small le = rw (push_entry_slot r (r.indices j) e) (
      Pushed-suc left j r _ le
        (push_all-Pushed left (j + 1) (pushed_one j r) e (omega arith) (omega arith)))

size_pos : {k : ℕ} {r : Ring} → IsValid k r → 0 < 2 ^ k
size_pos v = omega (arith, v.enough)

-- The ring after `returnIndex(i)` has taken the index into the array.
abbrev pub keep : Ring → ℕ → Ring
keep r i = record r {
  indices = update r.indices r.cached_indices i;
  cached_indices = r.cached_indices + 1;
}

-- Below a full batch `returnIndex` only remembers the index: neither the ring nor its tail changes.
pub return_index-waits :
    (k : ℕ) (r : Ring) (i : ℕ)
    → IsValid k r
    → r.cached_indices + 1 < batch
    → (return_index r i ≡ keep r i) × IsValid k (return_index r i)
unfolding return_index
return_index-waits k r i v lt = rw (lt→ltb (r.cached_indices + 1) batch lt) (
  refl,
  record {
    sized = v.sized;
    masked = v.masked;
    enough = v.enough;
    wraps = v.wraps;
    tail_fits = v.tail_fits;
    room = lt;
  },
)

-- In a ring with a power of two of entries that fits its batch, the index that fills the batch
-- publishes it: entry `m` after the old tail becomes the `m`th index remembered, with its buffer's
-- address and length, every other entry stays, and the published tail is the cached one moved on by the
-- size of the batch, as a 16-bit number. The array is empty again, and the ring stays valid.
pub return_index-publishes :
    (k : ℕ) (r : Ring) (i : ℕ)
    → IsValid k r
    → r.cached_indices + 1 ≡ batch
    → let r' = return_index r i in
      ((m : ℕ) → m < batch → r'.bufs (slot k r m) ≡ populate r ((keep r i).indices m))
      × ((s : ℕ) → ((m : ℕ) → m < batch → s ≢ slot k r m) → r'.bufs s ≡ r.bufs s)
      × (r'.tail ≡ (r.tail_cached + batch) % 2 ^ 16)
      × (r'.cached_indices ≡ 0)
      × IsValid k r'
unfolding return_index publish populate get_data
return_index-publishes k r i v e = rw (le→ltb (r.cached_indices + 1) batch (omega arith)) (
  λ m lt. done.written m lt ∙ ap (λ j. populate r ((keep r i).indices j)) (omega arith),
  done.kept,
  done.moved,
  done.same_cached,
  record {
    sized = done.same_size ∙ v.sized;
    masked = done.same_mask ∙ v.masked;
    enough = v.enough;
    wraps = v.wraps;
    tail_fits = omega (arith, done.moved);
    room = omega (arith, done.same_cached);
  },
)
  where
    start : Ring
    start = record (keep r i) { cached_indices = 0 }

    done : Pushed k batch 0 start (push_all batch 0 start)
    done =
        push_all-Pushed k (2 ^ (16 - k)) (size_pos v) v.wraps batch 0 start v.masked v.tail_fits
          v.enough
