-- ===== src/Protocol/Overrun.antt =====
-- A second request in the receive buffer: after a complete request `consume` moves `data` by the whole
-- of `n`, not by the bytes of the request.
use netbench.Base.{
  ℕ, suc, ◌+◌, ◌-◌, ◌%◌, ◌^◌, ◌<◌, ◌≡◌, refl, some, arith, leb, lt→ltb, le→leb, ap, min, true,
  false,
}
use netbench.Protocol.{
  Memory, memcpy, word32, ProtocolParser, read_header, collect_header, is_complete, reset,
  consume_loop, consume,
}
use native.Mathlib.Nat.{zero-add}
use netbench.Protocol.Total.{is_complete_of, is_complete_unread}
use netbench.Protocol.Stream.{Holds, IsIdle, IsIdle-Holds, read_header-Holds}

-- The header step just after a request, on fewer bytes than a header, at any pointer.
read_header-reset :
    (p : ProtocolParser) (mem : Memory) (at k : ℕ)
    → k < 8
    → read_header (reset p) mem at k ≡ record (reset p) {
      so_far = k;
      size_buff = memcpy p.size_buff 0 mem at k;
      size_buff_have = k;
    }
unfolding read_header collect_header reset
read_header-reset p mem at k few =
    let small : leb 8 k ≡ false = ground arith in
    let all : min (k % 2 ^ 32) 8 ≡ k = omega arith in
    let sum : (0 + k) % 2 ^ 32 ≡ k = omega arith in
    let sum' : 0 + k ≡ k = omega arith in rw (small, all) (rw (sum, sum', small))

memcpy_start : (dst src : Memory) (at k i : ℕ) → i < k → memcpy dst 0 src at k i ≡ src (at + i)
unfolding memcpy
memcpy_start dst src at k i lt =
    let off : i - 0 ≡ i = omega arith in
    let sum : 0 + k ≡ k = omega arith in rw (le→leb 0 i (omega arith), sum, lt→ltb i k lt, off)

-- A buffer of `n` bytes that holds a complete request and the first `k` bytes of the next header,
-- given to an idle parser: it keeps, as that header's first bytes, the `k` bytes of memory behind the
-- buffer instead.
pub consume_overrun :
    (p : ProtocolParser) (mem : Memory) (k n : ℕ)
    → IsIdle p
    → 0 < word32 mem 0
    → 0 < k
    → k < 8
    → n ≡ word32 mem 0 + 8 + k
    → n < 2 ^ 32
    → word32 mem 4 < 2 ^ 32
    → (q : ProtocolParser) × (consume p mem n
        ≡ some (q, record { to_write = word32 mem 4; count = 1 }))
      × (q.size_buff_have ≡ k)
      × ((i : ℕ) → i < k → q.size_buff i ≡ mem (n + i))
unfolding consume consume_loop reset
consume_overrun p mem k n v pos more few e fits resp = (
  after,
  rw (steps, lt→ltb 0 n (omega arith), first, over, wanted)
      (rw (lt→ltb 0 k more, at_n, second) (ground arith)),
  refl,
  λ i lt. memcpy_start (read_header p mem 0 n).size_buff mem n k i lt,
)
  where
    next : Holds mem (0 + n) (read_header p mem 0 n)
    next =
        read_header-Holds (λ i lt. ap mem (omega arith)) (IsIdle-Holds mem v) (omega arith)
          (omega arith) pos

    after : ProtocolParser
    after = record (reset (read_header p mem 0 n)) {
      so_far = k;
      size_buff = memcpy (read_header p mem 0 n).size_buff 0 mem n k;
      size_buff_have = k;
    }

    steps : p.so_far + n + 1 ≡ suc (suc (p.so_far + n - 1))
    steps = omega arith

    first : is_complete (read_header p mem 0 n) ≡ true
    first =
        is_complete_of _ (omega (arith, next.late (omega arith)))
          (omega (arith, next.counted, next.late (omega arith)))

    over : (read_header p mem 0 n).so_far - ((read_header p mem 0 n).reading_len + 8) ≡ k
    over = omega (arith, next.counted, next.late (omega arith))

    wanted : (read_header p mem 0 n).reading_resp ≡ word32 mem 4
    wanted = (next.late (omega arith)).1

    at_n : read_header (reset (read_header p mem 0 n)) mem (0 + n) k ≡ after
    at_n = rw (read_header-reset (read_header p mem 0 n) mem (0 + n) k few) (rw (zero-add n))

    second : is_complete after ≡ false
    second = is_complete_unread after refl
