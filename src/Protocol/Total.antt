-- ===== src/Protocol/Total.antt =====
-- The loop of `ProtocolParser::consume` and the number of its rounds.
use netbench.Base.{
  ℕ, zero, suc, ◌+◌, ◌%◌, ◌^◌, ◌<◌, ◌≤◌, ◌≡◌, inl, inr, some, arith, ltb, ltb→lt, Bool-cases, true,
  false,
}
use netbench.Protocol.{
  Memory, ProtocolParser, ConsumeResults, read_header, collect_header, is_complete, reset,
  consume_loop, consume,
}

so_far-collect_header :
    (p : ProtocolParser) (mem : Memory) (at n : ℕ) → (collect_header p mem at n).so_far ≡ p.so_far
unfolding collect_header
so_far-collect_header p mem at n = ground arith

pub so_far-read_header :
    (p : ProtocolParser) (mem : Memory) (at n : ℕ)
    → (read_header p mem at n).so_far ≡ (p.so_far + n) % 2 ^ 32
unfolding read_header
so_far-read_header p mem at n =
    ground (arith, so_far-collect_header (record p { so_far = (p.so_far + n) % 2 ^ 32 }) mem at n)

pub is_complete_so_far :
    (q : ProtocolParser)
    → is_complete q ≡ true
    → (0 < q.reading_len) × (q.reading_len + 8 < suc q.so_far)
unfolding is_complete
is_complete_so_far q h = ground arith

pub is_complete_of :
    (q : ProtocolParser) → 0 < q.reading_len → q.reading_len + 8 ≤ q.so_far → is_complete q ≡ true
unfolding is_complete
is_complete_of q pos le = ground arith

pub is_complete_unread : (q : ProtocolParser) → q.reading_len ≡ 0 → is_complete q ≡ false
unfolding is_complete
is_complete_unread q z = ground arith

consume_loop_total :
    (fuel : ℕ) (p : ProtocolParser) (mem : Memory) (at n : ℕ) (ret : ConsumeResults)
    → p.so_far + n < fuel
    → (r : ProtocolParser × ConsumeResults) × (consume_loop fuel p mem at n ret ≡ some r)
unfolding consume_loop
consume_loop_total zero p mem at n ret h = elim h [ ]
consume_loop_total (suc fuel) p mem at n ret h = elim (Bool-cases (ltb 0 n)) [
  | inr e ↦ ((p, ret), rw e)
  | inl e ↦ elim (Bool-cases (is_complete (read_header p mem at n))) [
    | inr c ↦ ((read_header p mem at n, ret), rw (e, c))
    | inl c ↦
        rw (e, c)
          (consume_loop_total fuel (reset (read_header p mem at n)) mem (at + n) _ _ (
            unfold reset in
            omega (arith, so_far-read_header p mem at n, is_complete_so_far _ c, ltb→lt 0 n e)))
  ]
]

-- `consume` returns for every parser state, every memory and every number of bytes: its loop ends
-- within `so_far + n + 1` rounds.
pub consume_total :
    (p : ProtocolParser) (mem : Memory) (n : ℕ)
    → (r : ProtocolParser × ConsumeResults) × (consume p mem n ≡ some r)
unfolding consume
consume_total p mem n = consume_loop_total (p.so_far + n + 1) p mem 0 n _ (omega arith)
