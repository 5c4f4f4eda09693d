-- ===== src/Protocol/Stream.antt =====
-- What `ProtocolParser::consume` makes of one request that arrives in pieces.
use netbench.Base.{
  ℕ, suc, ◌+◌, ◌-◌, ◌%◌, ◌^◌, ◌<◌, ◌≤◌, ◌≡◌, refl, inl, inr, some, arith, leb, leb→le, lt→ltb,
  Bool-cases, ◌==◌, true, false, ◌&&◌, min, ap,
}
use netbench.Protocol.{
  Memory, memcpy, word32, ProtocolParser, no_results, read_header, collect_header, is_complete,
  reset, consume_loop, consume,
}

-- `mem` holds the `n` bytes of `msg` from `s` on. Nothing is said of `mem` past them.
abbrev pub Piece : Memory → ℕ → ℕ → Memory → Type 0
Piece msg s n mem = (i : ℕ) → i < n → mem i ≡ msg (s + i)

-- The parser has taken in the first `s` bytes of `msg`.
pub record Holds (msg : Memory) (s : ℕ) (p : ProtocolParser) : Type 0 where
  pub counted : p.so_far ≡ s
  pub early : s < 8 → (p.reading_len ≡ 0) × (p.size_buff_have ≡ s)
  pub kept : (i : ℕ) → i < s → s < 8 → p.size_buff i ≡ msg i
  pub late : 8 ≤ s → (p.reading_len ≡ word32 msg 0) × (p.reading_resp ≡ word32 msg 4)

-- Memories that agree on four bytes hold one word there.
word32_agree :
    (m w : Memory) (a b : ℕ)
    → ((i : ℕ) → i < 4 → m (a + i) ≡ w (b + i))
    → m a ≡ w b
    → word32 m a ≡ word32 w b
unfolding word32
word32_agree m w a b h z = rw (z, h 1 (omega arith), h 2 (omega arith), h 3 (omega arith))

memcpy-Piece :
    (msg mem buff : Memory) (s n add i : ℕ)
    → Piece msg s n mem
    → ((j : ℕ) → j < s → buff j ≡ msg j)
    → add ≤ n
    → i < s + add
    → memcpy buff s mem 0 add i ≡ msg i
unfolding memcpy
memcpy-Piece msg mem buff s n add i piece kept le lt = elim (Bool-cases (leb s i)) [
  | inr out ↦ rw out (kept i (ground arith))
  | inl inside ↦
      let off = i - s in
      let there : s + off ≡ i = omega (arith, leb→le s i inside) in
      ground (arith, piece (0 + (i - s)), ap msg there)
]

-- The header step takes in the bytes of the piece, whatever the split.
module _ {msg mem : Memory} {s n : ℕ} {p : ProtocolParser} (piece : Piece msg s n mem)
    (h : Holds msg s p) (nonempty : 0 < n) (fits : s + n < 2 ^ 32) where
  collect_header-Holds :
      s < 8
      → (s ≡ 0 → n < 8)
      → Holds msg (s + n) (collect_header (record p { so_far = s + n }) mem 0 n)
  unfolding collect_header
  collect_header-Holds lt short =
      rw ((h.early lt).1, wide)
        (elim (Bool-cases (leb 8 (s + min n (8 - s)))) [
          | inl full ↦ rw full (record {
            counted = refl;
            early = λ q. absurd (omega (arith, leb→le 8 _ full));
            kept = λ i a b. absurd (omega (arith, leb→le 8 _ full));
            late = λ q. (
              word32_agree _ msg 0 0 (λ i a. copied (0 + i) (omega (arith, leb→le 8 _ full)))
                  (copied 0 (omega (arith, leb→le 8 _ full))),
              word32_agree _ msg 4 4 (λ i a. copied (4 + i) (omega (arith, leb→le 8 _ full)))
                  (copied 4 (omega (arith, leb→le 8 _ full))),
            );
          })
          | inr part ↦ rw part (record {
            counted = refl;
            early = λ q. ((h.early lt).0, ground arith);
            kept = λ i a b. copied i (ground arith);
            late = λ q. absurd (ground arith);
          })
        ])
    where
      wide : n % 2 ^ 32 ≡ n
      wide = omega arith

      copied :
          (i : ℕ) → i < s + min n (8 - s) → memcpy p.size_buff s mem 0 (min n (8 - s)) i ≡ msg i
      copied i =
          memcpy-Piece msg mem p.size_buff s n (min n (8 - s)) i piece (λ j q. h.kept j q lt)
            (omega arith)

  pub read_header-Holds : 0 < word32 msg 0 → Holds msg (s + n) (read_header p mem 0 n)
  unfolding read_header
  read_header-Holds pos = rw total (elim (Bool-cases (leb 8 s)) [
    | inl big ↦ rw (known big) (record {
      counted = refl;
      early = λ q. absurd (omega (arith, leb→le 8 _ big));
      kept = λ i a b. absurd (omega (arith, leb→le 8 _ big));
      late = λ q. h.late (leb→le 8 _ big);
    })
    | inr small ↦ rw (unknown small) (elim (Bool-cases (leb 8 n && (p.size_buff_have == 0))) [
      | inl whole ↦ rw whole (record {
        counted = refl;
        early = λ q. absurd (ground arith);
        kept = λ i a b. absurd (ground arith);
        late = λ q. (
          word32_agree mem msg 0 0 (λ i a. at_start small whole (0 + i) (ground arith))
              (at_start small whole 0 (ground arith)),
          word32_agree mem msg 4 4 (λ i a. at_start small whole (4 + i) (ground arith))
              (at_start small whole 4 (ground arith)),
        );
      })
      | inr part ↦
          rw part
            (collect_header-Holds (ground arith) (λ e. ground (arith, h.early (ground arith))))
    ])
  ])
    where
      total : (p.so_far + n) % 2 ^ 32 ≡ s + n
      total = omega (arith, h.counted)

      known : leb 8 s ≡ true → (p.reading_len == 0) ≡ false
      known big = ground (arith, h.late (leb→le 8 s big))

      unknown : leb 8 s ≡ false → (p.reading_len == 0) ≡ true
      unknown small = ground (arith, h.early (ground arith))

      at_start :
          leb 8 s ≡ false
          → (leb 8 n && (p.size_buff_have == 0)) ≡ true
          → (i : ℕ) → i < 8
          → mem i ≡ msg i
      at_start small whole i q = ground (arith, piece i, h.early)

-- Nothing of a request is held.
pub record IsIdle (p : ProtocolParser) : Type 0 where
  pub none_so_far : p.so_far ≡ 0
  pub no_len : p.reading_len ≡ 0
  pub no_have : p.size_buff_have ≡ 0

pub IsIdle-Holds : (msg : Memory) {p : ProtocolParser} → IsIdle p → Holds msg 0 p
IsIdle-Holds msg v = record {
  counted = v.none_so_far;
  early = λ q. (v.no_len, v.no_have);
  kept = λ i a b. absurd (omega arith);
  late = λ q. absurd (omega arith);
}

module _ {msg mem : Memory} {s n : ℕ} {p : ProtocolParser} (piece : Piece msg s n mem)
    (h : Holds msg s p) (nonempty : 0 < n) (pos : 0 < word32 msg 0)
    (small : word32 msg 0 + 8 < 2 ^ 32) where
  read_incomplete : s + n < word32 msg 0 + 8 → is_complete (read_header p mem 0 n) ≡ false
  unfolding is_complete
  read_incomplete lt =
      let next = read_header-Holds piece h nonempty (omega arith) pos in
      elim (Bool-cases (leb 8 (s + n))) [
        | inl big ↦ ground (arith, next.counted, next.late (leb→le 8 _ big))
        | inr few ↦ ground (arith, next.early (ground arith))
      ]

  read_complete : s + n ≡ word32 msg 0 + 8 → is_complete (read_header p mem 0 n) ≡ true
  unfolding is_complete
  read_complete e =
      let next = read_header-Holds piece h nonempty (omega arith) pos in
      ground (arith, next.counted, next.late (omega arith))

  -- A piece that does not complete the request is taken in, and owes nothing yet.
  pub consume_part :
      s + n < word32 msg 0 + 8
      → (q : ProtocolParser) × (consume p mem n ≡ some (q, no_results)) × Holds msg (s + n) q
  unfolding consume consume_loop
  consume_part lt = (
    read_header p mem 0 n,
    rw (steps, lt→ltb 0 n nonempty, read_incomplete lt),
    read_header-Holds piece h nonempty (omega arith) pos,
  )
    where
      steps : p.so_far + n + 1 ≡ suc (p.so_far + n)
      steps = omega arith

  -- The piece that completes it owes one answer of the size it asks for, and leaves the parser idle.
  pub consume_end :
      s + n ≡ word32 msg 0 + 8
      → word32 msg 4 < 2 ^ 32
      → (q : ProtocolParser) × (consume p mem n
          ≡ some (q, record { to_write = word32 msg 4; count = 1 }))
        × IsIdle q
  unfolding consume consume_loop reset
  consume_end e resp = (
    reset (read_header p mem 0 n),
    rw (steps, lt→ltb 0 n nonempty, read_complete e, ends, wanted) (ground arith),
    record { none_so_far = refl; no_len = refl; no_have = refl },
  )
    where
      next : Holds msg (s + n) (read_header p mem 0 n)
      next = read_header-Holds piece h nonempty (omega arith) pos

      steps : p.so_far + n + 1 ≡ suc (suc (p.so_far + n - 1))
      steps = omega arith

      ends : (read_header p mem 0 n).so_far - ((read_header p mem 0 n).reading_len + 8) ≡ 0
      ends = omega (arith, next.counted, next.late (omega arith))

      wanted : (read_header p mem 0 n).reading_resp ≡ word32 msg 4
      wanted = (next.late (omega arith)).1
