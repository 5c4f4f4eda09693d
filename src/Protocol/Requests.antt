-- ===== src/Protocol/Requests.antt =====
-- Whole requests through `BasicSock::didRead`, each cut into receive completions at will.
use netbench.Base.{ℕ, ◌+◌, ◌^◌, ◌<◌, ◌≡◌, List, [], ◌∷◌, ◌++◌}
use netbench.Protocol.{Memory, word32, ConsumeResults, add_results}
use netbench.Protocol.Stream.{Piece}

-- The request at `msg` has a body, and its size fits the parser's 32-bit counter.
pub record IsRequest (msg : Memory) : Type 0 where
  pub has_body : 0 < word32 msg 0
  pub fits : word32 msg 0 + 8 < 2 ^ 32
  pub resp_fits : word32 msg 4 < 2 ^ 32

-- The pieces are the bytes of `msg` from `s` to its end, in order, none of them empty.
abbrev pub Splits : Memory → ℕ → List (Memory × ℕ) → Type 0
Splits msg s [] = s ≡ word32 msg 0 + 8
Splits msg s ((mem, n) ∷ ps) = (0 < n) × Piece msg s n mem × Splits msg (s + n) ps

-- The answer that a request asks for.
abbrev pub answer : Memory → ConsumeResults
answer msg = record { to_write = word32 msg 4; count = 1 }

pub record InRange (r : ConsumeResults) : Type 0 where
  pub bytes : r.to_write < 2 ^ 64
  pub requests : r.count < 2 ^ 32

-- Several requests one after another, none sharing a piece with the next.
abbrev pub Stream : List (Memory × List (Memory × ℕ)) → Type 0
Stream [] = Unit
Stream ((msg, ps) ∷ rest) = IsRequest msg × Splits msg 0 ps × Stream rest

abbrev pub pieces : List (Memory × List (Memory × ℕ)) → List (Memory × ℕ)
pieces [] = []
pieces ((msg, ps) ∷ rest) = ps ++ pieces rest

abbrev pub answers : ConsumeResults → List (Memory × List (Memory × ℕ)) → ConsumeResults
answers acc [] = acc
answers acc ((msg, ps) ∷ rest) = answers (add_results acc (answer msg)) rest
