-- ===== src/Protocol/Tests.antt =====
-- Runs of the protocol parser, and its theorems at concrete requests.
use netbench.Base.{ℕ, ◌+◌, ◌<◌, ◌≡◌, refl, some, arith, List, [], ◌∷◌, ◌==◌, if◌then◌else◌}
use netbench.Protocol.{
  Memory, word32, ProtocolParser, ConsumeResults, no_results, add_results, consume, SockInput,
}
use netbench.Protocol.Total.{consume_total}
use netbench.Protocol.Stream.{IsIdle}
use netbench.Protocol.Requests.{answers}
use netbench.Protocol.Overrun.{consume_overrun}

-- A request of three bytes that wants two back, and what follows it in memory.
abbrev request : Memory
request i =
    if i == 0 then 3 else if i == 4 then 2 else if i == 11 then 9 else if i == 13 then 7 else 0

abbrev fresh : ProtocolParser
fresh = record {
  size_buff_have = 0;
  reading_len = 0;
  reading_resp = 0;
  size_buff = λ i. 0;
  so_far = 0;
}

fresh-IsIdle : IsIdle fresh
fresh-IsIdle = omega arith

abbrev from : ℕ → Memory
from s i = request (s + i)

-- The request twice: in one piece, then cut inside the header and at its end.
abbrev twice : List (Memory × List (Memory × ℕ))
twice = (request, (from 0, 11) ∷ []) ∷ (request, (from 0, 2) ∷ (from 2, 6) ∷ (from 8, 3) ∷ []) ∷ []

abbrev input : SockInput
input = record { parser = fresh; do_send = no_results }

twice_owes : answers no_results twice ≡ record { to_write = 4; count = 2 }
unfolding add_results word32
twice_owes = refl

consume_total_example : (r : ProtocolParser × ConsumeResults) × (consume fresh request 5 ≡ some r)
consume_total_example = consume_total fresh request 5

-- Two bytes of the next request are in the buffer, at offsets 11 and 12; bytes 13 and 14 are kept.
consume_overrun_example :
    (q : ProtocolParser) × (consume fresh request 13
      ≡ some (q, record { to_write = word32 request 4; count = 1 }))
    × (q.size_buff_have ≡ 2)
    × ((i : ℕ) → i < 2 → q.size_buff i ≡ request (13 + i))
unfolding word32
consume_overrun_example =
    consume_overrun fresh request 2 13 fresh-IsIdle (omega arith) (omega arith) (omega arith) refl
      (omega arith) (omega arith)
