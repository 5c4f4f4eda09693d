-- ===== src/Protocol.antt =====
-- The benchmark protocol of netbench.cpp: `ConsumeResults` and `ProtocolParser`.
-- A request is a 32-bit length, the 32-bit size of the response wanted, and a body of that length.
-- The memory behind a pointer is a function from offsets to bytes, so that a read past the end of
-- the receive buffer is a read at an offset of `n` or more.
pub mod Total
pub mod Stream
pub mod Requests
pub mod Overrun
mod Tests
use netbench.Base.{
  ℕ, zero, suc, ◌+◌, ◌-◌, ◌*◌, ◌%◌, ◌^◌, Bool, ◌&&◌, Option, none, some, List, [], ◌∷◌, min, ltb,
  leb, ◌==◌, if◌then◌else◌,
}

abbrev pub Memory : Type 0
Memory = ℕ → ℕ

-- `memcpy(dst + off, src + at, n)`
unfoldable pub memcpy : Memory → ℕ → Memory → ℕ → ℕ → Memory
memcpy dst off src at n i = if leb off i && ltb i (off + n) then src (at + (i - off)) else dst i

-- A 32-bit word in memory, little endian.
unfoldable pub word32 : Memory → ℕ → ℕ
word32 m at = m at + 256 * m (at + 1) + 65536 * m (at + 2) + 16777216 * m (at + 3)

pub record ConsumeResults : Type 0 where
  pub to_write : ℕ
  pub count : ℕ

abbrev pub no_results : ConsumeResults
no_results = record { to_write = 0; count = 0 }

-- `operator+=`
unfoldable pub add_results : ConsumeResults → ConsumeResults → ConsumeResults
add_results a b = record {
  to_write = (a.to_write + b.to_write) % 2 ^ 64;
  count = (a.count + b.count) % 2 ^ 32;
}

pub record ProtocolParser : Type 0 where
  pub size_buff_have : ℕ
  -- `is_reading[0]` and `is_reading[1]`
  pub reading_len : ℕ
  pub reading_resp : ℕ
  pub size_buff : Memory
  pub so_far : ℕ

-- `sizeof(is_reading)`
abbrev pub header_size : ℕ
header_size = 8

-- The inner `else` of the header step: collect the header in `size_buff`.
unfoldable pub collect_header : ProtocolParser → Memory → ℕ → ℕ → ProtocolParser
collect_header p mem at n =
    let add = min (n % 2 ^ 32) (header_size - p.size_buff_have) in
    let buff = memcpy p.size_buff p.size_buff_have mem at add in
    let have = p.size_buff_have + add in
    if leb header_size have
    then record p {
      size_buff = buff;
      size_buff_have = have;
      reading_len = word32 buff 0;
      reading_resp = word32 buff 4;
    }
    else record p { size_buff = buff; size_buff_have = have }

-- The statements of the loop body up to the test for a complete request.
unfoldable pub read_header : ProtocolParser → Memory → ℕ → ℕ → ProtocolParser
read_header p mem at n =
    let q = record p { so_far = (p.so_far + n) % 2 ^ 32 } in
    if q.reading_len == 0
    then if leb header_size n && (q.size_buff_have == 0)
      then record q {
        size_buff_have = header_size;
        reading_len = word32 mem at;
        reading_resp = word32 mem (at + 4);
      }
      else collect_header q mem at n
    else q

-- `is_reading[0] && so_far >= is_reading[0] + sizeof(is_reading)`
unfoldable pub is_complete : ProtocolParser → Bool
is_complete p = ltb 0 p.reading_len && leb (p.reading_len + header_size) p.so_far

-- The reset after a complete request.
unfoldable pub reset : ProtocolParser → ProtocolParser
reset p = record p { so_far = 0; size_buff_have = 0; reading_len = 0; reading_resp = 0 }

-- The `while` loop of `consume`. `none`: the fuel ran out.
unfoldable pub consume_loop :
    ℕ → ProtocolParser → Memory → ℕ → ℕ → ConsumeResults → Option (ProtocolParser × ConsumeResults)
consume_loop zero p mem at n ret = none
consume_loop (suc fuel) p mem at n ret =
    let q = read_header p mem at n in
    let rest =
      consume_loop fuel (reset q) mem (at + n) (q.so_far - (q.reading_len + header_size)) (record {
        to_write = (ret.to_write + q.reading_resp) % 2 ^ 64;
        count = (ret.count + 1) % 2 ^ 32;
      }) in
    if ltb 0 n then (if is_complete q then rest else some (q, ret)) else some (p, ret)

-- `consume(data, n)`, with `mem` the memory at `data`.
unfoldable pub consume : ProtocolParser → Memory → ℕ → Option (ProtocolParser × ConsumeResults)
unfolding consume_loop
consume p mem n = consume_loop (p.so_far + n + 1) p mem 0 n no_results

-- The parser of a socket and the answers that it owes: `BasicSock::parser` and `do_send`.
pub record SockInput : Type 0 where
  pub parser : ProtocolParser
  pub do_send : ConsumeResults

-- `BasicSock::didRead(b, n)`. The workload only burns time.
unfoldable pub did_read : SockInput → Memory → ℕ → Option SockInput
unfolding add_results
did_read s b n = elim (consume s.parser b n) [
  | none ↦ none
  | some (p, consumed) ↦ some (record { parser = p; do_send = add_results s.do_send consumed })
]

-- Successive calls of `didRead`, one for each receive completion.
unfoldable pub feed : SockInput → List (Memory × ℕ) → Option SockInput
feed s [] = some s
feed s ((b, n) ∷ rest) = elim (did_read s b n) [ none ↦ none | some s' ↦ feed s' rest ]
