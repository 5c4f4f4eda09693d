-- ===== src/Control.antt =====
-- control.cpp: how a server tells its clients which receiver listens on which port. Bytes are numbers,
-- a string is the list of its bytes, and the two ends of the machine words are little endian. An
-- `unordered_map` is an association list in the order in which it is iterated.
pub mod Words
pub mod Roundtrip
pub mod Truncated
pub mod Transfer
mod Tests
use netbench.Base.{
  ℕ, zero, suc, ◌+◌, ◌-◌, ◌*◌, ◌/◌, ◌%◌, ◌^◌, Option, none, some, List, [], ◌∷◌, ◌++◌, ltb, ◌==◌,
  if◌then◌else◌, length, take, drop, Bool, true, false, replicate,
}
use netbench.Base.Results.{
  Result, ok, err, Error, not_enough_data, died, interrupted, bad_errno, ◌>>=◌,
}

abbrev pub Bytes : Type 0
Bytes = List ℕ

abbrev pub PortMap : Type 0
PortMap = List (ℕ × Bytes)

-- The bytes of a word of `n` bytes, and the word that bytes stand for.
abbrev pub put_word : ℕ → ℕ → Bytes
put_word zero v = []
put_word (suc n) v = v % 256 ∷ put_word n (v / 256)

abbrev pub get_word : Bytes → ℕ
get_word [] = 0
get_word (b ∷ bs) = b + 256 * get_word bs

-- `addT<T>`, for a `T` of `n` bytes
unfoldable pub add_t : ℕ → ℕ → Bytes → Bytes
add_t n v out = out ++ put_word n v

-- `addS`
unfoldable pub add_s : Bytes → Bytes → Bytes
unfolding add_t
add_s s out = add_t 4 (length s) out ++ s

-- `readT<T>`, for a `T` of `n` bytes: the word and the bytes behind it.
unfoldable pub read_t : ℕ → Bytes → Result (ℕ × Bytes)
read_t n at =
    if ltb (length at) n then err not_enough_data else ok (get_word (take n at), drop n at)

-- `readS`
unfoldable pub read_s : Bytes → Result (Bytes × Bytes)
unfolding read_t
read_s at = do
  (str_len, rest) ← read_t 4 at
  if ltb (length rest) str_len
      then err not_enough_data
      else ok (take str_len rest, drop str_len rest)

-- The loop of `encode`.
unfoldable pub encode_entries : PortMap → Bytes → Bytes
unfolding add_t add_s
encode_entries [] out = out
encode_entries ((port, name) ∷ m) out = encode_entries m (add_s name (add_t 2 port out))

unfoldable pub encode : PortMap → Bytes
unfolding encode_entries
encode m = encode_entries m (add_t 4 (length m) [])

-- `payload`
unfoldable pub payload : Bytes → Bytes
payload body = put_word 4 (length body) ++ body

-- `ret[port] = str`
unfoldable pub assign : ℕ → Bytes → PortMap → PortMap
assign port str [] = (port, str) ∷ []
assign port str ((p, s) ∷ m) = if p == port then (p, str) ∷ m else (p, s) ∷ assign port str m

-- The loop of `decode`, with `count` rounds to go.
unfoldable pub decode_entries : ℕ → Bytes → PortMap → Result PortMap
unfolding read_t read_s assign
decode_entries zero at ret = ok ret
decode_entries (suc count) at ret = do
  (port, rest) ← read_t 2 at
  (str, rest') ← read_s rest
  decode_entries count rest' (assign port str ret)

unfoldable pub decode : Bytes → Result PortMap
unfolding decode_entries
decode body = do (count, rest) ← read_t 4 body; decode_entries count rest []

-- What `send` reports to `ControlServer::go`: bytes taken, or an error with its `errno`.
pub data SendReply : Type 0 where
  sent : ℕ → SendReply
  failed : ℕ → SendReply

-- `EINTR`
abbrev pub eintr : ℕ
eintr = 4

-- A length converted to `int`. The loops only ask whether it is above 0, so a negative one is 0 here.
unfoldable pub to_int : ℕ → ℕ
to_int n = if ltb (n % 2 ^ 32) (2 ^ 31) then n % 2 ^ 32 else 0

-- The sending loop of `ControlServer::go`, over the replies to its calls, with `togo` bytes to send from
-- `at` on: what was taken, and what the data still has behind that. A reply never takes more than `togo`.
-- `errno` is compared with `-EINTR`.
unfoldable pub send_loop : List SendReply → ℕ → Bytes → Bytes × Bytes
send_loop [] togo at = ([], at)
send_loop (sent n ∷ replies) togo at =
    let (taken, left) = send_loop replies (togo - n) (drop n at) in
    if ltb 0 togo then (if ltb 0 n then (take n at ++ taken, left) else ([], at)) else ([], at)
send_loop (failed errno ∷ replies) togo at =
    let again = send_loop replies togo at in
    if ltb 0 togo then (if errno + eintr == 0 then again else ([], at)) else ([], at)

-- What `ControlServer::go` does for a client: `togo` is an `int`.
unfoldable pub serve : List SendReply → Bytes → Bytes × Bytes
unfolding to_int send_loop
serve replies data_bytes = send_loop replies (to_int (length data_bytes)) data_bytes

-- What `recv` reports to `getPortNameMap`: a piece, or an error with its `errno`.
pub data RecvReply : Type 0 where
  got : Bytes → RecvReply
  broken : ℕ → RecvReply

-- `checkedErrno` on a failed `recv`, which does not report `ETIME`.
unfoldable pub recv_error : ℕ → Error
recv_error errno = if errno == eintr then interrupted else bad_errno

-- The receiving loop of `getPortNameMap`, over the replies to its calls, for `size` bytes still to
-- come. A piece is never longer than what was asked for. `none`: after these replies the loop goes on.
unfoldable pub receive : List RecvReply → ℕ → Bytes → Option (Result Bytes)
unfolding recv_error
receive replies zero body = some (ok body)
receive [] (suc size) body = none
receive (got piece ∷ replies) (suc size) body =
    receive replies (suc size - length piece) (body ++ piece)
receive (broken errno ∷ replies) (suc size) body = some (err (recv_error errno))

-- `getPortNameMap` after `connect`: the first `recv`, of the four bytes of the length, and the rest. The
-- data has as many zeros as the length says, and is received over; the loop counts an `int`.
unfoldable pub port_name_map : Bytes → List RecvReply → Option (Result PortMap)
unfolding to_int receive decode
port_name_map first replies =
    if length first == 4
    then (elim (receive replies (to_int (get_word first)) []) [
      | none ↦ none
      | some r ↦ some (r >>= λ body. decode (body ++ replicate (get_word first - length body) 0))
    ])
    else some (err died)
