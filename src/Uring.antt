-- ===== src/Uring.antt =====
-- The io_uring receiver of netbench.cpp: `BasicSock` and `IOUringRunner`. A pointer is a number, and
-- the heap of sockets maps pointers to sockets; to follow a pointer that is not there is the fault
-- `fault`. What the kernel is asked to do is appended to `sqes`; the submission queue has room. The
-- kernel's completions, with the bytes that they bring, are arguments.
pub mod Tags
pub mod Runner
pub mod Places
pub mod Slots
pub mod Held
pub mod Recycle
pub mod Provide
pub mod Rounds
mod Tests
use Prim.Native.Nat.{bit_and, bit_or}
use netbench.Base.{
  ℕ, zero, suc, ◌+◌, ◌-◌, ◌%◌, ◌^◌, Option, none, some, List, [], ◌∷◌, ◌++◌, ltb, ◌==◌,
  if◌then◌else◌, Bool, true, false, not, ◌&&◌, ◌||◌,
}
use netbench.Base.Results.{Result, ok, err, Error, died, fault, ◌>>=◌}
use netbench.Base.Assoc.{find, put, erase}
use netbench.Protocol.{Memory, ConsumeResults, no_results, SockInput, did_read}
use netbench.Buffers.Ranges.{Range, Provider}
use netbench.Buffers.Ranges
use netbench.Buffers.Ring.{Ring}
use netbench.Buffers.Ring

-- `tag`, `untag` and `get_tag`
unfoldable pub tag : ℕ → ℕ → ℕ
tag ptr x = bit_or ptr x

unfoldable pub untag : ℕ → ℕ
untag user_data = bit_and user_data (2 ^ 64 - 16)

unfoldable pub get_tag : ℕ → ℕ
get_tag user_data = bit_and user_data 15

-- `kAccept`, `kRead`, `kWrite` and `kOther`
abbrev pub k_accept : ℕ
k_accept = 1

abbrev pub k_read : ℕ
k_read = 2

abbrev pub k_write : ℕ
k_write = 3

abbrev pub k_other : ℕ
k_other = 0

-- The members of `IoUringRxConfig` that the runner reads after its construction, and the version of
-- the buffer provider, which is a template argument of the socket.
pub record Config : Type 0 where
  pub fixed_files : Bool
  pub multishot_recv : Bool
  pub recvmsg : Bool
  pub provided_buffer_compact : Bool
  pub cqe_skip_success : Bool
  pub buffer_version : ℕ

-- What a submission asks for.
pub data Op : Type 0 where
  -- `io_uring_prep_send` with `MSG_WAITALL`
  send : ℕ → Op
  -- `io_uring_prep_recv` of a size, and its multishot form
  recv : ℕ → Op
  recv_multishot : Op
  recvmsg : Op
  recvmsg_multishot : Op
  -- `io_uring_prep_close` and `io_uring_prep_close_direct`
  close : Op
  close_direct : Op
  -- `io_uring_prep_accept` and, into a slot, `io_uring_prep_accept_direct`
  accept : Op
  accept_direct : ℕ → Op
  -- `io_uring_prep_provide_buffers`
  provide : Range → Op

pub record Sqe : Type 0 where
  pub op : Op
  pub fd : ℕ
  pub fixed_file : Bool
  pub buffer_select : Bool
  pub skip_success : Bool
  pub user_data : ℕ

-- `cqe->res`: a number, or an error as its positive `errno`.
pub data Res : Type 0 where
  success : ℕ → Res
  failure : ℕ → Res

-- A completion: `more` is `IORING_CQE_F_MORE`, `buffer` the index that `providedBufferIdx` finds,
-- and `bytes` what stands in that buffer, or in the socket's own.
pub record Cqe : Type 0 where
  pub user_data : ℕ
  pub res : Res
  pub more : Bool
  pub buffer : Option ℕ
  pub bytes : Memory

-- `BasicSock`
pub record Sock : Type 0 where
  pub fd : ℕ
  pub input : SockInput
  pub closed : Bool

-- `BasicSock::addSend`
unfoldable pub add_send : Config → Sock → ℕ → ℕ → Sqe
add_send c s len user_data = record {
  op = send len;
  fd = s.fd;
  fixed_file = c.fixed_files;
  buffer_select = false;
  skip_success = c.cqe_skip_success;
  user_data = user_data;
}

-- The operation that `BasicSock::addRead` prepares, for buffers of a size and a socket's own buffer.
unfoldable pub read_op : Config → ℕ → ℕ → Op
read_op c provider_size own_size =
    if ltb 0 c.buffer_version
    then if c.recvmsg
      then (if c.multishot_recv then recvmsg_multishot else recvmsg)
      else (if c.multishot_recv then recv_multishot else recv provider_size)
    else if c.recvmsg
    then recvmsg
    else recv own_size

-- `BasicSock::addRead`
unfoldable pub add_read : Config → Sock → ℕ → ℕ → ℕ → Sqe
unfolding read_op
add_read c s provider_size own_size user_data = record {
  op = read_op c provider_size own_size;
  fd = s.fd;
  fixed_file = c.fixed_files;
  buffer_select = ltb 0 c.buffer_version;
  skip_success = false;
  user_data = user_data;
}

-- `BasicSock::addClose`
unfoldable pub add_close : Config → Sock → ℕ → Sqe
add_close c s user_data = record {
  op = if c.fixed_files then close_direct else close;
  fd = s.fd;
  fixed_file = false;
  buffer_select = false;
  skip_success = false;
  user_data = user_data;
}

-- `DidReadResult`: `amount` is 0 for any result that is not positive.
pub record DidRead : Type 0 where
  pub amount : ℕ
  pub recycle : Option ℕ
  pub sock : Sock

-- The private `didRead(b, n)` on the socket. A loop that does not end would be a fault.
unfoldable pub parse_bytes : Sock → Memory → ℕ → Option ℕ → Result DidRead
parse_bytes s b n recycle = elim (did_read s.input b n) [
  | none ↦ err fault
  | some input ↦ ok (record { amount = n; recycle = recycle; sock = record s { input = input } })
]

-- The branch of `BasicSock::didRead(provider, cqe)` for a multishot `recvmsg`. `payload` is what liburing makes of a buffer that a multishot
-- `recvmsg` has filled: `io_uring_recvmsg_validate`, `_payload` and `_payload_length`.
unfoldable pub read_message : (Memory → ℕ → Option (Memory × ℕ)) → Sock → Cqe → ℕ → Result DidRead
unfolding parse_bytes
read_message payload s cqe n = elim cqe.buffer [
  | none ↦ err died
  | some i ↦ elim (payload cqe.bytes n) [
    | none ↦ ok (record { amount = 0; recycle = some i; sock = s })
    | some (b, len) ↦ parse_bytes s b len (some i)
  ]
]

-- `BasicSock::didRead(provider, cqe)`
unfoldable pub sock_did_read :
    Config → (Memory → ℕ → Option (Memory × ℕ)) → Sock → Cqe → Result DidRead
unfolding parse_bytes read_message
sock_did_read c payload s cqe = elim cqe.res [
  | failure e ↦ ok (record { amount = 0; recycle = none; sock = s })
  | success zero ↦ ok (record { amount = 0; recycle = none; sock = s })
  | success (suc n) ↦
      if ltb 0 c.buffer_version
      then if c.multishot_recv && c.recvmsg
        then read_message payload s cqe (suc n)
        else parse_bytes s cqe.bytes (suc n) cqe.buffer
      else parse_bytes s cqe.bytes (suc n) none
]
