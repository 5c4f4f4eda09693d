-- ===== src/Uring/Runner.antt =====
-- `IOUringRunner`: its state, and one function for each of its operations.
use netbench.Base.{
  ℕ, zero, suc, ◌+◌, ◌-◌, ◌%◌, ◌^◌, Option, none, some, List, [], ◌∷◌, ltb, ◌==◌, if◌then◌else◌,
  Bool, true, false, not, ◌&&◌, ◌||◌, length,
}
use netbench.Base.Results.{Result, ok, err, died, fault, ◌>>=◌}
use netbench.Base.Assoc.{find, put, erase}
use netbench.Protocol.{Memory, no_results, SockInput}
use netbench.Buffers.Ranges.{Range, Provider}
use netbench.Buffers.Ranges
use netbench.Buffers.Ring.{Ring}
use netbench.Buffers.Ring
use netbench.Uring.{
  Config, Op, accept, accept_direct, provide, Sqe, Res, success, failure, Cqe, Sock, tag, untag,
  get_tag, k_accept, k_read, k_write, k_other, add_send, add_read, add_close, sock_did_read,
}

-- `buffers_`, by the version of the provider.
pub data Buffers : Type 0 where
  no_provider : Buffers
  ranges : Provider → Buffers
  ring : Ring → Buffers

-- `ListenSock`: its file descriptor and `nextAcceptIdx`, with `none` for -1.
pub record ListenSock : Type 0 where
  pub fd : ℕ
  pub next_accept_idx : Option ℕ

pub record Runner : Type 0 where
  pub config : Config
  pub buffers : Buffers
  -- `acceptFdPool_`, its back first
  pub accept_fd_pool : List ℕ
  pub listen_socks : List (ℕ × ListenSock)
  pub sockets : List (ℕ × Sock)
  pub socks : ℕ
  pub expected : ℕ
  pub stopping : Bool
  pub bytes_rx : ℕ
  pub requests_rx : ℕ
  -- prepared submissions, the last one first
  pub sqes : List Sqe

-- `get_sqe` with what its caller prepares.
unfoldable pub push_sqe : Runner → Sqe → Runner
push_sqe r s = record r { sqes = s ∷ r.sqes; expected = r.expected + 1 }

abbrev pub provide_sqe : Range → Sqe
provide_sqe g = record {
  op = provide g;
  fd = 0;
  fixed_file = false;
  buffer_select = false;
  skip_success = true;
  user_data = 0;
}

-- The loop of `provideBuffers`: each range of the vector goes to the kernel. The recursion is on the
-- number of ranges, which `provide` lowers by one.
unfoldable pub provide_all : ℕ → Provider → List Sqe → Provider × List Sqe
provide_all zero p sqes = (p, sqes)
provide_all (suc n) p sqes = elim (Ranges.provide p) [
  | none ↦ (p, sqes)
  | some (g, p') ↦ provide_all n p' (provide_sqe g ∷ sqes)
]

-- `provideBuffers`
unfoldable pub provide_buffers : Bool → Runner → Runner
unfolding provide_all
provide_buffers force r = elim r.buffers [
  | no_provider ↦ r
  | ring b ↦ r
  | ranges p ↦
      if force || Ranges.needs_to_provide p
      then (let q = if r.config.provided_buffer_compact then Ranges.compact p else p in
          let (p', sqes) = provide_all (length q.to_provide) q r.sqes in
          record r {
            buffers = ranges p';
            sqes = sqes;
            expected = r.expected + length q.to_provide;
          })
      else r
]

-- `nextFdIdx`
unfoldable pub next_fd_idx : Runner → Result (ℕ × Runner)
next_fd_idx r = elim r.accept_fd_pool [
  | [] ↦ err died
  | i ∷ rest ↦ ok (i, record r { accept_fd_pool = rest })
]

abbrev accept_sqe : ListenSock → ℕ → Op → Sqe
accept_sqe ls ptr op = record {
  op = op;
  fd = ls.fd;
  fixed_file = false;
  buffer_select = false;
  skip_success = false;
  user_data = tag ptr k_accept;
}

-- `addAccept`, on the listener at a pointer.
unfoldable pub add_accept : Runner → ℕ → Result Runner
unfolding push_sqe next_fd_idx
add_accept r ptr = elim (find ptr r.listen_socks) [
  | none ↦ err fault
  | some ls ↦
      if r.config.fixed_files
      then (elim ls.next_accept_idx [
        | some i ↦ err died
        | none ↦ next_fd_idx r >>= λ taken.
            let (i, r') = taken in
            let ls' = record ls { next_accept_idx = some i } in
            ok (
              push_sqe (record r' { listen_socks = put ptr ls' r'.listen_socks })
                (accept_sqe ls' ptr (accept_direct i)))
      ])
      else ok (push_sqe r (accept_sqe ls ptr accept))
]

abbrev pub idle_input : SockInput
idle_input = record {
  parser = record {
    size_buff_have = 0;
    reading_len = 0;
    reading_resp = 0;
    size_buff = λ i. 0;
    so_far = 0;
  };
  do_send = no_results;
}

-- The size of a provided buffer, and of the buffer of a socket (`BasicSockPicker`: 64 bytes for the
-- first version of the provider, else 4096).
unfoldable pub provider_size : Buffers → ℕ
provider_size no_provider = 0
provider_size (ranges p) = p.size_per_buffer
provider_size (ring b) = b.size_per_buffer

unfoldable pub own_size : Config → ℕ
own_size c = if c.buffer_version == 1 then 64 else 4096

-- `addRead`
unfoldable pub arm_read : Runner → ℕ → Sock → Runner
unfolding push_sqe provider_size own_size
arm_read r ptr s =
    push_sqe r (add_read r.config s (provider_size r.buffers) (own_size r.config) (tag ptr k_read))

-- `new TSock(rxCfg_, fd)` at the pointer that the allocator gives, then `addRead` and `newSock`.
unfoldable pub open_sock : Runner → ℕ → ℕ → Runner
unfolding arm_read
open_sock r ptr fd =
    let s : Sock = record { fd = fd; input = idle_input; closed = false } in
    record (arm_read (record r { sockets = (ptr, s) ∷ r.sockets }) ptr s) { socks = r.socks + 1 }

-- The sockets of the non-blocking accept loop, each with its pointer and descriptor.
unfoldable pub open_socks : Runner → List (ℕ × ℕ) → Runner
unfolding open_sock
open_socks r [] = r
open_socks r ((ptr, fd) ∷ more) = open_socks (open_sock r ptr fd) more

-- The descriptor of an accepted connection: the slot that was waiting, with fixed files.
unfoldable pub accepted_fd : Runner → ℕ → ListenSock → ℕ → Result (ℕ × Runner)
accepted_fd r lptr ls fd =
    if r.config.fixed_files
    then if ltb 0 fd then err died else (elim ls.next_accept_idx [
      | none ↦ err died
      | some i ↦ ok (
        i,
        record r { listen_socks = put lptr (record ls { next_accept_idx = none }) r.listen_socks },
      )
    ])
    else ok (fd, r)

-- `processAccept` for the result of the accept.
unfoldable pub accept_result : Runner → ℕ → ListenSock → ℕ → Res → Result Runner
unfolding accepted_fd open_sock
accept_result r lptr ls ptr (success fd) =
    accepted_fd r lptr ls fd >>= λ got. ok (open_sock got.1 ptr got.0)
accept_result r lptr ls ptr (failure e) = if r.stopping then ok r else err died

-- `processAccept`, with the pointer for the new socket and those of the non-blocking loop, which runs
-- where `nonblock_accept` says so.
unfoldable pub process_accept : Bool → Runner → Cqe → ℕ → List (ℕ × ℕ) → Result Runner
unfolding accept_result open_socks add_accept
process_accept nonblock_accept r cqe ptr more =
    let lptr = untag cqe.user_data in
    elim (find lptr r.listen_socks) [
      | none ↦ err fault
      | some ls ↦ do
        r1 ← accept_result r lptr ls ptr cqe.res
        if r1.stopping
            then ok r1
            else add_accept
                (if nonblock_accept && not r1.config.fixed_files then open_socks r1 more else r1)
                lptr
    ]

-- `EBADF` and `ENOBUFS`
abbrev pub ebadf : ℕ
ebadf = 9

abbrev pub enobufs : ℕ
enobufs = 105

-- `!res || res == -EBADF`
unfoldable pub is_closed : Res → Bool
is_closed (success n) = n == 0
is_closed (failure e) = e == ebadf

-- `cqe->res == -ENOBUFS`
unfoldable pub is_enobufs : Res → Bool
is_enobufs (success n) = false
is_enobufs (failure e) = e == enobufs

-- `processClose`, on the socket at a pointer.
unfoldable pub process_close : Runner → Res → ℕ → Sock → Runner
unfolding is_closed
process_close r res ptr s = record r {
  accept_fd_pool =
      if is_closed res && r.config.fixed_files then s.fd ∷ r.accept_fd_pool else r.accept_fd_pool;
  sockets = erase ptr r.sockets;
}

-- `returnIndex`, by the version of the provider.
unfoldable pub return_index : Buffers → ℕ → Buffers
return_index no_provider i = no_provider
return_index (ranges p) i = ranges (Ranges.return_index p i)
return_index (ring b) i = ring (Ring.return_index b i)

-- `processRead` up to the test of the amount: `if (res.recycleBufferIdx > 0)`.
unfoldable pub recycle : Runner → Option ℕ → Runner
unfolding return_index provide_buffers
recycle r none = r
recycle r (some i) =
    if ltb 0 i then provide_buffers false (record r { buffers = return_index r.buffers i }) else r

-- `peekSend`, `finishedRequests`, `addSend` and `didSend`, where bytes are owed.
unfoldable pub answer : Runner → ℕ → Sock → Runner × Sock
unfolding push_sqe
answer r ptr s =
    let sends = s.input.do_send in
    if ltb 0 sends.to_write
    then (
      push_sqe (record r { requests_rx = (r.requests_rx + sends.count) % 2 ^ 64 })
          (add_send r.config s (sends.to_write % 2 ^ 32) (tag ptr k_write)),
      record s { input = record { parser = s.input.parser; do_send = no_results } },
    )
    else (r, s)

-- The branch of `processRead` for an amount above 0.
unfoldable pub read_some : Runner → ℕ → Sock → ℕ → Bool → Runner
unfolding answer arm_read
read_some r ptr s amount more =
    let (r1, s1) = answer r ptr s in
    let r2 = record r1 {
      bytes_rx = (r1.bytes_rx + amount) % 2 ^ 64;
      sockets = put ptr s1 r1.sockets;
    } in
    if not r2.config.multishot_recv || not more then arm_read r2 ptr s1 else r2

-- The branch of `processRead` for any other amount.
unfoldable pub read_end : Runner → Res → ℕ → Sock → Result Runner
unfolding push_sqe is_enobufs
read_end r res ptr s =
    if is_enobufs res
    then err died
    else if r.config.fixed_files
    then ok (
        push_sqe (record r { sockets = put ptr (record s { closed = true }) r.sockets })
          (add_close r.config s (tag ptr k_other)))
    else ok (record r { sockets = erase ptr r.sockets; socks = r.socks - 1 })

-- `processRead`
unfoldable pub process_read : (Memory → ℕ → Option (Memory × ℕ)) → Runner → Cqe → Result Runner
unfolding recycle read_some read_end
process_read payload r cqe =
    let ptr = untag cqe.user_data in
    elim (find ptr r.sockets) [
      | none ↦ err fault
      | some s ↦ sock_did_read r.config payload s cqe >>= λ res.
          let r1 = recycle r res.recycle in
          if ltb 0 res.amount
          then ok (read_some r1 ptr res.sock res.amount cqe.more)
          else read_end r1 cqe.res ptr res.sock
    ]

-- `LIBURING_UDATA_TIMEOUT`, which liburing defines as the 64-bit -1.
abbrev pub udata_timeout : ℕ
udata_timeout = 2 ^ 64 - 1

-- The `kOther` case of `processCqe`.
unfoldable pub process_other : Runner → Cqe → Result Runner
unfolding process_close
process_other r cqe =
    if cqe.user_data == 0 then ok r else (elim (find (untag cqe.user_data) r.sockets) [
      | none ↦ err fault
      | some s ↦ if s.closed then ok (process_close r cqe.res (untag cqe.user_data) s) else ok r
    ])

-- The `kWrite` case of `processCqe`: a failed write looks at its socket, to log.
unfoldable pub process_write : Runner → Cqe → Result Runner
process_write r cqe = elim cqe.res [
  | success n ↦ ok r
  | failure e ↦ elim (find (untag cqe.user_data) r.sockets) [ none ↦ err fault | some s ↦ ok r ]
]

-- `processCqe`
unfoldable pub process_cqe :
    Bool → (Memory → ℕ → Option (Memory × ℕ)) → Runner → Cqe → ℕ → List (ℕ × ℕ) → Result Runner
unfolding process_accept process_read process_write process_other
process_cqe nonblock_accept payload r cqe ptr more =
    let kind = get_tag cqe.user_data in
    if kind == k_accept
    then process_accept nonblock_accept r cqe ptr more
    else if kind == k_read
    then process_read payload r cqe
    else if kind == k_write
    then process_write r cqe
    else if kind == k_other
    then process_other r cqe
    else if cqe.user_data == udata_timeout
    then ok r
    else err died
