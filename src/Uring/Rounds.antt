-- ===== src/Uring/Rounds.antt =====
-- `IOUringRunner` from its constructor to the end of its `loop`. What the kernel answers is an argument;
-- a loop that the answers do not bring to its end gives `none`. The statistics are left out.
pub mod Accepting
pub mod Steady
pub mod Stops
pub mod Unmoved
pub mod Owned
mod Tests
use netbench.Base.{
  ℕ, zero, suc, ◌+◌, ◌-◌, Option, none, some, List, [], ◌∷◌, ltb, ◌==◌, if◌then◌else◌, Bool, true,
  false, not, ◌&&◌, ◌||◌, length,
}
use netbench.Base.Results.{Result, ok, err, died, ◌>>=◌}
use netbench.Protocol.{Memory}
use netbench.Util.{checked_errno, etime, eintr}
use netbench.Uring.{Config, Res, success, failure, Cqe}
use netbench.Uring.Runner.{Runner, Buffers, ListenSock, provide_buffers, add_accept, process_cqe}

-- The loop of `submit`: the number still expected, and the answers of `io_uring_submit`.
unfoldable pub submit_loop : Bool → ℕ → List Res → Result (Option ℕ)
submit_loop stopping zero answers = ok (some 0)
submit_loop stopping (suc n) [] = ok none
submit_loop true (suc n) (success zero ∷ answers) = submit_loop true n answers
submit_loop false (suc n) (success zero ∷ answers) = err died
submit_loop stopping (suc n) (success (suc k) ∷ answers) = submit_loop stopping (n - k) answers
submit_loop stopping (suc n) (failure e ∷ answers) = submit_loop stopping (suc n + e) answers

-- `submit`
unfoldable pub submit : Runner → List Res → Result (Option Runner)
unfolding submit_loop
submit r answers = submit_loop r.stopping r.expected answers >>= λ end. elim end [
  | none ↦ ok none
  | some n ↦ ok (some (record r { expected = n }))
]

-- The loop of the constructor that fills `acceptFdPool_`, for as many slots.
unfoldable pub fill : ℕ → List ℕ → List ℕ
fill zero pool = pool
fill (suc i) pool = fill i (i ∷ pool)

-- A runner whose members have their initial values.
abbrev pub bare : Config → Buffers → Runner
bare c buffers = record {
  config = c;
  buffers = buffers;
  accept_fd_pool = [];
  listen_socks = [];
  sockets = [];
  socks = 0;
  expected = 0;
  stopping = false;
  bytes_rx = 0;
  requests_rx = 0;
  sqes = [];
}

-- The end of the constructor: the slots.
abbrev pub with_slots : Config → ℕ → Runner → Runner
with_slots c fixed_file_count r = record r {
  accept_fd_pool = if c.fixed_files then fill fixed_file_count [] else [];
}

-- The constructor, for a number of fixed files and the buffers as registered.
unfoldable pub start : Config → Buffers → ℕ → List Res → Result (Option Runner)
unfolding provide_buffers submit fill
start c buffers fixed_file_count answers =
    let r = bare c buffers in
    if ltb 0 c.buffer_version
    then (submit (provide_buffers true r) answers >>= λ end. elim end [
      | none ↦ ok none
      | some r1 ↦ ok (some (with_slots c fixed_file_count r1))
    ])
    else ok (some (with_slots c fixed_file_count r))

-- `addListenSock`, with the pointer that the allocator gives.
unfoldable pub add_listen_sock : Runner → ℕ → ℕ → Result Runner
unfolding add_accept
add_listen_sock r ptr fd =
    add_accept
      (record r {
        listen_socks = (ptr, record { fd = fd; next_accept_idx = none }) ∷ r.listen_socks;
      })
      ptr

unfoldable pub add_listen_socks : Runner → List (ℕ × ℕ) → Result Runner
unfolding add_listen_sock
add_listen_socks r [] = ok r
add_listen_socks r ((ptr, fd) ∷ more) = add_listen_sock r ptr fd >>= λ r'. add_listen_socks r' more

-- `submitAndWait1`
unfoldable pub submit_and_wait1 : Runner → ℕ → Res → Result Runner
unfolding checked_errno
submit_and_wait1 r errno res = checked_errno errno res >>= λ got. elim got [
  | success n ↦ ok (record r { expected = 0 })
  | failure e ↦ if (e == etime) || (e == eintr) then ok r else err died
]

-- `stop`; the descriptors that it closes are those of `closed_by_stop`.
unfoldable pub stop : Runner → Runner
stop r = record r { stopping = true }

unfoldable pub closed_by_stop : List (ℕ × ListenSock) → List ℕ
closed_by_stop [] = []
closed_by_stop ((ptr, ls) ∷ more) = ls.fd ∷ closed_by_stop more

-- A completion, with the pointers of the sockets that an accept makes.
pub record Arrival : Type 0 where
  pub cqe : Cqe
  pub ptr : ℕ
  pub more : List (ℕ × ℕ)

-- What a round of `loop` is told: whether the completion queue has overflown, the result of the wait
-- (and `errno`), with the completion that it gives, whether the test or the program is over, and the
-- completions that are then there.
pub record Round : Type 0 where
  pub overflow : Bool
  pub errno : ℕ
  pub waited : Res
  pub first : Option Arrival
  pub shutdown : Bool
  pub cqes : List Arrival

-- The condition of the `while`, negated.
unfoldable pub is_over : Runner → Bool
is_over r = r.stopping && not (ltb 0 r.socks)

module _ (nonblock_accept : Bool) (payload : Memory → ℕ → Option (Memory × ℕ)) where
  unfoldable pub arrive : Runner → Arrival → Result Runner
  unfolding process_cqe
  arrive r a = process_cqe nonblock_accept payload r a.cqe a.ptr a.more

  -- `io_uring_for_each_cqe`
  unfoldable pub arrive_all : Runner → List Arrival → Result Runner
  unfolding arrive
  arrive_all r [] = ok r
  arrive_all r (a ∷ more) = arrive r a >>= λ r'. arrive_all r' more

  -- A wait of its own, with nothing to submit.
  unfoldable pub wait_one : Runner → Round → Result Runner
  unfolding checked_errno arrive
  wait_one r rd = checked_errno rd.errno rd.waited >>= λ got. elim got [
    | success zero ↦ elim rd.first [ none ↦ ok r | some a ↦ arrive r a ]
    | success (suc n) ↦ ok r
    | failure e ↦ ok r
  ]

  -- A round up to the test for shutdown.
  unfoldable pub wait : Runner → Round → Result Runner
  unfolding provide_buffers submit_and_wait1 wait_one
  wait r rd =
      let r1 = provide_buffers false r in
      if rd.overflow
      then ok r1
      else if ltb 0 r1.expected
      then submit_and_wait1 r1 rd.errno rd.waited
      else wait_one r1 rd

  -- `loop`
  unfoldable pub loop : Runner → List Round → Result (Option Runner)
  unfolding is_over wait stop arrive_all
  loop r [] = if is_over r then ok (some r) else ok none
  loop r (rd ∷ rounds) =
      if is_over r
      then ok (some r)
      else (wait r rd >>= λ r1.
          if rd.shutdown && r1.stopping
          then ok (some r1)
          else (arrive_all (if rd.shutdown then stop r1 else r1) rd.cqes >>= λ r2. loop r2 rounds))
