-- ===== src/Uring/Rounds/Tests.antt =====
-- A runner with two slots and one listener: a connection is accepted, and the runner is stopped.
use netbench.Base.{ℕ, ◌≡◌, refl, some, none, Option, [], ◌∷◌, true, false, inl, ◌⊎◌}
use netbench.Base.Results.{ok, err, Error}
use netbench.Base.Assoc.{find, put}
use netbench.Protocol.{Memory}
use netbench.Uring.{
  Config, accept_direct, recv, Sqe, success, untag, tag, get_tag, add_read, read_op,
}
use netbench.Uring.Runner.{
  no_provider, Runner, idle_input, next_fd_idx, add_accept, accepted_fd, accept_result, open_sock,
  arm_read, push_sqe, process_accept, process_cqe, provide_buffers, is_closed, provider_size,
  own_size,
}
use netbench.Uring.Places.{held}
use netbench.Util.{checked_errno, error_of}
use netbench.Uring.Rounds.{
  fill, start, add_listen_sock, add_listen_socks, submit_and_wait1, stop, Arrival, Round, is_over,
  arrive, arrive_all, wait_one, wait, loop,
}
use netbench.Uring.Rounds.Stops.{loop_ends}
use netbench.Uring.Rounds.Owned.{loop_owns_each_slot}

abbrev two_slots : Config
two_slots = record {
  fixed_files = true;
  multishot_recv = false;
  recvmsg = false;
  provided_buffer_compact = true;
  cqe_skip_success = false;
  buffer_version = 0;
}

abbrev no_payload : Memory → ℕ → Option (Memory × ℕ)
no_payload b n = none

abbrev sqe_of : ℕ → Sqe
sqe_of i = record {
  op = accept_direct i;
  fd = 3;
  fixed_file = false;
  buffer_select = false;
  skip_success = false;
  user_data = 33;
}

abbrev started : Runner
started = record {
  config = two_slots;
  buffers = no_provider;
  accept_fd_pool = 0 ∷ 1 ∷ [];
  listen_socks = [];
  sockets = [];
  socks = 0;
  expected = 0;
  stopping = false;
  bytes_rx = 0;
  requests_rx = 0;
  sqes = [];
}

abbrev listening : Runner
listening = record started {
  accept_fd_pool = 1 ∷ [];
  listen_socks = (32, record { fd = 3; next_accept_idx = some 0 }) ∷ [];
  expected = 1;
  sqes = sqe_of 0 ∷ [];
}

abbrev quiet : Round
quiet = record {
  overflow = false;
  errno = 0;
  waited = success 0;
  first = none;
  shutdown = true;
  cqes = [];
}

abbrev arrival : Arrival
arrival = record {
  cqe = record { user_data = 33; res = success 0; more = false; buffer = none; bytes = λ i. 0 };
  ptr = 64;
  more = [];
}

abbrev accepting : Round
accepting = record quiet { shutdown = false; cqes = arrival ∷ [] }

abbrev stopped : Runner
stopped = record listening {
  accept_fd_pool = [];
  listen_socks = (32, record { fd = 3; next_accept_idx = some 1 }) ∷ [];
  sockets = (64, record { fd = 0; input = idle_input; closed = false }) ∷ [];
  socks = 1;
  expected = 0;
  stopping = true;
  sqes =
      sqe_of 1
      ∷ record {
        op = recv 4096;
        fd = 0;
        fixed_file = true;
        buffer_select = false;
        skip_success = false;
        user_data = 66;
      }
      ∷ sqe_of 0
      ∷ [];
}

loop_owns_each_slot_example : held 1 stopped ≡ 1
unfolding start fill add_listen_socks add_listen_sock add_accept find push_sqe next_fd_idx put
    provide_buffers submit_and_wait1 checked_errno error_of loop is_over wait arrive_all arrive
    process_cqe get_tag untag tag process_accept accept_result accepted_fd open_sock arm_read
    add_read read_op provider_size own_size stop wait_one is_closed
loop_owns_each_slot_example =
    loop_owns_each_slot false no_payload two_slots no_provider 2 [] ((32, 3) ∷ [])
      (accepting ∷ quiet ∷ quiet ∷ []) started listening stopped refl refl refl
      ((tt, (inl refl, tt)), ((tt, tt), ((tt, tt), tt))) refl 1

loop_ends_example :
    ((e : Error) × (loop false no_payload listening (quiet ∷ quiet ∷ accepting ∷ []) ≡ err e))
    ⊎ ((r : Runner) × (loop false no_payload listening (quiet ∷ quiet ∷ accepting ∷ [])
          ≡ ok (some r)))
loop_ends_example = loop_ends false no_payload listening quiet quiet (accepting ∷ []) refl refl
