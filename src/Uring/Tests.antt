-- ===== src/Uring/Tests.antt =====
-- Runs of the io_uring receiver, and its theorems at a small runner.
use netbench.Base.{ℕ, ◌≡◌, refl, some, none, Option, List, [], ◌∷◌, arith, true, false}
use netbench.Base.Results.{ok, err, fault}
use netbench.Base.Assoc.{find, put, erase}
use netbench.Protocol.{Memory}
use netbench.Buffers.Ranges.{Range, Provider}
use netbench.Buffers.Ranges
use netbench.Buffers.Ranges.Indices.{occurs}
use netbench.Uring.{
  Config, accept_direct, recv, Sqe, success, failure, Cqe, Sock, tag, untag, get_tag, sock_did_read,
  add_read, read_op,
}
use netbench.Uring.Runner.{
  ranges, Runner, idle_input, next_fd_idx, add_accept, accepted_fd, accept_result, open_sock,
  arm_read, push_sqe, process_accept, process_write, process_read, process_cqe, read_end,
  is_enobufs, recycle, provide_buffers, provider_size, own_size,
}
use netbench.Uring.Provide.{handed_over, provide_buffers-drains}
use netbench.Uring.Recycle.{process_read_keeps_zero, process_write_after_end}

abbrev fixed_files : Config
fixed_files = record {
  fixed_files = true;
  multishot_recv = false;
  recvmsg = false;
  provided_buffer_compact = true;
  cqe_skip_success = false;
  buffer_version = 1;
}

abbrev full : Provider
full = record {
  size_per_buffer = 4096;
  buffer_count = 8;
  to_provide_count = 5;
  low_watermark = 2;
  to_provide = record { start = 3; count = 2 } ∷ record { start = 5; count = 3 } ∷ [];
}

abbrev client : Sock
client = record { fd = 9; input = idle_input; closed = false }

-- A listener at 32 that waits with slot 5, and a socket at 64 in slot 9.
abbrev runner : Runner
runner = record {
  config = fixed_files;
  buffers = ranges full;
  accept_fd_pool = 7 ∷ 6 ∷ [];
  listen_socks = (32, record { fd = 3; next_accept_idx = some 5 }) ∷ [];
  sockets = (64, client) ∷ [];
  socks = 1;
  expected = 0;
  stopping = false;
  bytes_rx = 0;
  requests_rx = 0;
  sqes = [];
}

abbrev nothing : Memory
nothing i = 0

abbrev no_payload : Memory → ℕ → Option (Memory × ℕ)
no_payload b n = none

abbrev accepted : Cqe
accepted = record { user_data = 33; res = success 0; more = false; buffer = none; bytes = nothing }

abbrev add_accept_sqe : Sqe
add_accept_sqe = record {
  op = accept_direct 7;
  fd = 3;
  fixed_file = false;
  buffer_select = false;
  skip_success = false;
  user_data = 33;
}

abbrev read_sqe : Sqe
read_sqe = record {
  op = recv 4096;
  fd = 5;
  fixed_file = true;
  buffer_select = true;
  skip_success = false;
  user_data = 98;
}

abbrev after_accept : Runner
after_accept = record runner {
  accept_fd_pool = 6 ∷ [];
  listen_socks = (32, record { fd = 3; next_accept_idx = some 7 }) ∷ [];
  sockets = (96, record { fd = 5; input = idle_input; closed = false }) ∷ (64, client) ∷ [];
  socks = 2;
  expected = 2;
  sqes = add_accept_sqe ∷ read_sqe ∷ [];
}

process_accepted : process_cqe false no_payload runner accepted 96 [] ≡ ok after_accept
unfolding process_cqe get_tag untag tag process_accept find put accept_result accepted_fd open_sock
    arm_read push_sqe add_read read_op provider_size own_size add_accept next_fd_idx
process_accepted = refl

-- The end of the connection at 64, in a runner without fixed files.
abbrev ended : Cqe
ended = record { user_data = 66; res = success 0; more = false; buffer = some 0; bytes = nothing }

abbrev plain_runner : Runner
plain_runner = record runner { config = record fixed_files { fixed_files = false } }

abbrev after_end : Runner
after_end = record plain_runner { sockets = []; socks = 0 }

read_ended : process_read no_payload plain_runner ended ≡ ok after_end
unfolding process_read untag find erase sock_did_read recycle read_end is_enobufs
read_ended = refl

abbrev failed_write : Cqe
failed_write = record {
  user_data = 67;
  res = failure 32;
  more = false;
  buffer = none;
  bytes = nothing;
}

process_write_after_end_example : process_write after_end failed_write ≡ err fault
unfolding untag find erase
process_write_after_end_example =
    process_write_after_end no_payload plain_runner after_end ended failed_write 32 refl refl refl
      refl refl read_ended

process_read_keeps_zero_example : after_end.buffers ≡ plain_runner.buffers
process_read_keeps_zero_example =
    process_read_keeps_zero no_payload plain_runner after_end ended refl read_ended

provide_buffers-drains_example :
    (q : Provider) × (gs : List Range) × ((provide_buffers false runner).buffers ≡ ranges q)
    × (q.to_provide ≡ [])
    × (q.to_provide_count ≡ 0)
    × ((provide_buffers false runner).sqes ≡ handed_over gs [])
    × ((a : ℕ) → occurs a gs ≡ occurs a full.to_provide)
unfolding Ranges.needs_to_provide
provide_buffers-drains_example =
    provide_buffers-drains runner full refl (record { counted = refl }) (omega arith) refl
