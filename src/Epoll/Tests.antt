-- ===== src/Epoll/Tests.antt =====
-- Runs of the epoll receiver, and its theorems at concrete sockets.
use netbench.Base.{
  ◌+◌, ◌≡◌, refl, some, List, [], ◌∷◌, ◌++◌, map, arith, true, false, ltb, ◌==◌, if◌then◌else◌,
}
use netbench.Protocol.{
  Memory, SockInput, feed, did_read, consume, add_results, read_header, is_complete, reset, word32,
}
use netbench.Epoll.{
  EpollData, in_out, received, recv_again, sent, send_again, ReadResult, do_read, do_write,
  take_bytes,
}
use netbench.Epoll.Socket.{IsServed, taken, do_write-IsServed, do_write-conserves, do_read-feed}
use netbench.Epoll.Loop.{find, put, Runner, Event, accepts, ready, new_socket, idle_parser, round}
use netbench.Epoll.Ends.{round_total}
use netbench.Epoll.Wakeup.{Fresh, IsReady, round-IsReady}

-- Five bytes are owed on file descriptor 9.
abbrev owing : EpollData
owing = record (new_socket 9) { to_write = 5 }

abbrev blocked : EpollData
blocked = record owing { to_write = 2; write_in_epoll = true; interest = in_out }

do_write-owing : do_write (sent 3 ∷ send_again ∷ []) owing ≡ some blocked
unfolding do_write
do_write-owing = refl

do_write-IsServed_example : IsServed blocked × (blocked.write_in_epoll ≡ ltb 0 blocked.to_write)
do_write-IsServed_example =
    do_write-IsServed (sent 3 ∷ send_again ∷ []) owing blocked (λ h. cc) do_write-owing

do_write-conserves_example :
    (ed' : EpollData) × (do_write (sent 3 ∷ send_again ∷ []) owing ≡ some ed')
    × (ed'.to_write + taken (sent 3 ∷ send_again ∷ []) 5 ≡ 5)
do_write-conserves_example =
    do_write-conserves (sent 3 ∷ send_again ∷ []) owing tt refl (omega arith)

-- A request of one byte that wants two back, in one buffer of nine bytes.
abbrev request : Memory
request i = if i == 0 then 1 else if i == 4 then 2 else 0

abbrev fed : SockInput
fed = record { parser = idle_parser; do_send = record { to_write = 7; count = 1 } }

feed-request :
    feed
      (record { parser = idle_parser; do_send = record { to_write = 5; count = 0 } })
      (map (λ b. (b, 9)) (request ∷ []))
    ≡ some fed
unfolding feed did_read consume add_results read_header is_complete reset word32
feed-request = refl

do_read-feed_example :
    (r : ReadResult) × (do_read 9
        (map (λ b. received b 9) (request ∷ []) ++ (recv_again ∷ []))
        owing
        (record { bytes_rx = 0; requests_rx = 0 })
      ≡ some r)
    × (r.alive ≡ true)
    × (r.socket.parser ≡ fed.parser)
    × (r.socket.to_write ≡ 7)
do_read-feed_example =
    do_read-feed 9 0 (request ∷ []) owing (record { bytes_rx = 0; requests_rx = 0 }) fed
      (omega arith) feed-request

-- A runner with one socket, in batch mode.
abbrev runner : Runner
runner = record {
  recv_size = 16;
  batch_send = true;
  sockets = (1, new_socket 9) ∷ [];
  socks = 1;
  totals = record { bytes_rx = 0; requests_rx = 0 };
  write_queue = [];
}

runner-IsReady : IsReady runner
unfolding find
runner-IsReady = record {
  unique = (refl, tt);
  counted = refl;
  served = (record { woken = λ h. absurd (omega arith); told = λ h. cc }, tt);
  no_queue = refl;
}

-- A new socket is accepted; the old one asks for two bytes and gets one.
abbrev batch : List Event
batch =
    accepts ((2, 10) ∷ [])
    ∷ ready 1 true false (received request 9 ∷ recv_again ∷ []) (send_again ∷ [])
    ∷ []

abbrev after : Runner
after = record runner {
  sockets =
      (2, new_socket 10)
      ∷ (1, record (new_socket 9) { to_write = 1; write_in_epoll = true; interest = in_out })
      ∷ [];
  socks = 2;
  totals = record { bytes_rx = 9; requests_rx = 1 };
}

batch-Fresh : Fresh runner batch
unfolding find
batch-Fresh = ((refl, tt), λ r e. (tt, λ r' e'. tt))

round-batch : round runner batch (λ p. sent 1 ∷ send_again ∷ []) ≡ some after
unfolding round find put do_read take_bytes consume read_header is_complete reset word32 do_write
round-batch = refl

round-IsReady_example : IsReady after
round-IsReady_example =
    round-IsReady runner after batch (λ p. sent 1 ∷ send_again ∷ []) runner-IsReady batch-Fresh
      round-batch

round_total_example : (r : Runner) × (round runner batch (λ p. sent 1 ∷ send_again ∷ []) ≡ some r)
unfolding find
round_total_example =
    round_total runner batch (λ p. sent 1 ∷ send_again ∷ [])
      (((_, refl), (received request 9 ∷ [], refl), refl), tt, tt) (λ p. refl)
