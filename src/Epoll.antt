-- ===== src/Epoll.antt =====
-- The epoll receiver of netbench.cpp: `EPollData` and the operations of `EPollRunner` on one socket.
-- The kernel's replies are arguments: the script of a loop lists what its calls report, and `none`
-- says that the script is too short. A call of `epoll_ctl` that fails throws and ends the runner; here
-- it succeeds.
pub mod Socket
pub mod Loop
pub mod Store
pub mod Owing
pub mod Wakeup
pub mod Ends
mod Tests
use netbench.Base.{
  ℕ, zero, suc, ◌+◌, ◌-◌, ◌%◌, ◌^◌, Option, none, some, List, [], ◌∷◌, ltb, ◌==◌, min,
  if◌then◌else◌, Bool, true, false, not, ◌&&◌, ◌||◌,
}
use netbench.Protocol.{Memory, ProtocolParser, consume}

-- The events that the kernel was last told to report for a socket.
pub data Interest : Type 0 where
  -- `EPOLLIN | EPOLLET`, on accept
  in_edge : Interest
  -- `EPOLLIN`
  in_only : Interest
  -- `EPOLLIN | EPOLLOUT`
  in_out : Interest

-- `EPollData` of a connected socket, with the kernel's interest in it.
pub record EpollData : Type 0 where
  pub fd : ℕ
  pub to_write : ℕ
  pub write_in_epoll : Bool
  pub parser : ProtocolParser
  pub interest : Interest

-- What `recv` reports: bytes (none of them if the peer has closed), `EAGAIN`, or another error.
pub data RecvReply : Type 0 where
  received : Memory → ℕ → RecvReply
  recv_again : RecvReply
  recv_failed : RecvReply

-- What `send` reports.
pub data SendReply : Type 0 where
  sent : ℕ → SendReply
  send_again : SendReply
  send_failed : SendReply

-- `bytesRx_` and `requestsRx_` of `RunnerBase`.
pub record Totals : Type 0 where
  pub bytes_rx : ℕ
  pub requests_rx : ℕ

-- What `doRead` leaves: whether the socket still lives, that is whether it returns 0.
pub record ReadResult : Type 0 where
  pub alive : Bool
  pub socket : EpollData
  pub totals : Totals

-- The statements of `doRead` for a `recv` that gave bytes.
unfoldable pub take_bytes : EpollData → Totals → Memory → ℕ → Option (EpollData × Totals)
take_bytes ed t b n = elim (consume ed.parser b n) [
  | none ↦ none
  | some (p, consumed) ↦ some (
    record ed { to_write = (ed.to_write + consumed.to_write) % 2 ^ 64; parser = p },
    record {
      bytes_rx = (t.bytes_rx + n) % 2 ^ 64;
      requests_rx = (t.requests_rx + consumed.count) % 2 ^ 64;
    },
  )
]

-- `doRead`, with `size` the size of `rcvbuff`. A full buffer is read again.
unfoldable pub do_read : ℕ → List RecvReply → EpollData → Totals → Option ReadResult
do_read size [] ed t = none
do_read size (recv_again ∷ replies) ed t = some (record { alive = true; socket = ed; totals = t })
do_read size (recv_failed ∷ replies) ed t = some (record { alive = false; socket = ed; totals = t })
do_read size (received b n ∷ replies) ed t =
    if n == 0
    then some (record { alive = false; socket = ed; totals = t })
    else (elim (take_bytes ed t b n) [
      | none ↦ none
      | some (ed', t') ↦ elim (n == size) [
        | true ↦ do_read size replies ed' t'
        | false ↦ some (record { alive = true; socket = ed'; totals = t' })
      ]
    ])

-- The loop of `doWrite`: what is left of `to_write`. The count is narrowed to 32 bits on the way.
unfoldable pub write_loop : List SendReply → ℕ → Option ℕ
write_loop [] to_write = if to_write == 0 then some 0 else none
write_loop (send_again ∷ replies) to_write = some to_write
write_loop (send_failed ∷ replies) to_write = some 0
write_loop (sent n ∷ replies) to_write =
    let rest = write_loop replies (to_write - min (to_write % 2 ^ 32) n) in
    if to_write == 0 then some 0 else rest

-- The end of `doWrite`: ask the kernel for `EPOLLOUT`, or stop asking.
unfoldable pub update_interest : EpollData → EpollData
update_interest ed =
    if ed.write_in_epoll && (ed.to_write == 0)
    then record ed { interest = in_only; write_in_epoll = false }
    else if not ed.write_in_epoll && ltb 0 ed.to_write
    then record ed { interest = in_out; write_in_epoll = true }
    else ed

-- `doWrite`
unfoldable pub do_write : List SendReply → EpollData → Option EpollData
unfolding write_loop update_interest
do_write replies ed = elim (write_loop replies ed.to_write) [
  | none ↦ none
  | some left ↦ some (update_interest (record ed { to_write = left }))
]
