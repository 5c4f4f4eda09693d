-- ===== src/Epoll/Loop.antt =====
-- The loop of `EPollRunner`. A pointer to an `EPollData` is a number, `sockets_` maps it to its data,
-- and a pointer that is not there dangles: to follow it is the fault `none`. The allocator chooses
-- the pointer of a new socket, which may be one that was freed.
use netbench.Base.{
  ℕ, ◌+◌, ◌-◌, Option, none, some, List, [], ◌∷◌, ◌++◌, ltb, ◌==◌, if◌then◌else◌, Bool, true, false,
  not, ◌&&◌, ◌||◌,
}
use netbench.Protocol.{ProtocolParser}
use netbench.Epoll.{EpollData, in_edge, RecvReply, SendReply, Totals, ReadResult, do_read, do_write}

abbrev pub Sockets : Type 0
Sockets = List (ℕ × EpollData)

unfoldable pub find : ℕ → Sockets → Option EpollData
find p [] = none
find p ((q, ed) ∷ rest) = if q == p then some ed else find p rest

-- Write through a pointer.
unfoldable pub put : ℕ → EpollData → Sockets → Sockets
put p ed [] = []
put p ed ((q, old) ∷ rest) = if q == p then (q, ed) ∷ rest else (q, old) ∷ put p ed rest

-- `sockets_.erase(ed)` and `delete ed`
unfoldable pub erase : ℕ → Sockets → Sockets
erase p [] = []
erase p ((q, ed) ∷ rest) = if q == p then rest else (q, ed) ∷ erase p rest

pub record Runner : Type 0 where
  -- `rcvbuff.size()` and `rxCfg_.batch_send`
  pub recv_size : ℕ
  pub batch_send : Bool
  pub sockets : Sockets
  -- `socks_` of `RunnerBase`
  pub socks : ℕ
  pub totals : Totals
  pub write_queue : List ℕ

-- One entry of `events`, with what the kernel replies while it is handled: the sockets that
-- `accept4` gives until `EAGAIN`, each with the pointer that `new` gives, or the events of a socket.
pub data Event : Type 0 where
  accepts : List (ℕ × ℕ) → Event
  ready : ℕ → Bool → Bool → List RecvReply → List SendReply → Event

abbrev pub idle_parser : ProtocolParser
idle_parser = record {
  size_buff_have = 0;
  reading_len = 0;
  reading_resp = 0;
  size_buff = λ i. 0;
  so_far = 0;
}

-- `new EPollData()`; the header buffer is uninitialised in the source.
abbrev pub new_socket : ℕ → EpollData
new_socket fd = record {
  fd = fd;
  to_write = 0;
  write_in_epoll = false;
  parser = idle_parser;
  interest = in_edge;
}

-- `doAccept`
unfoldable pub do_accept : Runner → List (ℕ × ℕ) → Runner
do_accept r [] = r
do_accept r ((p, fd) ∷ rest) =
    do_accept (record r { sockets = (p, new_socket fd) ∷ r.sockets; socks = r.socks + 1 }) rest

-- The write half of `doSocket`, on the socket as the read left it.
unfoldable pub socket_write : Runner → ℕ → EpollData → Bool → List SendReply → Option Runner
socket_write r p ed out sends =
    if out || (ltb 0 ed.to_write && not r.batch_send)
    then (elim (do_write sends ed) [
      | none ↦ none
      | some ed' ↦ some (record r { sockets = put p ed' r.sockets })
    ])
    else if ltb 0 ed.to_write
    then some (record r { sockets = put p ed r.sockets; write_queue = r.write_queue ++ (p ∷ []) })
    else some (record r { sockets = put p ed r.sockets })

-- What `doSocket` makes of the result of `doRead`.
unfoldable pub after_read : Runner → ℕ → Bool → List SendReply → ReadResult → Option Runner
after_read r p out sends res = elim res.alive [
  | true ↦ socket_write (record r { totals = res.totals }) p res.socket out sends
  | false ↦
      some (record r { totals = res.totals; sockets = erase p r.sockets; socks = r.socks - 1 })
]

-- `doSocket`
unfoldable pub do_socket :
    Runner → ℕ → EpollData → Bool → Bool → List RecvReply → List SendReply → Option Runner
unfolding after_read socket_write
do_socket r p ed in_ready out recvs sends = elim in_ready [
  | false ↦ socket_write r p ed out sends
  | true ↦ elim (do_read r.recv_size recvs ed r.totals) [
    | none ↦ none
    | some res ↦ after_read r p out sends res
  ]
]

-- One round of the loop over `events`.
unfoldable pub handle : Runner → Event → Option Runner
unfolding do_accept do_socket
handle r (accepts news) = some (do_accept r news)
handle r (ready p in_ready out recvs sends) = elim (find p r.sockets) [
  | none ↦ none
  | some ed ↦ do_socket r p ed in_ready out recvs sends
]

unfoldable pub handle_all : Runner → List Event → Option Runner
unfolding handle
handle_all r [] = some r
handle_all r (e ∷ events) = elim (handle r e) [ none ↦ none | some r' ↦ handle_all r' events ]

-- The loop over `write_queue`, with the script of each `doWrite`.
unfoldable pub drain : Runner → List ℕ → (ℕ → List SendReply) → Option Runner
drain r [] sends = some r
drain r (p ∷ queue) sends = elim (find p r.sockets) [
  | none ↦ drain r queue sends
  | some ed ↦ elim (ltb 0 ed.to_write) [
    | false ↦ drain r queue sends
    | true ↦ elim (do_write (sends p) ed) [
      | none ↦ none
      | some ed' ↦ drain (record r { sockets = put p ed' r.sockets }) queue sends
    ]
  ]
]

-- One round of `loop` after `epoll_wait`.
unfoldable pub round : Runner → List Event → (ℕ → List SendReply) → Option Runner
unfolding handle_all drain
round r events sends = elim (handle_all r events) [
  | none ↦ none
  | some r' ↦ elim (drain r' r'.write_queue sends) [
    | none ↦ none
    | some r'' ↦ some (record r'' { write_queue = [] })
  ]
]
