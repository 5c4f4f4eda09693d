-- ===== src/EpollSender.antt =====
-- `EpollSender` of sender.cpp: one thread that sends over epoll, and waits for each answer before it sends
-- again on the connection. What the kernel answers, and the times, are arguments. The workload and the
-- logs are left out.
pub mod Pieces
pub mod Sends
pub mod Events
mod Tests
use netbench.Base.{
  ℕ, zero, suc, ◌+◌, ◌-◌, ◌*◌, Option, none, some, List, [], ◌∷◌, ◌++◌, ltb, leb, ◌==◌,
  if◌then◌else◌, Bool, true, false, ◌&&◌, get_elem?, length,
}
use netbench.Base.Results.{Result, ok, err, died, fault, ◌>>=◌}
use netbench.Uring.{Res, success, failure}
use netbench.Util.{eintr}

abbrev pub eagain : ℕ
eagain = 11

-- `EpollConnection`, with what epoll watches it for beside input: `modEpoll` writes it. `toSendAt` is an
-- offset into `buff`. `wire` is what the kernel has taken: from which offset, and how many bytes.
pub record EpollConnection : Type 0 where
  pub to_send_at : ℕ
  pub to_send : ℕ
  pub to_recv : ℕ
  pub last : ℕ
  pub watch_output : Bool
  pub wire : List (ℕ × ℕ)

abbrev pub new_connection : EpollConnection
new_connection = record {
  to_send_at = 0;
  to_send = 0;
  to_recv = 0;
  last = 0;
  watch_output = false;
  wire = [];
}

pub record EpollSender : Type 0 where
  pub buff_size : ℕ
  pub resp : ℕ
  pub connections : List (Option EpollConnection)
  pub latencies : List ℕ
  pub bytes_sent : ℕ
  pub packets_sent : ℕ
  pub send_errors : ℕ
  pub recv_errors : ℕ
  pub success_connects : ℕ

-- The constructor: the buffer has a prelude of two words.
unfoldable pub start : ℕ → ℕ → EpollSender
start size resp = record {
  buff_size = 8 + size;
  resp = resp;
  connections = [];
  latencies = [];
  bytes_sent = 0;
  packets_sent = 0;
  send_errors = 0;
  recv_errors = 0;
  success_connects = 0;
}

-- `addConnection`, where each call of the kernel succeeds; any that fails throws.
unfoldable pub add_connection : EpollSender → Bool → Result EpollSender
add_connection t true = ok (record t { connections = t.connections ++ some new_connection ∷ [] })
add_connection t false = err died

-- `doConnect`, for the outcomes of the calls.
unfoldable pub do_connect : EpollSender → List Bool → Result EpollSender
unfolding add_connection
do_connect t [] = ok t
do_connect t (made ∷ more) = add_connection t made >>= λ t'.
    do_connect (record t' { success_connects = t'.success_connects + 1 }) more

unfoldable pub set_connection :
    List (Option EpollConnection) → ℕ → Option EpollConnection → List (Option EpollConnection)
set_connection [] i c = []
set_connection (old ∷ connections) zero c = c ∷ connections
set_connection (old ∷ connections) (suc i) c = old ∷ set_connection connections i c

-- How the loop of `doSend` ends: with the message sent, with a socket that takes no more, or not with
-- the answers that there are.
pub data SendEnd : Type 0 where
  all_sent : EpollConnection → ℕ → SendEnd
  blocked : EpollConnection → ℕ → SendEnd
  still_sending : SendEnd

abbrev pub took : EpollConnection → ℕ → EpollConnection
took c n = record c { wire = c.wire ++ (c.to_send_at, n) ∷ [] }

-- The loop of `doSend`, with the number of errors so far.
unfoldable pub send_loop : EpollConnection → ℕ → List Res → Result SendEnd
send_loop c errors [] = ok still_sending
send_loop c errors (success n ∷ answers) =
    if leb c.to_send n
    then ok (all_sent (took c n) errors)
    else send_loop (record (took c n) { to_send = c.to_send - n }) errors answers
send_loop c errors (failure e ∷ answers) =
    if e == eagain
    then ok (blocked c errors)
    else if e == eintr
    then (if c.to_send == 0 then ok (all_sent c (errors + 1)) else send_loop c (errors + 1) answers)
    else err died

-- After the loop of `doSend`.
unfoldable pub sent : EpollSender → ℕ → EpollConnection → ℕ → Bool → ℕ → EpollSender
unfolding set_connection
sent t i c errors from_poll now =
    let c1 = if from_poll then record c { watch_output = false } else c in
    record t {
      connections =
          set_connection t.connections i (some (record c1 { to_recv = t.resp; last = now }));
      packets_sent = t.packets_sent + 1;
      bytes_sent = t.bytes_sent + t.buff_size;
      send_errors = t.send_errors + errors;
    }

abbrev pub rewound : EpollSender → EpollConnection → Bool → EpollConnection
rewound t c from_poll = if from_poll then c else record c { to_send_at = 0; to_send = t.buff_size }

-- `doSend`: a connection that is not there is used all the same.
unfoldable pub do_send : EpollSender → ℕ → Bool → List Res → ℕ → Result (Option EpollSender)
unfolding send_loop sent set_connection
do_send t i from_poll answers now = elim (get_elem? t.connections i) [
  | none ↦ err fault
  | some none ↦ err fault
  | some (some c) ↦ send_loop (rewound t c from_poll) 0 answers >>= λ end. elim end [
    | all_sent c1 errors ↦ ok (some (sent t i c1 errors from_poll now))
    | blocked c1 errors ↦ ok (
        some (record t {
          connections =
              set_connection t.connections i
                (some (if from_poll then c1 else record c1 { watch_output = true }));
          send_errors = t.send_errors + errors;
        }))
    | still_sending ↦ ok none
  ]
]

-- The loop of `doRead` on connection `i`, which is there. `e` is what the variable holds: nothing sets it
-- before the first error.
unfoldable pub read_loop :
    EpollSender → ℕ → EpollConnection → ℕ → List Res → ℕ → Result (Option (EpollSender × Bool))
unfolding set_connection
read_loop t i c e [] now = ok none
read_loop t i c e (success zero ∷ answers) now = if e == eintr then err fault else err died
read_loop t i c e (success (suc n) ∷ answers) now =
    if ltb c.to_recv (suc n)
    then err died
    else if suc n == c.to_recv
    then ok (
        some (
          record t {
            connections = set_connection t.connections i (some (record c { to_recv = 0 }));
            latencies = t.latencies ++ (now - c.last) ∷ [];
          },
          true,
        ))
    else ok (
        some (
          record t {
            connections =
                set_connection t.connections i (some (record c { to_recv = c.to_recv - suc n }));
          },
          false,
        ))
read_loop t i c e (failure e2 ∷ answers) now =
    if e2 == eagain
    then ok (some (t, false))
    else if e2 == eintr
    then read_loop (record t { recv_errors = t.recv_errors + 1 }) i c e2 answers now
    else err died

-- `doRead`
unfoldable pub do_read : EpollSender → ℕ → ℕ → List Res → ℕ → Result (Option (EpollSender × Bool))
unfolding read_loop
do_read t i e answers now = elim (get_elem? t.connections i) [
  | none ↦ err fault
  | some none ↦ ok (some (t, false))
  | some (some c) ↦ read_loop t i c e answers now
]

-- An event of `epoll_wait`, with the number of its connection, and what the calls made for it answer.
pub record EpollEvent : Type 0 where
  pub data_of : ℕ
  pub input : Bool
  pub output : Bool
  pub garbage : ℕ
  pub received : List Res
  pub taken : List Res
  pub now : ℕ

-- The body of the `for` in `go`, for the event at place `i`.
unfoldable pub on_event : EpollSender → ℕ → EpollEvent → Result (Option EpollSender)
unfolding do_read do_send
on_event t i ev =
    if ev.input
    then (do_read t i ev.garbage ev.received ev.now >>= λ end. elim end [
      | none ↦ ok none
      | some (t', whole) ↦ if whole then do_send t' i false ev.taken ev.now else ok (some t')
    ])
    else if ev.output
    then do_send t i true ev.taken ev.now
    else ok (some t)

-- The `for` over the events of a round.
unfoldable pub on_events : EpollSender → ℕ → List EpollEvent → Result (Option EpollSender)
unfolding on_event
on_events t i [] = ok (some t)
on_events t i (ev ∷ events) =
    on_event t i ev >>= λ end. elim end [ none ↦ ok none | some t' ↦ on_events t' (i + 1) events ]

-- The first message of each connection, in `go`.
unfoldable pub send_all : EpollSender → ℕ → List (List Res) → ℕ → Result (Option EpollSender)
unfolding do_send
send_all t i [] now = ok (some t)
send_all t i (answers ∷ more) now = do_send t i false answers now >>= λ end. elim end [
  | none ↦ ok none
  | some t' ↦ send_all t' (i + 1) more now
]

-- The `while` of `go`: each round with the time it starts at.
unfoldable pub run : ℕ → EpollSender → List (ℕ × List EpollEvent) → Result (Option EpollSender)
unfolding on_events
run end t [] = ok none
run end t ((now, events) ∷ rounds) =
    if ltb now end
    then (on_events t 0 events >>= λ seen. elim seen [
      | none ↦ ok none
      | some t' ↦ run end t' rounds
    ])
    else ok (some t)
