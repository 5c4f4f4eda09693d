-- ===== src/Epoll/Ends.antt =====
-- A round of `EPollRunner::loop` comes to its end.
use netbench.Base.{
  ℕ, ◌+◌, ◌-◌, ◌≡◌, refl, Option, some, List, [], ◌∷◌, ◌++◌, ltb, ◌==◌, Bool, true, false, not,
  ◌&&◌, ◌||◌, inl, inr, arith, Bool-cases, Option-cases,
}
use netbench.Epoll.{EpollData, RecvReply, recv_again, SendReply, ReadResult}
use netbench.Epoll.Socket.{send_ends, do_write_total, do_read_total}
use netbench.Epoll.Loop.{
  Sockets, find, put, erase, Runner, Event, accepts, ready, new_socket, do_accept, socket_write,
  after_read, do_socket, handle, handle_all, drain, round,
}

abbrev pub Live : ℕ → Sockets → Type 0
Live p l = (ed : EpollData) × (find p l ≡ some ed)

Live-put : (p q : ℕ) (ed : EpollData) (l : Sockets) → Live q l → Live q (put p ed l)
unfolding find put
Live-put p q ed [] live = live
Live-put p q ed ((j, old) ∷ l) (e, there) = elim (Bool-cases (j == p)) [
  | inl here ↦ rw here (elim (Bool-cases (j == q)) [
    | inl same ↦ (ed, rw same refl)
    | inr other ↦ (e, rw other (rw other at there))
  ])
  | inr past ↦ rw past (elim (Bool-cases (j == q)) [
    | inl same ↦ (old, rw same refl)
    | inr other ↦ let (e1, found) = Live-put p q ed l (e, rw other at there) in (e1, rw other found)
  ])
]

Live-erase : (p q : ℕ) (l : Sockets) → (q == p) ≡ false → Live q l → Live q (erase p l)
unfolding find erase
Live-erase p q [] distinct live = live
Live-erase p q ((j, old) ∷ l) distinct (e, there) = elim (Bool-cases (j == p)) [
  | inl here ↦ rw here (elim (Bool-cases (j == q)) [
    | inl same ↦ let absurdity : ⊥ = ground (arith, here, same, distinct) in absurd absurdity
    | inr other ↦ (e, rw other at there)
  ])
  | inr past ↦ rw past (elim (Bool-cases (j == q)) [
    | inl same ↦ (old, rw same refl)
    | inr other ↦
        let (e1, found) = Live-erase p q l distinct (e, rw other at there) in (e1, rw other found)
  ])
]

Live-accepts :
    (r : Runner) (news : List (ℕ × ℕ)) (q : ℕ)
    → Live q r.sockets
    → Live q (do_accept r news).sockets
unfolding do_accept find
Live-accepts r [] q live = live
Live-accepts r ((p, fd) ∷ news) q (e, there) =
    Live-accepts (record r { sockets = (p, new_socket fd) ∷ r.sockets; socks = r.socks + 1 }) news q
      (elim (Bool-cases (p == q)) [
        | inl same ↦ (new_socket fd, rw same refl)
        | inr other ↦ (e, rw other there)
      ])

-- The kernel has no more bytes, and takes no more, in the end.
abbrev pub Drains : List RecvReply → Type 0
Drains recvs = (front : List RecvReply) × (front ++ recv_again ∷ [] ≡ recvs)

abbrev pub Fills : List SendReply → Type 0
Fills sends = send_ends sends ≡ true

socket_write_total :
    (r : Runner) (p : ℕ) (ed : EpollData) (out : Bool) (sends : List SendReply)
    → Fills sends
    → (r' : Runner) × (socket_write r p ed out sends ≡ some r')
      × ((q : ℕ) → Live q r.sockets → Live q r'.sockets)
unfolding socket_write
socket_write_total r p ed out sends fills =
    elim (Bool-cases (out || (ltb 0 ed.to_write && not r.batch_send))) [
      | inl now ↦
          let (ed1, e) = do_write_total sends ed fills in
          (
            record r { sockets = put p ed1 r.sockets },
            rw (now, e) refl,
            λ q live. Live-put p q ed1 r.sockets live,
          )
      | inr not_now ↦ elim (Bool-cases (ltb 0 ed.to_write)) [
        | inl later ↦ (
          record r { sockets = put p ed r.sockets; write_queue = r.write_queue ++ (p ∷ []) },
          rw (not_now, later) refl,
          λ q live. Live-put p q ed r.sockets live,
        )
        | inr nothing ↦ (
          record r { sockets = put p ed r.sockets },
          rw (not_now, nothing) refl,
          λ q live. Live-put p q ed r.sockets live,
        )
      ]
    ]

-- What handling an event leaves: every socket but perhaps one.
record Handled (r : Runner) (p : ℕ) (step : Option Runner) : Type 0 where
  after : Runner
  returns : step ≡ some after
  live : (q : ℕ) → (q == p) ≡ false → Live q r.sockets → Live q after.sockets

after_read_total :
    (r : Runner) (p : ℕ) (out : Bool) (sends : List SendReply) (res : ReadResult)
    → Fills sends
    → Handled r p (after_read r p out sends res)
unfolding after_read
after_read_total r p out sends res fills = elim (Bool-cases res.alive) [
  | inl alive ↦
      let (r1, e, live) =
        socket_write_total (record r { totals = res.totals }) p res.socket out sends fills in
      record { after = r1; returns = rw (alive, after_read) e; live = λ q distinct. live q }
  | inr dead ↦ record {
    after = record r { totals = res.totals; sockets = erase p r.sockets; socks = r.socks - 1 };
    returns = rw (dead, after_read) refl;
    live = λ q distinct. Live-erase p q r.sockets distinct;
  }
]

do_socket_total :
    (r : Runner) (p : ℕ) (ed : EpollData) (in_ready out : Bool) (recvs : List RecvReply)
    (sends : List SendReply)
    → Drains recvs
    → Fills sends
    → Handled r p (do_socket r p ed in_ready out recvs sends)
unfolding do_socket
do_socket_total r p ed false out recvs sends drains fills =
    let (r1, e, live) = socket_write_total r p ed out sends fills in
    record { after = r1; returns = e; live = λ q distinct. live q }
do_socket_total r p ed true out recvs sends (front, all) fills =
    let (res, e) = do_read_total r.recv_size front ed r.totals in
    let here = after_read_total r p out sends res fills in
    record {
      after = here.after;
      returns = rw (← all) (rw (e, do_socket) here.returns);
      live = here.live;
    }

-- An event is for another socket, or the listener.
abbrev pub IsOther : ℕ → Event → Type 0
IsOther p (accepts news) = Unit
IsOther p (ready q in_ready out recvs sends) = (q == p) ≡ false

abbrev pub AllOther : ℕ → List Event → Type 0
AllOther p [] = Unit
AllOther p (e ∷ events) = IsOther p e × AllOther p events

-- The kernel reports a socket that is there once in a round, and its answers end.
abbrev pub Reported : Sockets → List Event → Type 0
Reported l [] = Unit
Reported l (accepts news ∷ events) = Reported l events
Reported l (ready p in_ready out recvs sends ∷ events) =
    (Live p l × Drains recvs × Fills sends) × AllOther p events × Reported l events

still-Reported :
    (l l' : Sockets) (events : List Event) (p : ℕ)
    → ((q : ℕ) → (q == p) ≡ false → Live q l → Live q l')
    → AllOther p events
    → Reported l events
    → Reported l' events
still-Reported l l' [] p keep others reported = tt
still-Reported l l' (accepts news ∷ events) p keep others reported =
    still-Reported l l' events p keep others.1 reported
still-Reported l l' (ready q in_ready out recvs sends ∷ events) p keep others
      ((live, recvs_end, sends_end), distinct, more) =
    (
      (keep q others.0 live, recvs_end, sends_end),
      distinct,
      still-Reported l l' events p keep others.1 more,
    )

still_all :
    (l l' : Sockets) (events : List Event)
    → ((q : ℕ) → Live q l → Live q l')
    → Reported l events
    → Reported l' events
still_all l l' [] keep reported = tt
still_all l l' (accepts news ∷ events) keep reported = still_all l l' events keep reported
still_all l l' (ready q in_ready out recvs sends ∷ events) keep
      ((live, recvs_end, sends_end), distinct, more) =
    ((keep q live, recvs_end, sends_end), distinct, still_all l l' events keep more)

handle_all_total :
    (r : Runner) (events : List Event)
    → Reported r.sockets events
    → (r' : Runner) × (handle_all r events ≡ some r')
unfolding handle_all handle
handle_all_total r [] reported = (r, refl)
handle_all_total r (accepts news ∷ events) reported = handle_all_total (do_accept r news) events (
    still_all r.sockets (do_accept r news).sockets events (λ q live. Live-accepts r news q live)
      reported)
handle_all_total r (ready p in_ready out recvs sends ∷ events)
      (((ed, there), drains, fills), others, reported) =
    let here = do_socket_total r p ed in_ready out recvs sends drains fills in
    let (r1, rest) =
      handle_all_total here.after events
        (still-Reported r.sockets here.after.sockets events p here.live others reported) in
    (r1, rw (there, handle_all, handle) (rw (here.returns, handle_all, handle) rest))

drain_total :
    (r : Runner) (queue : List ℕ) (sends : ℕ → List SendReply)
    → ((p : ℕ) → Fills (sends p))
    → (r' : Runner) × (drain r queue sends ≡ some r')
unfolding drain
drain_total r [] sends fills = (r, refl)
drain_total r (p ∷ queue) sends fills = elim (Option-cases (find p r.sockets)) [
  | inl gone ↦ let (r1, e) = drain_total r queue sends fills in (r1, rw (gone, drain) e)
  | inr (ed, there) ↦ elim (Bool-cases (ltb 0 ed.to_write)) [
    | inr nothing ↦
        let (r1, e) = drain_total r queue sends fills in
        (r1, rw (there, drain) (rw (nothing, drain) e))
    | inl owing ↦
        let (ed1, written) = do_write_total (sends p) ed (fills p) in
        let (r1, e) = drain_total (record r { sockets = put p ed1 r.sockets }) queue sends fills in
        (r1, rw (there, drain) (rw (owing, drain) (rw (written, drain) e)))
  ]
]

-- A round of the epoll receiver returns, if the kernel reports each socket that is there at most once, and
-- for each the answers end: `recv` with no more bytes, `send` with a socket that takes no more or fails.
pub round_total :
    (r : Runner) (events : List Event) (sends : ℕ → List SendReply)
    → Reported r.sockets events
    → ((p : ℕ) → Fills (sends p))
    → (r' : Runner) × (round r events sends ≡ some r')
unfolding round
round_total r events sends reported fills =
    let (r1, handled) = handle_all_total r events reported in
    let (r2, drained) = drain_total r1 r1.write_queue sends fills in
    (record r2 { write_queue = [] }, rw (handled, round) (rw (drained, round) refl))
