-- ===== src/Epoll/Owing.antt =====
-- The sockets that owe bytes while a round of the epoll receiver runs, over a read and a write.
use mathlib.Core.Path.{subst}
use netbench.Base.{
  ℕ, ◌<◌, ◌≡◌, sym, ◌∙◌, some, List, [], ◌∷◌, ◌++◌, arith, ltb, ◌==◌, length, Bool, true, false,
  ◌||◌, not, ◌&&◌, inl, inr, ◌⊎◌, Bool-cases, Option-cases, some-inj,
}
use netbench.Epoll.{
  EpollData, in_out, RecvReply, received, recv_again, recv_failed, SendReply, Totals, ReadResult,
  take_bytes, do_read, do_write,
}
use netbench.Epoll.Socket.{IsServed, do_write-IsServed}
use netbench.Epoll.Loop.{find, put, Runner, socket_write, after_read, do_socket}
use netbench.Epoll.Store.{
  Unique, put-Unique, erase-Unique, length-put, length-erase, All, All-find, All-put, All-erase,
  All-map,
}

abbrev pub in_queue : ℕ → List ℕ → Bool
in_queue p [] = false
in_queue p (q ∷ queue) = p == q || in_queue p queue

-- The socket is served, or its write is queued for the end of the round.
pub record Covered (queue : List ℕ) (p : ℕ) (ed : EpollData) : Type 0 where
  pub told : ed.write_in_epoll ≡ true → ed.interest ≡ in_out
  pub woken : (0 < ed.to_write → ed.write_in_epoll ≡ true) ⊎ (in_queue p queue ≡ true)

-- What holds within a round: no pointer stands twice, `socks_` counts the sockets, all are covered.
pub record Inv (r : Runner) : Type 0 where
  pub unique : Unique r.sockets
  pub counted : r.socks ≡ length r.sockets
  pub covered : All (Covered r.write_queue) r.sockets

take_bytes-kept :
    (ed ed' : EpollData) (t t' : Totals) (b : ℕ → ℕ) (n : ℕ)
    → take_bytes ed t b n ≡ some (ed', t')
    → (ed'.write_in_epoll ≡ ed.write_in_epoll) × (ed'.interest ≡ ed.interest)
unfolding take_bytes
take_bytes-kept ed ed' t t' b n e = ground arith

do_read-kept :
    (size : ℕ) (replies : List RecvReply) (ed : EpollData) (t : Totals) (res : ReadResult)
    → do_read size replies ed t ≡ some res
    → (res.socket.write_in_epoll ≡ ed.write_in_epoll) × (res.socket.interest ≡ ed.interest)
unfolding do_read
do_read-kept size [] ed t res e = absurd (ground arith)
do_read-kept size (recv_again ∷ replies) ed t res e = ground arith
do_read-kept size (recv_failed ∷ replies) ed t res e = ground arith
do_read-kept size (received b n ∷ replies) ed t res e = elim (Bool-cases (n == 0)) [
  | inl z ↦ ground (arith, rw z at e)
  | inr more ↦ elim (Option-cases (take_bytes ed t b n)) [
    | inl none_taken ↦ let absurdity = rw (more, none_taken, do_read) at e in cc
    | inr ((ed', t'), taken) ↦
        let kept = take_bytes-kept ed ed' t t' b n taken in
        elim (Bool-cases (n == size)) [
          | inl full ↦
              let rest =
                do_read-kept size replies ed' t' res
                  (rw (full, do_read) at (rw (more, taken, do_read) at e)) in
              (rest.0 ∙ kept.0, rest.1 ∙ kept.1)
          | inr short ↦
              let last = rw (short, do_read) at (rw (more, taken, do_read) at e) in
              ground (arith, last, kept)
        ]
  ]
]

pub IsServed-Covered : (queue : List ℕ) (p : ℕ) (ed : EpollData) → IsServed ed → Covered queue p ed
IsServed-Covered queue p ed s = record { told = s.told; woken = inl s.woken }

in_queue-append :
    (p : ℕ) (queue more : List ℕ) → in_queue p queue ≡ true → in_queue p (queue ++ more) ≡ true
in_queue-append p [] more h = absurd (ground arith)
in_queue-append p (q ∷ queue) more h = ground (arith, in_queue-append p queue more)

in_queue-last : (p : ℕ) (queue : List ℕ) → in_queue p (queue ++ (p ∷ [])) ≡ true
in_queue-last p [] = ground arith
in_queue-last p (q ∷ queue) = ground (arith, in_queue-last p queue)

Covered-append :
    (queue more : List ℕ) (p : ℕ) (ed : EpollData)
    → Covered queue p ed
    → Covered (queue ++ more) p ed
Covered-append queue more p ed c = record {
  told = c.told;
  woken = ground (arith, c.woken, in_queue-append p queue more);
}

put-Inv :
    (r : Runner) (p : ℕ) (ed : EpollData) (queue : List ℕ)
    → Inv r
    → ((j : ℕ) (c : EpollData) → Covered r.write_queue j c → Covered queue j c)
    → Covered queue p ed
    → Inv (record r { sockets = put p ed r.sockets; write_queue = queue })
put-Inv r p ed queue v grow c = record {
  unique = put-Unique p ed r.sockets v.unique;
  counted = v.counted ∙ sym (length-put p ed r.sockets);
  covered =
      All-put (Covered queue) p ed r.sockets
        (All-map (Covered r.write_queue) (Covered queue) r.sockets grow v.covered) c;
}

-- The write half of `doSocket` covers its socket: by a write, by the queue, or since nothing is owed.
socket_write-Inv :
    (r r' : Runner) (p : ℕ) (ed : EpollData) (out : Bool) (sends : List SendReply)
    → Inv r
    → (ed.write_in_epoll ≡ true → ed.interest ≡ in_out)
    → socket_write r p ed out sends ≡ some r'
    → Inv r'
unfolding socket_write
socket_write-Inv r r' p ed out sends v told e =
    elim (Bool-cases (out || (ltb 0 ed.to_write && not r.batch_send))) [
      | inl now ↦ elim (Option-cases (do_write sends ed)) [
        | inl stuck ↦ let absurdity = rw (now, stuck, socket_write) at e in cc
        | inr (ed', wrote) ↦
            let same = rw (now, wrote, socket_write) at e in
            subst Inv (some-inj same) (
              put-Inv r p ed' r.write_queue v (λ j c h. h)
                (IsServed-Covered r.write_queue p ed'
                  (do_write-IsServed sends ed ed' told wrote).0))
      ]
      | inr later ↦ elim (Bool-cases (ltb 0 ed.to_write)) [
        | inl owes ↦
            let same = rw (later, owes, socket_write) at e in
            subst Inv (some-inj same) (
              put-Inv r p ed (r.write_queue ++ (p ∷ [])) v (Covered-append r.write_queue (p ∷ []))
                (record { told = told; woken = inr (in_queue-last p r.write_queue) }))
        | inr free ↦
            let same = rw (later, free, socket_write) at e in
            subst Inv (some-inj same) (
              put-Inv r p ed r.write_queue v (λ j c h. h)
                (record { told = told; woken = inl (λ owes. ground (arith, free)) }))
      ]
    ]

after_read-Inv :
    (r r' : Runner) (p : ℕ) (ed : EpollData) (out : Bool) (sends : List SendReply)
    (res : ReadResult)
    → Inv r
    → find p r.sockets ≡ some ed
    → (res.socket.write_in_epoll ≡ true → res.socket.interest ≡ in_out)
    → after_read r p out sends res ≡ some r'
    → Inv r'
unfolding after_read
after_read-Inv r r' p ed out sends res v found told e = elim (Bool-cases res.alive) [
  | inl yes_alive ↦
      socket_write-Inv (record r { totals = res.totals }) r' p res.socket out sends
        (record { unique = v.unique; counted = v.counted; covered = v.covered }) told
        (rw (yes_alive, after_read) at e)
  | inr closed ↦
      let same = rw (closed, after_read) at e in
      subst Inv (some-inj same) (record {
        unique = erase-Unique p r.sockets v.unique;
        counted = omega (arith, v.counted, length-erase p ed r.sockets found);
        covered = All-erase (Covered r.write_queue) p r.sockets v.covered;
      })
]

pub do_socket-Inv :
    (r r' : Runner) (p : ℕ) (ed : EpollData) (in_ready out : Bool) (recvs : List RecvReply)
    (sends : List SendReply)
    → Inv r
    → find p r.sockets ≡ some ed
    → do_socket r p ed in_ready out recvs sends ≡ some r'
    → Inv r'
unfolding do_socket
do_socket-Inv r r' p ed false out recvs sends v found e =
    socket_write-Inv r r' p ed out sends v
      (All-find (Covered r.write_queue) p ed r.sockets v.covered found).told e
do_socket-Inv r r' p ed true out recvs sends v found e =
    elim (Option-cases (do_read r.recv_size recvs ed r.totals)) [
      | inl stuck ↦ let absurdity = rw (stuck, do_socket) at e in cc
      | inr (res, read) ↦
          let kept = do_read-kept r.recv_size recvs ed r.totals res read in
          let told = (All-find (Covered r.write_queue) p ed r.sockets v.covered found).told in
          after_read-Inv r r' p ed out sends res v found (λ flag. kept.1 ∙ told (sym kept.0 ∙ flag))
            (rw (read, do_socket) at e)
    ]
