-- ===== src/Epoll/Wakeup.antt =====
-- The registration of the sockets for `EPOLLOUT` over a round of `EPollRunner::loop`.
use mathlib.Core.Path.{subst}
use netbench.Base.{
  ℕ, ◌+◌, ◌≡◌, refl, sym, ◌∙◌, none, some, List, [], ◌∷◌, arith, ltb, ◌==◌, length, false, inl, inr,
  Bool-cases, Option-cases, some-inj,
}
use netbench.Epoll.{EpollData, SendReply, do_write}
use netbench.Epoll.Socket.{IsServed, do_write-IsServed}
use netbench.Epoll.Loop.{
  Sockets, find, put, Runner, Event, accepts, ready, new_socket, do_accept, handle, handle_all,
  drain, round,
}
use netbench.Epoll.Store.{
  Unique, put-Unique, length-put, All, All-find, All-map, All-at, All-put_at, All-others,
}
use netbench.Epoll.Owing.{Covered, Inv, IsServed-Covered, do_socket-Inv}

-- The allocator gives a pointer that no live socket has.
abbrev pub FreshNews : Sockets → List (ℕ × ℕ) → Type 0
FreshNews l [] = Unit
FreshNews l ((p, fd) ∷ rest) = (find p l ≡ none) × FreshNews ((p, new_socket fd) ∷ l) rest

do_accept-Inv :
    (r : Runner) (news : List (ℕ × ℕ)) → Inv r → FreshNews r.sockets news → Inv (do_accept r news)
unfolding do_accept
do_accept-Inv r [] v fresh = v
do_accept-Inv r ((p, fd) ∷ rest) v fresh =
    do_accept-Inv (record r { sockets = (p, new_socket fd) ∷ r.sockets; socks = r.socks + 1 }) rest
      (record {
        unique = (fresh.0, v.unique);
        counted = omega (arith, v.counted);
        covered = (
          record {
            told = λ h. absurd (ground (arith, h));
            woken = inl (λ h. absurd (omega arith));
          },
          v.covered,
        );
      })
      fresh.1

abbrev pub FreshEvent : Runner → Event → Type 0
FreshEvent r (accepts news) = FreshNews r.sockets news
FreshEvent r (ready p in_ready out recvs sends) = Unit

handle-Inv : (r r' : Runner) (e : Event) → Inv r → FreshEvent r e → handle r e ≡ some r' → Inv r'
unfolding handle
handle-Inv r r' (accepts news) v fresh h = subst Inv (some-inj h) (do_accept-Inv r news v fresh)
handle-Inv r r' (ready p in_ready out recvs sends) v fresh h =
    elim (Option-cases (find p r.sockets)) [
      | inl stuck ↦ let absurdity = rw (stuck, handle) at h in cc
      | inr (ed, found) ↦
          do_socket-Inv r r' p ed in_ready out recvs sends v found (rw (found, handle) at h)
    ]

-- The pointers given during a batch of events are fresh when they are given.
abbrev pub Fresh : Runner → List Event → Type 0
Fresh r [] = Unit
Fresh r (e ∷ events) = FreshEvent r e × ((r' : Runner) → handle r e ≡ some r' → Fresh r' events)

handle_all-Inv :
    (r r' : Runner) (events : List Event)
    → Inv r
    → Fresh r events
    → handle_all r events ≡ some r'
    → Inv r'
unfolding handle_all
handle_all-Inv r r' [] v fresh h = subst Inv (some-inj h) v
handle_all-Inv r r' (e ∷ events) v fresh h = elim (Option-cases (handle r e)) [
  | inl stuck ↦ let absurdity = rw (stuck, handle_all) at h in cc
  | inr (next, step) ↦
      handle_all-Inv next r' events (handle-Inv r next e v fresh.0 step) (fresh.1 next step)
        (rw (step, handle_all) at h)
]

Covered-tail :
    (queue : List ℕ) (p j : ℕ) (ed : EpollData)
    → (j == p) ≡ false
    → Covered (p ∷ queue) j ed
    → Covered queue j ed
Covered-tail queue p j ed other c = record { told = c.told; woken = ground (arith, c.woken, other) }

Covered-IsServed : (p : ℕ) (ed : EpollData) → Covered [] p ed → IsServed ed
Covered-IsServed p ed c = record { woken = ground (arith, c.woken); told = c.told }

-- What holds between rounds.
pub record IsReady (r : Runner) : Type 0 where
  pub unique : Unique r.sockets
  pub counted : r.socks ≡ length r.sockets
  pub served : All (λ p ed. IsServed ed) r.sockets
  pub no_queue : r.write_queue ≡ []

start : (r : Runner) → IsReady r → Inv r
start r v = record {
  unique = v.unique;
  counted = v.counted;
  covered =
      All-map (λ p ed. IsServed ed) (Covered r.write_queue) r.sockets
        (IsServed-Covered r.write_queue) v.served;
}

-- The loop over the write queue covers the queued sockets and keeps the others covered.
drain-Inv :
    (queue : List ℕ) (r r' : Runner) (sends : ℕ → List SendReply)
    → Unique r.sockets
    → r.socks ≡ length r.sockets
    → All (Covered queue) r.sockets
    → drain r queue sends ≡ some r'
    → Unique r'.sockets × (r'.socks ≡ length r'.sockets) × All (Covered []) r'.sockets
unfolding drain
drain-Inv [] r r' sends u n c e =
    let same = some-inj e in
    subst (λ x. Unique x.sockets × (x.socks ≡ length x.sockets) × All (Covered []) x.sockets) same
      (u, n, c)
drain-Inv (p ∷ queue) r r' sends u n c e = elim (Option-cases (find p r.sockets)) [
  | inl gone ↦
      drain-Inv queue r r' sends u n
        (All-others (Covered (p ∷ queue)) (Covered queue) p (Covered-tail queue p) r.sockets gone c)
        (rw (gone, drain) at e)
  | inr (ed, found) ↦
      let told = (All-find (Covered (p ∷ queue)) p ed r.sockets c found).told in
      elim (Bool-cases (ltb 0 ed.to_write)) [
        | inr free ↦
            drain-Inv queue r r' sends u n
              (All-at (Covered (p ∷ queue)) (Covered queue) p (Covered-tail queue p) ed r.sockets u
                found (record { told = told; woken = inl (λ owes. ground (arith, free)) }) c)
              (rw (free, drain) at (rw (found, drain) at e))
        | inl owes ↦ elim (Option-cases (do_write (sends p) ed)) [
          | inl stuck ↦
              let absurdity = rw (stuck, drain) at (rw (owes, drain) at (rw (found, drain) at e)) in
              cc
          | inr (ed', wrote) ↦
              drain-Inv queue (record r { sockets = put p ed' r.sockets }) r' sends
                (put-Unique p ed' r.sockets u) (n ∙ sym (length-put p ed' r.sockets))
                (All-put_at (Covered (p ∷ queue)) (Covered queue) p (Covered-tail queue p) ed'
                  r.sockets u
                  (IsServed-Covered queue p ed' (do_write-IsServed (sends p) ed ed' told wrote).0)
                  c)
                (rw (wrote, drain) at (rw (owes, drain) at (rw (found, drain) at e)))
        ]
      ]
]

-- From a state with the properties below, and with pointers for new sockets that are not in use, a
-- round of the event loop that comes to its end leaves every socket that is owed bytes registered for
-- `EPOLLOUT`, whatever the events, the replies and the mode of sending. It also leaves `socks_` the
-- number of sockets, no two sockets at one pointer, and the write queue empty.
pub round-IsReady :
    (r r' : Runner) (events : List Event) (sends : ℕ → List SendReply)
    → IsReady r
    → Fresh r events
    → round r events sends ≡ some r'
    → IsReady r'
unfolding round
round-IsReady r r' events sends v fresh e = elim (Option-cases (handle_all r events)) [
  | inl stuck ↦ let absurdity = rw (stuck, round) at e in cc
  | inr (mid, handled) ↦
      let inv = handle_all-Inv r mid events (start r v) fresh handled in
      elim (Option-cases (drain mid mid.write_queue sends)) [
        | inl stuck ↦ let absurdity = rw (stuck, round) at (rw (handled, round) at e) in cc
        | inr (last, drained) ↦
            let (u, n, c) =
              drain-Inv mid.write_queue mid last sends inv.unique inv.counted inv.covered drained in
            subst IsReady (some-inj (rw (drained, round) at (rw (handled, round) at e))) (record {
              unique = u;
              counted = n;
              served = All-map (Covered []) (λ p ed. IsServed ed) last.sockets Covered-IsServed c;
              no_queue = refl;
            })
      ]
]
