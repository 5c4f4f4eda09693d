-- ===== src/Uring/Places.antt =====
-- In how many places a slot of the fixed file table is, and what leaves them as they are.
use netbench.Base.{
  ℕ, ◌+◌, ◌≡◌, refl, ap, sym, ◌∙◌, Option, none, some, List, [], ◌∷◌, arith, ltb, ◌==◌, Bool, true,
  false, if◌then◌else◌, inl, inr, Bool-cases, Option-cases, List-cases,
}
use netbench.Base.Results.{ok, bind-ok, ok-inj}
use netbench.Base.Assoc.{find, total, total-put}
use netbench.Uring.{Sqe, Sock}
use netbench.Uring.Runner.{
  Runner, ListenSock, push_sqe, provide_buffers, next_fd_idx, add_accept, arm_read, return_index,
  recycle, answer,
}

abbrev pub is_slot : ℕ → ℕ → ℕ
is_slot i j = if i == j then 1 else 0

abbrev pub in_pool : ℕ → List ℕ → ℕ
in_pool i [] = 0
in_pool i (j ∷ pool) = is_slot i j + in_pool i pool

abbrev pub waiting : ℕ → ListenSock → ℕ
waiting i ls = elim ls.next_accept_idx [ none ↦ 0 | some j ↦ is_slot i j ]

-- In how many places slot `i` is.
abbrev pub held : ℕ → Runner → ℕ
held i r =
    in_pool i r.accept_fd_pool
    + (total (waiting i) r.listen_socks + total (λ s. is_slot i s.fd) r.sockets)

next_fd_idx-held :
    (i j : ℕ) (r r' : Runner)
    → next_fd_idx r ≡ ok (j, r')
    → (held i r' + is_slot i j ≡ held i r) × (r'.listen_socks ≡ r.listen_socks)
unfolding next_fd_idx
next_fd_idx-held i j r r' e = elim (List-cases r.accept_fd_pool) [
  | inl empty ↦ let absurdity = rw (empty, next_fd_idx) at e in cc
  | inr (x, rest, full) ↦ ground (arith, rw (full, next_fd_idx) at e, full)
]

pub add_accept-held :
    (i : ℕ) (r r' : Runner) (ptr : ℕ)
    → r.config.fixed_files ≡ true
    → add_accept r ptr ≡ ok r'
    → held i r' ≡ held i r
unfolding add_accept push_sqe
add_accept-held i r r' ptr fixed e = elim (Option-cases (find ptr r.listen_socks)) [
  | inl gone ↦ let absurdity = rw (gone, add_accept) at e in cc
  | inr (ls, found) ↦ elim (Option-cases ls.next_accept_idx) [
    | inr (j, busy) ↦
        let absurdity =
          rw (busy, add_accept) at (rw (fixed, add_accept) at (rw (found, add_accept) at e)) in
        cc
    | inl free ↦
        let ((j, r1), taken, rest) =
          bind-ok (next_fd_idx r) _
            (rw (free, add_accept) at (rw (fixed, add_accept) at (rw (found, add_accept) at e))) in
        let (same, listeners) = next_fd_idx-held i j r r1 taken in
        let found' : find ptr r1.listen_socks ≡ some ls = rw listeners found in
        let moved =
          total-put (waiting i) ptr (record ls { next_accept_idx = some j }) ls r1.listen_socks
            found' in
        let idle : waiting i ls ≡ 0 = ground (arith, free) in
        let done : _ ≡ r' = ok-inj rest in sym (ap (held i) done) ∙ omega (arith, same, moved, idle)
  ]
]

-- What the buffers do not touch.
pub record SameSocks (r r' : Runner) : Type 0 where
  pub config : r'.config ≡ r.config
  pub pool : r'.accept_fd_pool ≡ r.accept_fd_pool
  pub listeners : r'.listen_socks ≡ r.listen_socks
  pub sockets : r'.sockets ≡ r.sockets
  pub socks : r'.socks ≡ r.socks
  pub stopping : r'.stopping ≡ r.stopping

pub provide_buffers-SameSocks : (force : Bool) (r : Runner) → SameSocks r (provide_buffers force r)
unfolding provide_buffers
provide_buffers-SameSocks force r = record {
  config = ground arith;
  pool = ground arith;
  listeners = ground arith;
  sockets = ground arith;
  socks = ground arith;
  stopping = ground arith;
}

pub recycle-SameSocks : (r : Runner) (o : Option ℕ) → SameSocks r (recycle r o)
unfolding recycle
recycle-SameSocks r none = record {
  config = refl;
  pool = refl;
  listeners = refl;
  sockets = refl;
  socks = refl;
  stopping = refl;
}
recycle-SameSocks r (some i) = elim (Bool-cases (ltb 0 i)) [
  | inl pos ↦ rw pos (record {
    config = kept.config;
    pool = kept.pool;
    listeners = kept.listeners;
    sockets = kept.sockets;
    socks = kept.socks;
    stopping = kept.stopping;
  })
  | inr zero_index ↦ rw zero_index (record {
    config = refl;
    pool = refl;
    listeners = refl;
    sockets = refl;
    socks = refl;
    stopping = refl;
  })
]
  where
    kept :
        SameSocks
          (record r { buffers = return_index r.buffers i })
          (provide_buffers false (record r { buffers = return_index r.buffers i }))
    kept = provide_buffers-SameSocks false (record r { buffers = return_index r.buffers i })

pub SameSocks-held : (i : ℕ) (r r' : Runner) → SameSocks r r' → held i r' ≡ held i r
SameSocks-held i r r' s = ground (
  arith,
  ap (in_pool i) s.pool,
  ap (total (waiting i)) s.listeners,
  ap (total (λ s. is_slot i s.fd)) s.sockets,
)

push_sqe-SameSocks : (r : Runner) (q : Sqe) → SameSocks r (push_sqe r q)
unfolding push_sqe
push_sqe-SameSocks r q = record {
  config = refl;
  pool = refl;
  listeners = refl;
  sockets = refl;
  socks = refl;
  stopping = refl;
}

pub arm_read-SameSocks : (r : Runner) (ptr : ℕ) (s : Sock) → SameSocks r (arm_read r ptr s)
unfolding arm_read push_sqe
arm_read-SameSocks r ptr s = record {
  config = refl;
  pool = refl;
  listeners = refl;
  sockets = refl;
  socks = refl;
  stopping = refl;
}

pub answer-SameSocks :
    (r : Runner) (ptr : ℕ) (s : Sock)
    → SameSocks r (answer r ptr s).0 × ((answer r ptr s).1.fd ≡ s.fd)
unfolding answer push_sqe
answer-SameSocks r ptr s = elim (Bool-cases (ltb 0 s.input.do_send.to_write)) [
  | inl owed ↦ rw owed (
    record {
      config = refl;
      pool = refl;
      listeners = refl;
      sockets = refl;
      socks = refl;
      stopping = refl;
    },
    refl,
  )
  | inr none_owed ↦ rw none_owed (
    record {
      config = refl;
      pool = refl;
      listeners = refl;
      sockets = refl;
      socks = refl;
      stopping = refl;
    },
    refl,
  )
]
