-- ===== src/Uring/Rounds/Accepting.antt =====
-- That an accept changes neither the configuration nor whether the runner is stopping.
use netbench.Base.{
  ℕ, ◌≡◌, refl, ap, sym, ◌∙◌, List, [], ◌∷◌, ltb, Bool, true, false, not, ◌&&◌, inl, inr,
  Bool-cases, Option-cases, List-cases,
}
use mathlib.Core.Path.{subst}
use netbench.Base.Results.{ok, bind-ok, ok-inj}
use netbench.Base.Assoc.{find}
use netbench.Uring.{Res, success, failure, Cqe, untag}
use netbench.Uring.Runner.{
  Runner, ListenSock, push_sqe, next_fd_idx, add_accept, arm_read, open_sock, open_socks,
  accepted_fd, accept_result, process_accept,
}

pub record Steady (r r' : Runner) : Type 0 where
  pub config : r'.config ≡ r.config
  pub stopping : r'.stopping ≡ r.stopping

pub steady : {r : Runner} → Steady r r
steady = record { config = refl; stopping = refl }

pub Steady-then : {r s t : Runner} → Steady r s → Steady s t → Steady r t
Steady-then a b = record { config = b.config ∙ a.config; stopping = b.stopping ∙ a.stopping }

-- The same after `rw` has put a known flag in its place.
pub Steady-config :
    (r : Runner) (b : Bool)
    → r.config.fixed_files ≡ b
    → Steady r (record r { config = record r.config { fixed_files = b } })
Steady-config r b e = record {
  config = ap (λ b. record r.config { fixed_files = b }) (sym e);
  stopping = refl;
}

Steady-stopping : (r : Runner) (b : Bool) → r.stopping ≡ b → Steady r (record r { stopping = b })
Steady-stopping r b e = record { config = refl; stopping = sym e }

next_fd_idx-Steady : (r r' : Runner) (j : ℕ) → next_fd_idx r ≡ ok (j, r') → Steady r r'
unfolding next_fd_idx
next_fd_idx-Steady r r' j e = elim (List-cases r.accept_fd_pool) [
  | inl empty ↦ let absurdity = rw (empty, next_fd_idx) at e in cc
  | inr (x, rest, full) ↦
      subst (λ p. Steady r p.1) (ok-inj (rw (full, next_fd_idx) at e))
        (record { config = refl; stopping = refl })
]

pub add_accept-Steady : (r r' : Runner) (ptr : ℕ) → add_accept r ptr ≡ ok r' → Steady r r'
unfolding add_accept push_sqe next_fd_idx
add_accept-Steady r r' ptr e = elim (Option-cases (find ptr r.listen_socks)) [
  | inl gone ↦ let absurdity = rw (gone, add_accept) at e in cc
  | inr (ls, found) ↦ elim (Bool-cases r.config.fixed_files) [
    | inr plain ↦
        subst (Steady r) (ok-inj (rw (plain, add_accept) at (rw (found, add_accept) at e)))
          (record { config = (Steady-config r false plain).config; stopping = refl })
    | inl fixed ↦ elim (Option-cases ls.next_accept_idx) [
      | inr (j, busy) ↦
          let absurdity =
            rw (busy, add_accept) at (rw (fixed, add_accept) at (rw (found, add_accept) at e)) in
          cc
      | inl free ↦
          let ((j, r1), taken, rest) =
            bind-ok (next_fd_idx r) _ (
              rw (free, add_accept) at (rw (fixed, add_accept) at (rw (found, add_accept) at e))) in
          let before = next_fd_idx-Steady r r1 j taken in
          subst (Steady r) (ok-inj rest)
            (record { config = before.config; stopping = before.stopping })
    ]
  ]
]

open_sock-Steady : (r : Runner) (ptr fd : ℕ) → Steady r (open_sock r ptr fd)
unfolding open_sock arm_read push_sqe
open_sock-Steady r ptr fd = record { config = refl; stopping = refl }

open_socks-Steady : (r : Runner) (more : List (ℕ × ℕ)) → Steady r (open_socks r more)
unfolding open_socks
open_socks-Steady r [] = steady
open_socks-Steady r ((ptr, fd) ∷ more) =
    Steady-then (open_sock-Steady r ptr fd) (open_socks-Steady (open_sock r ptr fd) more)

accepted_fd-Steady :
    (r r' : Runner) (lptr fd j : ℕ) (ls : ListenSock)
    → accepted_fd r lptr ls fd ≡ ok (j, r')
    → Steady r r'
unfolding accepted_fd
accepted_fd-Steady r r' lptr fd j ls e = elim (Bool-cases r.config.fixed_files) [
  | inr plain ↦
      subst (λ p. Steady r p.1) (ok-inj (rw (plain, accepted_fd) at e))
        (Steady-config r false plain)
  | inl fixed ↦ elim (Bool-cases (ltb 0 fd)) [
    | inl direct ↦ let absurdity = rw (direct, accepted_fd) at (rw (fixed, accepted_fd) at e) in cc
    | inr zero_fd ↦ elim (Option-cases ls.next_accept_idx) [
      | inl idle ↦
          let absurdity =
            rw (idle, accepted_fd) at
              (rw (zero_fd, accepted_fd) at (rw (fixed, accepted_fd) at e)) in
          cc
      | inr (k, busy) ↦
          subst (λ p. Steady r p.1)
            (ok-inj (
              rw (busy, accepted_fd) at
                (rw (zero_fd, accepted_fd) at (rw (fixed, accepted_fd) at e))))
            (record { config = refl; stopping = refl })
    ]
  ]
]

accept_result-Steady :
    (r r' : Runner) (lptr ptr : ℕ) (ls : ListenSock) (res : Res)
    → accept_result r lptr ls ptr res ≡ ok r'
    → Steady r r'
unfolding accept_result
accept_result-Steady r r' lptr ptr ls (success fd) e =
    let ((j, r1), taken, rest) = bind-ok (accepted_fd r lptr ls fd) _ e in
    subst (Steady r) (ok-inj rest)
      (Steady-then (accepted_fd-Steady r r1 lptr fd j ls taken) (open_sock-Steady r1 ptr j))
accept_result-Steady r r' lptr ptr ls (failure n) e = elim (Bool-cases r.stopping) [
  | inl stopping ↦
      subst (Steady r) (ok-inj (rw (stopping, accept_result) at e))
        (Steady-stopping r true stopping)
  | inr running ↦ let absurdity = rw (running, accept_result) at e in cc
]

pub process_accept-Steady :
    (nonblock_accept : Bool) (r r' : Runner) (cqe : Cqe) (ptr : ℕ) (more : List (ℕ × ℕ))
    → process_accept nonblock_accept r cqe ptr more ≡ ok r'
    → Steady r r'
unfolding process_accept
process_accept-Steady nonblock_accept r r' cqe ptr more e =
    elim (Option-cases (find (untag cqe.user_data) r.listen_socks)) [
      | inl gone ↦ let absurdity = rw (gone, process_accept) at e in cc
      | inr (ls, found) ↦
          let (r1, got, rest) =
            bind-ok (accept_result r (untag cqe.user_data) ls ptr cqe.res) _
              (rw (found, process_accept) at e) in
          let before = accept_result-Steady r r1 (untag cqe.user_data) ptr ls cqe.res got in
          elim (Bool-cases r1.stopping) [
            | inl stopping ↦ subst (Steady r) (ok-inj (rw stopping at rest)) before
            | inr running ↦ elim (Bool-cases (nonblock_accept && not r1.config.fixed_files)) [
              | inl again ↦ Steady-then before (
                  Steady-then (open_socks-Steady r1 more) (
                    add_accept-Steady (open_socks r1 more) r' (untag cqe.user_data)
                      (rw again at (rw running at rest))))
              | inr once ↦
                  Steady-then before (
                    add_accept-Steady r1 r' (untag cqe.user_data) (rw once at (rw running at rest)))
            ]
          ]
    ]
