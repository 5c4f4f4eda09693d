-- ===== src/Socket/Opened.antt =====
-- Which descriptors `mkBoundSock` leaves open.
use netbench.Base.{
  ℕ, ◌≡◌, refl, ap, Option, none, some, List, [], ◌∷◌, if◌then◌else◌, Bool, ◌==◌, arith, inl, inr,
  Bool-cases,
}
use netbench.Base.Results.{Result, Error, ok, err, ◌>>=◌}
use netbench.Uring.{Res, success, failure}
use netbench.Util.{checked_errno}
use netbench.Socket.{
  Call, opened, closed, Answers, set_options, made, mk_basic_sock, is_bound, close_of, bound_calls,
  mk_bound_sock,
}

abbrev remove : ℕ → List ℕ → List ℕ
remove fd [] = []
remove fd (other ∷ fds) = if other == fd then fds else other ∷ remove fd fds

-- The descriptors that are open after some calls, beside those that were before.
abbrev pub open_after : List ℕ → List Call → List ℕ
open_after fds [] = fds
open_after fds (opened fd ∷ calls) = open_after (fd ∷ fds) calls
open_after fds (closed fd ∷ calls) = open_after (remove fd fds) calls

-- What a function that makes a socket owes to its caller: the descriptor, if it returns one.
abbrev pub owed : Result (Option Res) → List ℕ
owed (err thrown) = []
owed (ok none) = []
owed (ok (some (failure e))) = []
owed (ok (some (success fd))) = fd ∷ []

-- The answers, where `socket` gives a descriptor.
abbrev pub with_socket : ℕ → Answers → Answers
with_socket fd a = record a { socket = success fd }

mk_basic_sock-calls :
    (is_v6 : Bool) (a : Answers) (fd : ℕ)
    → (mk_basic_sock is_v6 (with_socket fd a)).calls ≡ opened fd ∷ []
unfolding mk_basic_sock made
mk_basic_sock-calls is_v6 a fd = refl

mk_basic_sock-end :
    (is_v6 : Bool) (a : Answers) (fd : ℕ) (options : Result Res)
    → set_options is_v6 (with_socket fd a) ≡ options
    → (mk_basic_sock is_v6 (with_socket fd a)).end ≡ (options >>= λ done. ok (success fd))
unfolding mk_basic_sock checked_errno
mk_basic_sock-end is_v6 a fd options set = ap (λ options. options >>= λ done. ok (success fd)) set

-- The descriptors that `mkBoundSock` leaves open are the one that it returns, or none, whether or not
-- `bind` succeeds, as long as the options can be set; when one cannot be set, it throws and leaves the new
-- socket open, with no one to close it.
pub mk_bound_sock-open_after :
    (is_v6 : Bool) (a : Answers) (fd : ℕ)
    → ((done : Res)
        → set_options is_v6 (with_socket fd a) ≡ ok done
        → open_after [] (mk_bound_sock is_v6 (with_socket fd a)).calls
          ≡ owed (mk_bound_sock is_v6 (with_socket fd a)).end)
      × ((thrown : Error)
          → set_options is_v6 (with_socket fd a) ≡ err thrown
          → (open_after [] (mk_bound_sock is_v6 (with_socket fd a)).calls ≡ fd ∷ [])
            × ((mk_bound_sock is_v6 (with_socket fd a)).end ≡ err thrown))
unfolding mk_bound_sock bound_calls close_of
mk_bound_sock-open_after is_v6 a fd = (
  λ done set.
      let made_it : (mk_basic_sock is_v6 (with_socket fd a)).end ≡ ok (success fd) =
        mk_basic_sock-end is_v6 a fd (ok done) set in
      elim (Bool-cases (is_bound a.bind)) [
        | inl bound ↦ rw (made_it, calls, bound) refl
        | inr free ↦ rw (made_it, calls, free) (ground arith)
      ],
  λ thrown broken.
      let failed : (mk_basic_sock is_v6 (with_socket fd a)).end ≡ err thrown =
        mk_basic_sock-end is_v6 a fd (err thrown) broken in
      rw (failed, calls) (refl, refl),
)
  where
    calls : (mk_basic_sock is_v6 (with_socket fd a)).calls ≡ opened fd ∷ []
    calls = mk_basic_sock-calls is_v6 a fd
