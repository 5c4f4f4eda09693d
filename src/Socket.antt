-- ===== src/Socket.antt =====
-- socket.cpp, and the same steps in sender.cpp: how sockets are made, and the address of the receiver. What
-- each call of the kernel gives is an argument.
pub mod Opened
mod Tests
use netbench.Base.{
  ℕ, Option, none, some, List, [], ◌∷◌, ◌++◌, if◌then◌else◌, Bool, true, false, length, ◌==◌,
}
use netbench.Base.Results.{Result, Error, ok, err, died, ◌>>=◌}
use netbench.Uring.{Res, success, failure}
use netbench.Util.{checked_errno}

-- What the kernel is asked to do with descriptors.
pub data Call : Type 0 where
  opened : ℕ → Call
  closed : ℕ → Call

-- How a function ends that may have opened and closed descriptors first.
pub record Run (A : Type 0) : Type 0 where
  pub calls : List Call
  pub end : Result A

-- What the calls give: `socket`, the two options, `bind`, and `errno` after each that fails.
pub record Answers : Type 0 where
  pub socket : Res
  pub reuse : Res
  pub only_v6 : Res
  pub bind : Res
  pub errno : ℕ

-- `doSetSockOpt`
unfoldable pub set_sock_opt : ℕ → Res → Result Res
unfolding checked_errno
set_sock_opt errno res = checked_errno errno res

-- The options that `mkBasicSock` sets.
unfoldable pub set_options : Bool → Answers → Result Res
unfolding set_sock_opt
set_options is_v6 a = set_sock_opt a.errno a.reuse >>= λ done.
    if is_v6 then set_sock_opt a.errno a.only_v6 else ok done

-- What `socket` has opened.
unfoldable pub made : Res → List Call
made (success fd) = opened fd ∷ []
made (failure e) = []

-- `mkBasicSock`: the descriptor is not closed when an option cannot be set. A failure as its result is
-- the negative number that `checkedErrno` lets through.
unfoldable pub mk_basic_sock : Bool → Answers → Run Res
unfolding checked_errno set_options made
mk_basic_sock is_v6 a = record {
  calls = made a.socket;
  end = checked_errno a.errno a.socket >>= λ fd. set_options is_v6 a >>= λ done. ok fd;
}

-- `bind` gives 0.
unfoldable pub is_bound : Res → Bool
is_bound (success n) = n == 0
is_bound (failure e) = false

-- `close` of what `mkBasicSock` returned.
unfoldable pub close_of : Res → List Call
close_of (success fd) = closed fd ∷ []
close_of (failure e) = []

-- The calls of `mkBoundSock`, for those of `mkBasicSock`, its end, and whether `bind` succeeds.
unfoldable pub bound_calls : List Call → Result Res → Bool → List Call
unfolding close_of
bound_calls calls (err thrown) bound = calls
bound_calls calls (ok fd) bound = if bound then calls else calls ++ close_of fd

-- `mkBoundSock`: `none` for -1.
unfoldable pub mk_bound_sock : Bool → Answers → Run (Option Res)
unfolding is_bound bound_calls
mk_bound_sock is_v6 a = record {
  calls = bound_calls (mk_basic_sock is_v6 a).calls (mk_basic_sock is_v6 a).end (is_bound a.bind);
  end = (mk_basic_sock is_v6 a).end >>= λ fd. if is_bound a.bind then ok (some fd) else ok none;
}

-- An address, for what `getaddrinfo` or `inet_pton` makes of the name.
pub record Address (A : Type 0) : Type 0 where
  pub is_v6 : Bool
  pub host : A
  pub port : ℕ

-- The name that is parsed: "::1" or "127.0.1.1" for an empty one.
unfoldable pub name_of : List ℕ → List ℕ → List ℕ → Bool → List ℕ
name_of default_v6 default_v4 [] is_v6 = if is_v6 then default_v6 else default_v4
name_of default_v6 default_v4 (c ∷ more) is_v6 = c ∷ more

-- `getAddress`: the name, or the default for an empty one, and what parses it.
unfoldable pub get_address :
    {A : Type 0}
    → (Bool → List ℕ → Option A)
    → List ℕ
    → List ℕ
    → List ℕ
    → Bool
    → ℕ
    → Result (Address A)
unfolding name_of
get_address parse default_v6 default_v4 dest is_v6 port =
    elim (parse is_v6 (name_of default_v6 default_v4 dest is_v6)) [
      | none ↦ err died
      | some host ↦ ok (record { is_v6 = is_v6; host = host; port = port })
    ]
