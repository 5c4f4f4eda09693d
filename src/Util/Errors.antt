-- ===== src/Util/Errors.antt =====
-- `checkedErrno` and the error of the call.
use netbench.Base.{ℕ, ◌≡◌, ◌≢◌, refl, arith}
use netbench.Base.Results.{ok, err, interrupted}
use netbench.Uring.{failure}
use netbench.Util.{checked_errno, error_of, eintr, etime}

-- The error that `checkedErrno` reports is not the one of the call, for a call that gives the negated
-- error itself and fails with `EPERM`, which is 1: what is thrown then, or not, follows the `errno` that
-- some call before it has left. With any other error it does not look at `errno`.
pub checked_errno_eperm :
    (errno e : ℕ)
    → ((errno ≡ eintr → checked_errno errno (failure 1) ≡ err interrupted)
        × (errno ≡ etime → checked_errno errno (failure 1) ≡ ok (failure etime)))
      × (e ≢ 1 → (other : ℕ) → checked_errno errno (failure e) ≡ checked_errno other (failure e))
unfolding checked_errno error_of
checked_errno_eperm errno e =
    ((λ same. rw same refl, λ same. rw same refl), λ distinct other. ground (arith, distinct))
