-- ===== src/Util.antt =====
-- util.h and util.cpp: `checkedErrno`, `leftpad`, `hexdump` and `checkHugePages`. A character is its number.
pub mod Errors
mod Tests
use netbench.Base.{
  ℕ, ◌+◌, ◌-◌, ◌*◌, ◌/◌, ◌%◌, ◌^◌, Option, none, some, List, [], ◌∷◌, ◌++◌, length, replicate, ltb,
  leb, ◌==◌, if◌then◌else◌, Bool, true, false,
}
use netbench.Base.Results.{Result, ok, err, Error, interrupted, bad_errno, died}
use netbench.Uring.{Res, success, failure}

abbrev pub eperm : ℕ
eperm = 1

abbrev pub eintr : ℕ
eintr = 4

abbrev pub etime : ℕ
etime = 62

-- The error of a result below 0: -1 means that it is in `errno`.
unfoldable pub error_of : ℕ → ℕ → ℕ
error_of errno e = if e == 1 then errno else e

-- `checkedErrno`
unfoldable pub checked_errno : ℕ → Res → Result Res
unfolding error_of
checked_errno errno (success n) = ok (success n)
checked_errno errno (failure e) =
    if error_of errno e == eintr
    then err interrupted
    else if error_of errno e == etime
    then ok (failure etime)
    else err bad_errno

abbrev pub space : ℕ
space = 32

-- `leftpad`
unfoldable pub leftpad : List ℕ → ℕ → List ℕ
leftpad x n = if leb n (length x) then x else replicate (n - length x) space ++ x

-- The state of `checkHugePages`: `already_checked`, and the number in the file.
pub record HugePages : Type 0 where
  pub already_checked : ℕ
  pub available : ℕ

-- `checkHugePages`: whether the file opens, what is read from it (a number, if it parses), and whether the
-- whole number is written; a write that fails is only logged.
unfoldable pub check_huge_pages : HugePages → ℕ → (opened parsed written : Bool) → Result HugePages
check_huge_pages h n opened parsed written =
    let count = h.already_checked + n in
    if opened
    then (if parsed
        then (if ltb h.available count
            then ok (record {
              already_checked = count;
              available = if written then count else h.available;
            })
            else ok (record h { already_checked = count }))
        else err died)
    else err died
