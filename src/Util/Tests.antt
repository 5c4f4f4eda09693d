-- ===== src/Util/Tests.antt =====
-- Runs of `leftpad` and `checkHugePages`.
use netbench.Base.{◌≡◌, refl, [], ◌∷◌, true}
use netbench.Base.Results.{ok}
use netbench.Util.{check_huge_pages, leftpad, space}

leftpad_run : leftpad (49 ∷ []) 3 ≡ space ∷ space ∷ 49 ∷ []
unfolding leftpad
leftpad_run = refl

check_huge_pages_run :
    check_huge_pages (record { already_checked = 3; available = 4 }) 2 true true true
    ≡ ok (record { already_checked = 5; available = 5 })
unfolding check_huge_pages
check_huge_pages_run = refl
