-- ===== src/Socket/Tests.antt =====
-- A socket whose address is in use, and one whose option cannot be set.
use netbench.Base.{◌≡◌, refl, some, [], ◌∷◌, true, false}
use netbench.Base.Results.{Error, ok, err, bad_errno}
use netbench.Uring.{Res, success, failure}
use netbench.Util.{checked_errno, error_of}
use netbench.Socket.{Answers, set_sock_opt, set_options, mk_bound_sock, get_address, name_of}
use netbench.Socket.Opened.{open_after, owed, mk_bound_sock-open_after}

abbrev in_use : Answers
in_use = record {
  socket = success 7;
  reuse = success 0;
  only_v6 = failure 22;
  bind = failure 98;
  errno = 98;
}

mk_bound_sock-open_after_example :
    ((done : Res)
      → set_options true in_use ≡ ok done
      → open_after [] (mk_bound_sock true in_use).calls ≡ owed (mk_bound_sock true in_use).end)
    × ((thrown : Error)
        → set_options true in_use ≡ err thrown
        → (open_after [] (mk_bound_sock true in_use).calls ≡ 7 ∷ [])
          × ((mk_bound_sock true in_use).end ≡ err thrown))
mk_bound_sock-open_after_example = mk_bound_sock-open_after true in_use 7

-- With IPv6 the second option fails, and the socket stays open.
only_v6_fails : set_options true in_use ≡ err bad_errno
unfolding set_options set_sock_opt checked_errno error_of
only_v6_fails = refl

any_v4 :
    get_address (λ is_v6 name. some name) (58 ∷ []) (49 ∷ []) [] false 80
    ≡ ok (record { is_v6 = false; host = 49 ∷ []; port = 80 })
unfolding get_address name_of
any_v4 = refl
