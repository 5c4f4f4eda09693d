-- ===== src/Uring/Held.antt =====
-- The slots of the fixed file table over a whole completion.
use netbench.Base.{
  ℕ, ◌+◌, ◌≡◌, refl, ap, sym, ◌∙◌, Option, none, some, List, ◌∷◌, arith, ltb, ◌==◌, Bool, true,
  false, not, ◌&&◌, inl, inr, ◌⊎◌, Bool-cases, Option-cases,
}
use netbench.Base.Results.{ok, bind-ok, ok-inj}
use netbench.Base.Assoc.{find, total-put, total-erase}
use netbench.Protocol.{Memory}
use netbench.Uring.{
  Res, success, failure, Cqe, Sock, untag, get_tag, k_accept, k_read, k_write, k_other,
}
use netbench.Uring.Runner.{
  Runner, ListenSock, arm_read, open_sock, accepted_fd, accept_result, process_accept, is_closed,
  process_close, process_write, process_other, process_cqe, udata_timeout, idle_input,
}
use netbench.Uring.Places.{
  is_slot, waiting, held, add_accept-held, arm_read-SameSocks, SameSocks, SameSocks-held,
}
use netbench.Uring.Slots.{Res-cases, process_read-held}

open_sock-held :
    (i : ℕ) (r : Runner) (ptr fd : ℕ)
    → (held i (open_sock r ptr fd) ≡ held i r + is_slot i fd)
      × ((open_sock r ptr fd).config ≡ r.config)
unfolding open_sock
open_sock-held i r ptr fd =
    (SameSocks-held i r1 (arm_read r1 ptr s) armed ∙ omega arith, armed.config)
  where
    s : Sock
    s = record { fd = fd; input = idle_input; closed = false }

    r1 : Runner
    r1 = record r { sockets = (ptr, s) ∷ r.sockets }

    armed : SameSocks r1 (arm_read r1 ptr s)
    armed = arm_read-SameSocks r1 ptr s

accepted_fd-held :
    (i : ℕ) (r r' : Runner) (lptr fd j : ℕ) (ls : ListenSock)
    → r.config.fixed_files ≡ true
    → find lptr r.listen_socks ≡ some ls
    → accepted_fd r lptr ls fd ≡ ok (j, r')
    → (held i r' + is_slot i j ≡ held i r) × (r'.config ≡ r.config)
unfolding accepted_fd
accepted_fd-held i r r' lptr fd j ls fixed found e = elim (Bool-cases (ltb 0 fd)) [
  | inl direct ↦ let absurdity = rw (direct, accepted_fd) at (rw (fixed, accepted_fd) at e) in cc
  | inr zero_fd ↦ elim (Option-cases ls.next_accept_idx) [
    | inl idle ↦
        let absurdity =
          rw (idle, accepted_fd) at (rw (zero_fd, accepted_fd) at (rw (fixed, accepted_fd) at e)) in
        cc
    | inr (k, busy) ↦
        let done = ok-inj (
          rw (busy, accepted_fd) at
            (rw (zero_fd, accepted_fd) at (rw (fixed, accepted_fd) at e))) in
        let moved =
          total-put (waiting i) lptr (record ls { next_accept_idx = none }) ls r.listen_socks
            found in
        let one : waiting i ls ≡ is_slot i k = rw busy refl in
        let left = ap (λ p. held i p.1 + is_slot i p.0) done in
        (sym left ∙ omega (arith, moved, one), sym (ap (λ p. p.1.config) done))
  ]
]

accept_result-held :
    (i : ℕ) (r r1 : Runner) (res : Res) (lptr ptr : ℕ) (ls : ListenSock)
    → r.config.fixed_files ≡ true
    → find lptr r.listen_socks ≡ some ls
    → accept_result r lptr ls ptr res ≡ ok r1
    → (held i r1 ≡ held i r) × (r1.config ≡ r.config)
unfolding accept_result
accept_result-held i r r1 (success fd) lptr ptr ls fixed found e =
    let ((j, r2), taken, rest) = bind-ok (accepted_fd r lptr ls fd) _ e in
    let (freed, config) = accepted_fd-held i r r2 lptr fd j ls fixed found taken in
    let (opened, config') = open_sock-held i r2 ptr j in
    let done : open_sock r2 ptr j ≡ r1 = ok-inj rest in
    (sym (ap (held i) done) ∙ opened ∙ freed, sym (ap (λ r. r.config) done) ∙ config' ∙ config)
accept_result-held i r r1 (failure n) lptr ptr ls fixed found e = elim (Bool-cases r.stopping) [
  | inl stopping ↦
      let done = ok-inj (rw (stopping, accept_result) at e) in
      (sym (ap (held i) done), sym (ap (λ r. r.config) done))
  | inr running ↦ let absurdity = rw (running, accept_result) at e in cc
]

process_accept-held :
    (i : ℕ) (nonblock_accept : Bool) (r r' : Runner) (cqe : Cqe) (ptr : ℕ) (more : List (ℕ × ℕ))
    → r.config.fixed_files ≡ true
    → process_accept nonblock_accept r cqe ptr more ≡ ok r'
    → held i r' ≡ held i r
unfolding process_accept
process_accept-held i nonblock_accept r r' cqe ptr more fixed e =
    elim (Option-cases (find (untag cqe.user_data) r.listen_socks)) [
      | inl gone ↦ let absurdity = rw (gone, process_accept) at e in cc
      | inr (ls, found) ↦
          let (r1, got, rest) =
            bind-ok (accept_result r (untag cqe.user_data) ls ptr cqe.res) _
              (rw (found, process_accept) at e) in
          let (kept, config) =
            accept_result-held i r r1 cqe.res (untag cqe.user_data) ptr ls fixed found got in
          let fixed1 : r1.config.fixed_files ≡ true = ap (λ c. c.fixed_files) config ∙ fixed in
          elim (Bool-cases r1.stopping) [
            | inl stopping ↦ sym (ap (held i) (ok-inj (rw stopping at rest))) ∙ kept
            | inr running ↦
                let no_more : (nonblock_accept && not r1.config.fixed_files) ≡ false =
                  ground (arith, fixed1) in
                add_accept-held i r1 r' (untag cqe.user_data) fixed1
                  (rw no_more at (rw running at rest))
                ∙ kept
          ]
    ]

process_close-held :
    (i : ℕ) (r : Runner) (res : Res) (ptr : ℕ) (s : Sock)
    → r.config.fixed_files ≡ true
    → is_closed res ≡ true
    → find ptr r.sockets ≡ some s
    → held i (process_close r res ptr s) ≡ held i r
unfolding process_close
process_close-held i r res ptr s fixed closed found =
    rw closed (rw fixed (omega (arith, total-erase (λ s. is_slot i s.fd) ptr s r.sockets found)))

process_other-held :
    (i : ℕ) (r r' : Runner) (cqe : Cqe)
    → r.config.fixed_files ≡ true
    → is_closed cqe.res ≡ true
    → process_other r cqe ≡ ok r'
    → held i r' ≡ held i r
unfolding process_other
process_other-held i r r' cqe fixed closed e = elim (Bool-cases (cqe.user_data == 0)) [
  | inl untagged ↦ sym (ap (held i) (ok-inj (rw (untagged, process_other) at e)))
  | inr tagged ↦ elim (Option-cases (find (untag cqe.user_data) r.sockets)) [
    | inl gone ↦ let absurdity = rw (gone, process_other) at (rw (tagged, process_other) at e) in cc
    | inr (s, found) ↦
        let e' = rw (found, process_other) at (rw (tagged, process_other) at e) in
        elim (Bool-cases s.closed) [
          | inl closing ↦
              sym (ap (held i) (ok-inj (rw closing at e')))
              ∙ process_close-held i r cqe.res (untag cqe.user_data) s fixed closed found
          | inr in_use ↦ sym (ap (held i) (ok-inj (rw in_use at e')))
        ]
  ]
]

process_write-held :
    (i : ℕ) (r r' : Runner) (cqe : Cqe) → process_write r cqe ≡ ok r' → held i r' ≡ held i r
unfolding process_write
process_write-held i r r' cqe e = elim (Res-cases cqe.res) [
  | inl (inl closed) ↦ sym (ap (held i) (ok-inj (rw (closed, process_write) at e)))
  | inl (inr (n, failed)) ↦ elim (Option-cases (find (untag cqe.user_data) r.sockets)) [
    | inl gone ↦ let absurdity = rw (gone, process_write) at (rw (failed, process_write) at e) in cc
    | inr (s, found) ↦
        sym (ap (held i) (ok-inj (rw (found, process_write) at (rw (failed, process_write) at e))))
  ]
  | inr (n, sent) ↦ sym (ap (held i) (ok-inj (rw (sent, process_write) at e)))
]

-- With fixed files, a completion that the runner handles leaves each slot in as many places as
-- before (the pool, a listener that waits with it, a socket), if, for a close, the kernel has closed
-- the slot.
pub process_cqe-held :
    (i : ℕ) (nonblock_accept : Bool) (payload : Memory → ℕ → Option (Memory × ℕ)) (r r' : Runner)
    (cqe : Cqe) (ptr : ℕ) (more : List (ℕ × ℕ))
    → r.config.fixed_files ≡ true
    → is_closed cqe.res ≡ true ⊎ (get_tag cqe.user_data == k_other) ≡ false
    → process_cqe nonblock_accept payload r cqe ptr more ≡ ok r'
    → held i r' ≡ held i r
unfolding process_cqe
process_cqe-held i nonblock_accept payload r r' cqe ptr more fixed closes e =
    elim (Bool-cases (get_tag cqe.user_data == k_accept)) [
      | inl is_accept ↦
          process_accept-held i nonblock_accept r r' cqe ptr more fixed
            (rw (is_accept, process_cqe) at e)
      | inr not_accept ↦ elim (Bool-cases (get_tag cqe.user_data == k_read)) [
        | inl is_read ↦
            (process_read-held i payload r r' cqe fixed
              (rw (is_read, process_cqe) at (rw (not_accept, process_cqe) at e))).0
        | inr not_read ↦
            let e2 = rw (not_read, process_cqe) at (rw (not_accept, process_cqe) at e) in
            elim (Bool-cases (get_tag cqe.user_data == k_write)) [
              | inl is_write ↦ process_write-held i r r' cqe (rw is_write at e2)
              | inr not_write ↦ elim (Bool-cases (get_tag cqe.user_data == k_other)) [
                | inl is_other ↦
                    let closed : is_closed cqe.res ≡ true = ground (arith, closes, is_other) in
                    process_other-held i r r' cqe fixed closed (rw is_other at (rw not_write at e2))
                | inr not_other ↦ elim (Bool-cases (cqe.user_data == udata_timeout)) [
                  | inl timeout ↦
                      sym (
                        ap (held i) (ok-inj (rw timeout at (rw not_other at (rw not_write at e2)))))
                  | inr unknown ↦
                      let absurdity = rw unknown at (rw not_other at (rw not_write at e2)) in cc
                ]
              ]
            ]
      ]
    ]
