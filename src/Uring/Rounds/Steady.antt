-- ===== src/Uring/Rounds/Steady.antt =====
-- What no completion of the io_uring receiver changes: the configuration, and whether it is stopping.
use netbench.Base.{
  ℕ, ◌≡◌, refl, Option, List, ltb, ◌==◌, Bool, true, false, not, ◌||◌, inl, inr, Bool-cases,
  Option-cases,
}
use mathlib.Core.Path.{subst}
use netbench.Base.Results.{ok, bind-ok, ok-inj}
use netbench.Base.Assoc.{find}
use netbench.Protocol.{Memory}
use netbench.Uring.{
  Res, Cqe, Sock, untag, get_tag, k_accept, k_read, k_write, k_other, sock_did_read,
}
use netbench.Uring.Runner.{
  Runner, push_sqe, provide_buffers, arm_read, is_enobufs, recycle, answer, read_some, read_end,
  process_read, process_write, process_other, process_close, process_cqe, udata_timeout,
}
use netbench.Uring.Places.{
  SameSocks, provide_buffers-SameSocks, recycle-SameSocks, answer-SameSocks,
}
use netbench.Uring.Slots.{Res-cases}
use netbench.Uring.Rounds.Accepting.{
  Steady, steady, Steady-then, Steady-config, process_accept-Steady,
}

SameSocks-Steady : {r r' : Runner} → SameSocks r r' → Steady r r'
SameSocks-Steady same = record { config = same.config; stopping = same.stopping }

pub provide_buffers-Steady : (force : Bool) (r : Runner) → Steady r (provide_buffers force r)
provide_buffers-Steady force r = SameSocks-Steady (provide_buffers-SameSocks force r)

read_some-Steady :
    (r : Runner) (ptr : ℕ) (s : Sock) (amount : ℕ) (more : Bool)
    → Steady r (read_some r ptr s amount more)
unfolding read_some arm_read push_sqe
read_some-Steady r ptr s amount more =
    let kept = (answer-SameSocks r ptr s).0 in
    elim (Bool-cases (not (answer r ptr s).0.config.multishot_recv || not more)) [
      | inl again ↦ rw again (record { config = kept.config; stopping = kept.stopping })
      | inr armed ↦ rw armed (record { config = kept.config; stopping = kept.stopping })
    ]

read_end-Steady :
    (r r' : Runner) (res : Res) (ptr : ℕ) (s : Sock) → read_end r res ptr s ≡ ok r' → Steady r r'
unfolding read_end push_sqe
read_end-Steady r r' res ptr s e = elim (Bool-cases (is_enobufs res)) [
  | inl starved ↦ let absurdity = rw (starved, read_end) at e in cc
  | inr other ↦ elim (Bool-cases r.config.fixed_files) [
    | inl fixed ↦
        subst (Steady r) (ok-inj (rw (fixed, read_end) at (rw (other, read_end) at e)))
          (record { config = (Steady-config r true fixed).config; stopping = refl })
    | inr plain ↦
        subst (Steady r) (ok-inj (rw (plain, read_end) at (rw (other, read_end) at e)))
          (record { config = (Steady-config r false plain).config; stopping = refl })
  ]
]

process_read-Steady :
    (payload : Memory → ℕ → Option (Memory × ℕ)) (r r' : Runner) (cqe : Cqe)
    → process_read payload r cqe ≡ ok r'
    → Steady r r'
unfolding process_read
process_read-Steady payload r r' cqe e =
    elim (Option-cases (find (untag cqe.user_data) r.sockets)) [
      | inl gone ↦ let absurdity = rw (gone, process_read) at e in cc
      | inr (s, found) ↦
          let (res, parsed, rest) =
            bind-ok (sock_did_read r.config payload s cqe) _ (rw (found, process_read) at e) in
          let recycled = SameSocks-Steady (recycle-SameSocks r res.recycle) in
          let r1 = recycle r res.recycle in
          elim (Bool-cases (ltb 0 res.amount)) [
            | inl bytes ↦ subst (Steady r) (ok-inj (rw bytes at rest)) (
                Steady-then recycled
                  (read_some-Steady r1 (untag cqe.user_data) res.sock res.amount cqe.more))
            | inr ended ↦
                Steady-then recycled
                  (read_end-Steady r1 r' cqe.res (untag cqe.user_data) res.sock (rw ended at rest))
          ]
    ]

process_write-Steady : (r r' : Runner) (cqe : Cqe) → process_write r cqe ≡ ok r' → Steady r r'
unfolding process_write
process_write-Steady r r' cqe e = elim (Res-cases cqe.res) [
  | inl (inl closed) ↦ subst (Steady r) (ok-inj (rw (closed, process_write) at e)) steady
  | inl (inr (n, failed)) ↦ elim (Option-cases (find (untag cqe.user_data) r.sockets)) [
    | inl gone ↦ let absurdity = rw (gone, process_write) at (rw (failed, process_write) at e) in cc
    | inr (s, found) ↦
        subst (Steady r) (ok-inj (rw (found, process_write) at (rw (failed, process_write) at e)))
          steady
  ]
  | inr (n, sent) ↦ subst (Steady r) (ok-inj (rw (sent, process_write) at e)) steady
]

process_other-Steady : (r r' : Runner) (cqe : Cqe) → process_other r cqe ≡ ok r' → Steady r r'
unfolding process_other process_close
process_other-Steady r r' cqe e = elim (Bool-cases (cqe.user_data == 0)) [
  | inl untagged ↦ subst (Steady r) (ok-inj (rw (untagged, process_other) at e)) steady
  | inr tagged ↦ elim (Option-cases (find (untag cqe.user_data) r.sockets)) [
    | inl gone ↦ let absurdity = rw (gone, process_other) at (rw (tagged, process_other) at e) in cc
    | inr (s, found) ↦
        let e1 = rw (found, process_other) at (rw (tagged, process_other) at e) in
        elim (Bool-cases s.closed) [
          | inl closing ↦
              subst (Steady r) (ok-inj (rw closing at e1))
                (record { config = refl; stopping = refl })
          | inr in_use ↦ subst (Steady r) (ok-inj (rw in_use at e1)) steady
        ]
  ]
]

pub process_cqe-Steady :
    (nonblock_accept : Bool) (payload : Memory → ℕ → Option (Memory × ℕ)) (r r' : Runner)
    (cqe : Cqe) (ptr : ℕ) (more : List (ℕ × ℕ))
    → process_cqe nonblock_accept payload r cqe ptr more ≡ ok r'
    → Steady r r'
unfolding process_cqe
process_cqe-Steady nonblock_accept payload r r' cqe ptr more e =
    elim (Bool-cases (get_tag cqe.user_data == k_accept)) [
      | inl is_accept ↦
          process_accept-Steady nonblock_accept r r' cqe ptr more (rw (is_accept, process_cqe) at e)
      | inr not_accept ↦
          let e1 = rw (not_accept, process_cqe) at e in
          elim (Bool-cases (get_tag cqe.user_data == k_read)) [
            | inl is_read ↦ process_read-Steady payload r r' cqe (rw is_read at e1)
            | inr not_read ↦
                let e2 = rw not_read at e1 in
                elim (Bool-cases (get_tag cqe.user_data == k_write)) [
                  | inl is_write ↦ process_write-Steady r r' cqe (rw is_write at e2)
                  | inr not_write ↦
                      let e3 = rw not_write at e2 in
                      elim (Bool-cases (get_tag cqe.user_data == k_other)) [
                        | inl is_other ↦ process_other-Steady r r' cqe (rw is_other at e3)
                        | inr not_other ↦ elim (Bool-cases (cqe.user_data == udata_timeout)) [
                          | inl timeout ↦
                              subst (Steady r) (ok-inj (rw timeout at (rw not_other at e3))) steady
                          | inr unknown ↦ let absurdity = rw unknown at (rw not_other at e3) in cc
                        ]
                      ]
                ]
          ]
    ]
