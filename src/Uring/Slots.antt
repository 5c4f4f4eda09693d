-- ===== src/Uring/Slots.antt =====
-- A completed read, and the slots of the fixed file table.
use netbench.Base.{
  ℕ, zero, suc, ◌+◌, ◌%◌, ◌^◌, ◌≡◌, refl, ap, sym, ◌∙◌, Option, none, some, arith, ltb, Bool, true,
  not, ◌&&◌, ◌||◌, inl, inr, ◌⊎◌, Bool-cases, Option-cases,
}
use netbench.Base.Results.{Result, ok, bind-ok, ok-inj}
use netbench.Base.Assoc.{find, put, total-put}
use netbench.Protocol.{Memory, did_read}
use netbench.Uring.{
  Config, Res, success, failure, Cqe, Sock, untag, DidRead, sock_did_read, parse_bytes,
  read_message,
}
use netbench.Uring.Runner.{
  Runner, push_sqe, arm_read, is_enobufs, recycle, answer, read_some, read_end, process_read,
}
use netbench.Uring.Places.{
  is_slot, held, SameSocks, recycle-SameSocks, SameSocks-held, arm_read-SameSocks, answer-SameSocks,
}

-- The socket at a pointer gives way to one with its descriptor.
put_sock-held :
    (i : ℕ) (r : Runner) (ptr rx : ℕ) (s old : Sock)
    → find ptr r.sockets ≡ some old
    → s.fd ≡ old.fd
    → held i (record r { bytes_rx = rx; sockets = put ptr s r.sockets }) ≡ held i r
put_sock-held i r ptr rx s old found same =
    omega (arith, total-put (λ s. is_slot i s.fd) ptr s old r.sockets found, ap (is_slot i) same)

read_some-held :
    (i : ℕ) (r : Runner) (ptr : ℕ) (s old : Sock) (amount : ℕ) (more : Bool)
    → find ptr r.sockets ≡ some old
    → s.fd ≡ old.fd
    → (held i (read_some r ptr s amount more) ≡ held i r)
      × ((read_some r ptr s amount more).socks ≡ r.socks)
unfolding read_some
read_some-held i r ptr s old amount more found same =
    elim (Bool-cases (not (answer r ptr s).0.config.multishot_recv || not more)) [
      | inl again ↦ rw again (
        SameSocks-held i r2 (arm_read r2 ptr s1) (arm_read-SameSocks r2 ptr s1) ∙ kept,
        (arm_read-SameSocks r2 ptr s1).socks ∙ answered.0.socks,
      )
      | inr armed ↦ rw armed (kept, answered.0.socks)
    ]
  where
    answered : SameSocks r (answer r ptr s).0 × ((answer r ptr s).1.fd ≡ s.fd)
    answered = answer-SameSocks r ptr s

    r1 : Runner
    r1 = (answer r ptr s).0

    s1 : Sock
    s1 = (answer r ptr s).1

    r2 : Runner
    r2 = record r1 { bytes_rx = (r1.bytes_rx + amount) % 2 ^ 64; sockets = put ptr s1 r1.sockets }

    kept : held i r2 ≡ held i r
    kept =
        put_sock-held i r1 ptr ((r1.bytes_rx + amount) % 2 ^ 64) s1 old
          (ap (find ptr) answered.0.sockets ∙ found) (answered.1 ∙ same)
        ∙ SameSocks-held i r r1 answered.0

read_end-held :
    (i : ℕ) (r r' : Runner) (res : Res) (ptr : ℕ) (s old : Sock)
    → r.config.fixed_files ≡ true
    → find ptr r.sockets ≡ some old
    → s.fd ≡ old.fd
    → read_end r res ptr s ≡ ok r'
    → (held i r' ≡ held i r) × (r'.socks ≡ r.socks)
unfolding read_end push_sqe
read_end-held i r r' res ptr s old fixed found same e = elim (Bool-cases (is_enobufs res)) [
  | inl starved ↦ let absurdity = rw (starved, read_end) at e in cc
  | inr other ↦
      let done = ok-inj (rw (fixed, read_end) at (rw (other, read_end) at e)) in
      (
        sym (ap (held i) done)
            ∙ put_sock-held i r ptr r.bytes_rx (record s { closed = true }) old found same,
        sym (ap (λ r. r.socks) done),
      )
]

parse_bytes-fd :
    (s : Sock) (b : Memory) (n : ℕ) (o : Option ℕ) (res : DidRead)
    → parse_bytes s b n o ≡ ok res
    → res.sock.fd ≡ s.fd
unfolding parse_bytes
parse_bytes-fd s b n o res e = elim (Option-cases (did_read s.input b n)) [
  | inl stuck ↦ let absurdity = rw (stuck, parse_bytes) at e in cc
  | inr (input, parsed) ↦ sym (ap (λ r. r.sock.fd) (ok-inj (rw (parsed, parse_bytes) at e)))
]

-- A result is a positive number, or not.
pub Res-cases :
    (res : Res)
    → ((res ≡ success 0) ⊎ ((e : ℕ) × (res ≡ failure e))) ⊎ ((n : ℕ) × (res ≡ success (suc n)))
Res-cases (failure e) = inl (inr (e, refl))
Res-cases (success zero) = inl (inl refl)
Res-cases (success (suc n)) = inr (n, refl)

nothing_read :
    (c : Config) (payload : Memory → ℕ → Option (Memory × ℕ)) (s : Sock) (cqe : Cqe) (res : DidRead)
    → (cqe.res ≡ success 0) ⊎ ((e : ℕ) × (cqe.res ≡ failure e))
    → sock_did_read c payload s cqe ≡ ok res
    → ◌≡◌ {A = Result DidRead} (ok (record { amount = 0; recycle = none; sock = s })) (ok res)
unfolding sock_did_read
nothing_read c payload s cqe res (inl closed) e = rw (closed, sock_did_read) at e
nothing_read c payload s cqe res (inr (n, failed)) e = rw (failed, sock_did_read) at e

read_message-fd :
    (payload : Memory → ℕ → Option (Memory × ℕ)) (s : Sock) (cqe : Cqe) (n : ℕ) (res : DidRead)
    → read_message payload s cqe n ≡ ok res
    → res.sock.fd ≡ s.fd
unfolding read_message
read_message-fd payload s cqe n res e = elim (Option-cases cqe.buffer) [
  | inl no_buffer ↦ let absurdity = rw (no_buffer, read_message) at e in cc
  | inr (i, chosen) ↦ elim (Option-cases (payload cqe.bytes n)) [
    | inl invalid ↦ sym (
        ap (λ r. r.sock.fd)
          (ok-inj (rw (invalid, read_message) at (rw (chosen, read_message) at e))))
    | inr ((b, len), valid) ↦
        parse_bytes-fd s b len (some i) res
          (rw (valid, read_message) at (rw (chosen, read_message) at e))
  ]
]

-- A read leaves the descriptor of its socket.
did_read-fd :
    (c : Config) (payload : Memory → ℕ → Option (Memory × ℕ)) (s : Sock) (cqe : Cqe) (res : DidRead)
    → sock_did_read c payload s cqe ≡ ok res
    → res.sock.fd ≡ s.fd
unfolding sock_did_read
did_read-fd c payload s cqe res e = elim (Res-cases cqe.res) [
  | inl nothing ↦ sym (ap (λ r. r.sock.fd) (ok-inj (nothing_read c payload s cqe res nothing e)))
  | inr (n, some_bytes) ↦ elim (Bool-cases (ltb 0 c.buffer_version)) [
    | inr own ↦
        parse_bytes-fd s cqe.bytes (suc n) none res
          (rw (own, sock_did_read) at (rw (some_bytes, sock_did_read) at e))
    | inl provided ↦ elim (Bool-cases (c.multishot_recv && c.recvmsg)) [
      | inr plain ↦ parse_bytes-fd s cqe.bytes (suc n) cqe.buffer res (
          rw (plain, sock_did_read) at
            (rw (provided, sock_did_read) at (rw (some_bytes, sock_did_read) at e)))
      | inl message ↦ read_message-fd payload s cqe (suc n) res (
          rw (message, sock_did_read) at
            (rw (provided, sock_did_read) at (rw (some_bytes, sock_did_read) at e)))
    ]
  ]
]

-- With fixed files, a completed read leaves every slot where it was, and the number of sockets too.
pub process_read-held :
    (i : ℕ) (payload : Memory → ℕ → Option (Memory × ℕ)) (r r' : Runner) (cqe : Cqe)
    → r.config.fixed_files ≡ true
    → process_read payload r cqe ≡ ok r'
    → (held i r' ≡ held i r) × (r'.socks ≡ r.socks)
unfolding process_read
process_read-held i payload r r' cqe fixed e =
    elim (Option-cases (find (untag cqe.user_data) r.sockets)) [
      | inl gone ↦ let absurdity = rw (gone, process_read) at e in cc
      | inr (s, found) ↦
          let (res, parsed, rest) =
            bind-ok (sock_did_read r.config payload s cqe) _ (rw (found, process_read) at e) in
          let recycled = recycle-SameSocks r res.recycle in
          let r1 = recycle r res.recycle in
          let found1 : find (untag cqe.user_data) r1.sockets ≡ some s =
            ap (find (untag cqe.user_data)) recycled.sockets ∙ found in
          let fd = did_read-fd r.config payload s cqe res parsed in
          elim (Bool-cases (ltb 0 res.amount)) [
            | inl bytes ↦
                let done = ok-inj (rw bytes at rest) in
                let (kept, count) =
                  read_some-held i r1 (untag cqe.user_data) res.sock s res.amount cqe.more found1
                    fd in
                (
                  sym (ap (held i) done) ∙ kept ∙ SameSocks-held i r r1 recycled,
                  sym (ap (λ r. r.socks) done) ∙ count ∙ recycled.socks,
                )
            | inr ended ↦
                let (kept, count) =
                  read_end-held i r1 r' cqe.res (untag cqe.user_data) res.sock s
                    (ap (λ c. c.fixed_files) recycled.config ∙ fixed) found1 fd
                    (rw ended at rest) in
                (kept ∙ SameSocks-held i r r1 recycled, count ∙ recycled.socks)
          ]
    ]
