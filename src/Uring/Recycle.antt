-- ===== src/Uring/Recycle.antt =====
-- What a completed read does to the buffers, and what a failed write finds after a read has deleted
-- its socket.
use netbench.Base.{
  ℕ, zero, suc, ◌≡◌, refl, ap, sym, ◌∙◌, Option, some, none, arith, ltb, Bool, false, not, ◌&&◌,
  ◌||◌, inl, inr, ◌⊎◌, Bool-cases, Option-cases,
}
use netbench.Base.Results.{ok, err, fault, bind-ok, ok-inj}
use netbench.Base.Assoc.{find, erase}
use netbench.Protocol.{Memory, did_read}
use netbench.Uring.{
  Config, Res, success, failure, Cqe, Sock, untag, DidRead, sock_did_read, read_message,
  parse_bytes,
}
use netbench.Uring.Runner.{
  Runner, push_sqe, arm_read, recycle, answer, read_some, read_end, is_enobufs, process_read,
  process_write,
}
use netbench.Uring.Slots.{Res-cases}

module _ (payload : Memory → ℕ → Option (Memory × ℕ)) where
  parse_bytes-recycle :
      (s : Sock) (b : Memory) (n : ℕ) (o : Option ℕ) (res : DidRead)
      → parse_bytes s b n o ≡ ok res
      → res.recycle ≡ o
  unfolding parse_bytes
  parse_bytes-recycle s b n o res e = elim (Option-cases (did_read s.input b n)) [
    | inl stuck ↦ let absurdity = rw (stuck, parse_bytes) at e in cc
    | inr (input, parsed) ↦ sym (ap (λ r. r.recycle) (ok-inj (rw (parsed, parse_bytes) at e)))
  ]

  read_message-recycle :
      (s : Sock) (cqe : Cqe) (n : ℕ) (res : DidRead)
      → read_message payload s cqe n ≡ ok res
      → res.recycle ≡ cqe.buffer
  unfolding read_message
  read_message-recycle s cqe n res e = elim (Option-cases cqe.buffer) [
    | inl no_buffer ↦ let absurdity = rw (no_buffer, read_message) at e in cc
    | inr (i, chosen) ↦ elim (Option-cases (payload cqe.bytes n)) [
      | inl invalid ↦
          sym (
            ap (λ r. r.recycle)
              (ok-inj (rw (invalid, read_message) at (rw (chosen, read_message) at e))))
          ∙ sym chosen
      | inr ((b, len), valid) ↦
          parse_bytes-recycle s b len (some i) res
            (rw (valid, read_message) at (rw (chosen, read_message) at e))
          ∙ sym chosen
    ]
  ]

  -- A read gives back the buffer that the completion names, or none.
  did_read-recycle :
      (c : Config) (s : Sock) (cqe : Cqe) (res : DidRead)
      → sock_did_read c payload s cqe ≡ ok res
      → (res.recycle ≡ none) ⊎ (res.recycle ≡ cqe.buffer)
  unfolding sock_did_read
  did_read-recycle c s cqe res e = elim (Res-cases cqe.res) [
    | inl (inl closed) ↦ inl (sym (ap (λ r. r.recycle) (ok-inj (rw (closed, sock_did_read) at e))))
    | inl (inr (n, failed)) ↦
        inl (sym (ap (λ r. r.recycle) (ok-inj (rw (failed, sock_did_read) at e))))
    | inr (n, some_bytes) ↦
        let e1 = rw (some_bytes, sock_did_read) at e in
        elim (Bool-cases (ltb 0 c.buffer_version)) [
          | inr own ↦ inl (parse_bytes-recycle s cqe.bytes (suc n) none res (rw own at e1))
          | inl provided ↦ elim (Bool-cases (c.multishot_recv && c.recvmsg)) [
            | inr plain ↦ inr (
                parse_bytes-recycle s cqe.bytes (suc n) cqe.buffer res
                  (rw plain at (rw provided at e1)))
            | inl message ↦
                inr (read_message-recycle s cqe (suc n) res (rw message at (rw provided at e1)))
          ]
        ]
  ]

  read_some-buffers :
      (r : Runner) (ptr : ℕ) (s : Sock) (amount : ℕ) (more : Bool)
      → (read_some r ptr s amount more).buffers ≡ r.buffers
  unfolding read_some answer arm_read push_sqe
  read_some-buffers r ptr s amount more = elim (Bool-cases (ltb 0 s.input.do_send.to_write)) [
    | inl owed ↦ elim (Bool-cases (not r.config.multishot_recv || not more)) [
      | inl again ↦ rw owed (rw again refl)
      | inr armed ↦ rw owed (rw armed refl)
    ]
    | inr none_owed ↦ elim (Bool-cases (not r.config.multishot_recv || not more)) [
      | inl again ↦ rw none_owed (rw again refl)
      | inr armed ↦ rw none_owed (rw armed refl)
    ]
  ]

  read_end-buffers :
      (r r' : Runner) (res : Res) (ptr : ℕ) (s : Sock)
      → read_end r res ptr s ≡ ok r'
      → r'.buffers ≡ r.buffers
  unfolding read_end push_sqe
  read_end-buffers r r' res ptr s e = elim (Bool-cases (is_enobufs res)) [
    | inl starved ↦ let absurdity = rw (starved, read_end) at e in cc
    | inr other ↦
        let e1 = rw (other, read_end) at e in
        elim (Bool-cases r.config.fixed_files) [
          | inl fixed ↦ sym (ap (λ r. r.buffers) (ok-inj (rw fixed at e1)))
          | inr plain ↦ sym (ap (λ r. r.buffers) (ok-inj (rw plain at e1)))
        ]
  ]

  recycle_nothing : (r : Runner) (o : Option ℕ) → (o ≡ none) ⊎ (o ≡ some zero) → recycle r o ≡ r
  unfolding recycle
  recycle_nothing r o (inl e) = rw e refl
  recycle_nothing r o (inr e) = rw e refl

  -- A completed read of the buffer with index 0 leaves the buffer provider as it was: that buffer is
  -- not given back, since `processRead` tests for an index above 0.
  pub process_read_keeps_zero :
      (r r' : Runner) (cqe : Cqe)
      → cqe.buffer ≡ some zero
      → process_read payload r cqe ≡ ok r'
      → r'.buffers ≡ r.buffers
  unfolding process_read
  process_read_keeps_zero r r' cqe first e =
      elim (Option-cases (find (untag cqe.user_data) r.sockets)) [
        | inl gone ↦ let absurdity = rw (gone, process_read) at e in cc
        | inr (s, found) ↦
            let (res, parsed, rest) =
              bind-ok (sock_did_read r.config payload s cqe) _ (rw (found, process_read) at e) in
            let index : (res.recycle ≡ none) ⊎ (res.recycle ≡ some zero) =
              ground (arith, first, did_read-recycle r.config s cqe res parsed) in
            let rest1 = rw (recycle_nothing r res.recycle index) at rest in
            elim (Bool-cases (ltb 0 res.amount)) [
              | inl bytes ↦
                  let same : read_some r (untag cqe.user_data) res.sock res.amount cqe.more ≡ r' =
                    ok-inj (rw bytes at rest1) in
                  sym (ap (λ r. r.buffers) same)
                  ∙ read_some-buffers r (untag cqe.user_data) res.sock res.amount cqe.more
              | inr ended ↦
                  read_end-buffers r r' cqe.res (untag cqe.user_data) res.sock (rw ended at rest1)
            ]
      ]

  -- Without fixed files and with each socket once in the heap, once the end of a connection is read its
  -- socket is deleted, and the completion of a write to it that failed then looks at a socket that is
  -- not there.
  pub process_write_after_end :
      (r r' : Runner) (cqe write_cqe : Cqe) (e : ℕ)
      → r.config.fixed_files ≡ false
      → cqe.res ≡ success 0
      → find (untag cqe.user_data) (erase (untag cqe.user_data) r.sockets) ≡ none
      → untag write_cqe.user_data ≡ untag cqe.user_data
      → write_cqe.res ≡ failure e
      → process_read payload r cqe ≡ ok r'
      → process_write r' write_cqe ≡ err fault
  unfolding process_read process_write sock_did_read read_end recycle is_enobufs
  process_write_after_end r r' cqe write_cqe e plain ended once same failed done =
      elim (Option-cases (find (untag cqe.user_data) r.sockets)) [
        | inl gone ↦ let absurdity = rw (gone, process_read) at done in cc
        | inr (s, found) ↦
            let done1 = rw (plain) at (
              rw (ended, sock_did_read, read_end, is_enobufs) at
                (rw (found, process_read) at done)) in
            let deleted : find (untag write_cqe.user_data) r'.sockets ≡ none =
              rw same
                (sym (ap (λ r. find (untag cqe.user_data) r.sockets) (ok-inj done1)) ∙ once) in
            rw (failed, process_write) (rw (deleted, process_write) refl)
      ]
