-- ===== src/Epoll/Socket.antt =====
-- `doRead` and `doWrite` on one socket.
use netbench.Base.{
  ℕ, zero, suc, ◌+◌, ◌-◌, ◌%◌, ◌^◌, ◌<◌, ◌≡◌, refl, none, some, List, [], ◌∷◌, arith, ltb, ap, sym,
  ◌∙◌, ◌++◌, ◌*◌, replicate, map, ◌==◌, min, inl, inr, Bool-cases, Option-cases, Bool, true, false,
}
use netbench.Protocol.{
  Memory, ProtocolParser, ConsumeResults, consume, SockInput, did_read, feed, add_results,
}
use netbench.Protocol.Total.{consume_total}
use netbench.Epoll.{
  EpollData, in_out, RecvReply, received, recv_again, recv_failed, SendReply, sent, send_again,
  send_failed, Totals, ReadResult, take_bytes, do_read, write_loop, update_interest, do_write,
}

-- How many bytes the replies take, up to the one that ends the loop.
abbrev pub taken : List SendReply → ℕ → ℕ
taken [] w = 0
taken (sent n ∷ replies) w = min w n + taken replies (w - min w n)
taken (send_again ∷ replies) w = 0
taken (send_failed ∷ replies) w = 0

-- No reply is an error.
abbrev pub AllSent : List SendReply → Type 0
AllSent [] = Unit
AllSent (sent n ∷ replies) = AllSent replies
AllSent (send_again ∷ replies) = AllSent replies
AllSent (send_failed ∷ replies) = ⊥

taken-zero : (replies : List SendReply) → taken replies 0 ≡ 0
taken-zero [] = refl
taken-zero (sent n ∷ replies) =
    let nothing : 0 - min 0 n ≡ 0 = omega arith in
    omega (arith, ap (taken replies) nothing, taken-zero replies)
taken-zero (send_again ∷ replies) = refl
taken-zero (send_failed ∷ replies) = refl

write_loop-taken :
    (replies : List SendReply) (w left : ℕ)
    → AllSent replies
    → w < 2 ^ 32
    → write_loop replies w ≡ some left
    → left + taken replies w ≡ w
unfolding write_loop
write_loop-taken [] w left a small e = ground arith
write_loop-taken (send_again ∷ replies) w left a small e = ground arith
write_loop-taken (send_failed ∷ replies) w left a small e = absurd a
write_loop-taken (sent n ∷ replies) w left a small e = elim (Bool-cases (w == 0)) [
  | inl z ↦
      let nothing : w - min w n ≡ 0 = ground arith in
      ground (arith, rw z at e, ap (taken replies) nothing, taken-zero replies)
  | inr more ↦
      let narrow : min (w % 2 ^ 32) n ≡ min w n = omega arith in
      let rest =
        write_loop-taken replies (w - min w n) left a (omega arith)
          (rw (narrow) at (rw more at e)) in
      omega (arith, rest)
]

-- The script ends the loop, if it has not ended before.
abbrev pub send_ends : List SendReply → Bool
send_ends [] = false
send_ends (sent n ∷ replies) = send_ends replies
send_ends (send_again ∷ replies) = true
send_ends (send_failed ∷ replies) = true

write_loop_total :
    (replies : List SendReply) (w : ℕ)
    → send_ends replies ≡ true
    → (left : ℕ) × (write_loop replies w ≡ some left)
unfolding write_loop
write_loop_total [] w h = absurd (ground arith)
write_loop_total (send_again ∷ replies) w h = (w, refl)
write_loop_total (send_failed ∷ replies) w h = (0, refl)
write_loop_total (sent n ∷ replies) w h = elim (Bool-cases (w == 0)) [
  | inl z ↦ (0, rw z)
  | inr more ↦ rw more (write_loop_total replies (w - min (w % 2 ^ 32) n) h)
]

-- `doWrite` returns, once the kernel blocks or fails.
pub do_write_total :
    (replies : List SendReply) (ed : EpollData)
    → send_ends replies ≡ true
    → (ed' : EpollData) × (do_write replies ed ≡ some ed')
unfolding do_write
do_write_total replies ed h =
    let (left, e) = write_loop_total replies ed.to_write h in
    (update_interest (record ed { to_write = left }), rw (e, do_write))

-- What is owed and what the kernel is asked to report agree.
pub record IsServed (ed : EpollData) : Type 0 where
  -- Who owes bytes is told when there is room for them.
  pub woken : 0 < ed.to_write → ed.write_in_epoll ≡ true
  pub told : ed.write_in_epoll ≡ true → ed.interest ≡ in_out

update_interest-kept : (ed : EpollData) → (update_interest ed).to_write ≡ ed.to_write
unfolding update_interest
update_interest-kept ed = ground arith

update_interest-IsServed :
    (ed : EpollData)
    → (ed.write_in_epoll ≡ true → ed.interest ≡ in_out)
    → IsServed (update_interest ed)
      × ((update_interest ed).to_write ≡ ed.to_write)
      × ((update_interest ed).write_in_epoll ≡ ltb 0 ed.to_write)
unfolding update_interest
update_interest-IsServed ed h = (
  record { woken = λ p. ground arith; told = λ q. ground (arith, h) },
  ground arith,
  ground arith,
)

do_write-left :
    (replies : List SendReply) (ed ed' : EpollData)
    → do_write replies ed ≡ some ed'
    → (left : ℕ) × (write_loop replies ed.to_write ≡ some left)
      × (ed' ≡ update_interest (record ed { to_write = left }))
unfolding do_write
do_write-left replies ed ed' e = elim (Option-cases (write_loop replies ed.to_write)) [
  | inl n ↦ let absurdity = rw (n, do_write) at e in cc
  | inr (left, s) ↦ (left, s, ground (arith, rw (s, do_write) at e))
]

-- If a socket that has `write_in_epoll` set is registered for `EPOLLOUT`, then after a `doWrite` that
-- returns the socket is served: it is registered for `EPOLLOUT` if bytes are owed, and `write_in_epoll`
-- is set exactly then.
pub do_write-IsServed :
    (replies : List SendReply) (ed ed' : EpollData)
    → (ed.write_in_epoll ≡ true → ed.interest ≡ in_out)
    → do_write replies ed ≡ some ed'
    → IsServed ed' × (ed'.write_in_epoll ≡ ltb 0 ed'.to_write)
do_write-IsServed replies ed ed' h e =
    let (left, s, same) = do_write-left replies ed ed' e in
    let (served, kept, flag) = update_interest-IsServed (record ed { to_write = left }) h in
    rw same (served, flag ∙ ap (ltb 0) (sym kept))

-- While fewer than 2 ^ 32 bytes are owed and no send fails, `doWrite` returns once the kernel blocks,
-- and what it leaves owed and what the kernel took make up what was owed.
pub do_write-conserves :
    (replies : List SendReply) (ed : EpollData)
    → AllSent replies
    → send_ends replies ≡ true
    → ed.to_write < 2 ^ 32
    → (ed' : EpollData) × (do_write replies ed ≡ some ed')
      × (ed'.to_write + taken replies ed.to_write ≡ ed.to_write)
unfolding do_write
do_write-conserves replies ed a h small =
    let (left, e) = write_loop_total replies ed.to_write h in
    let kept = (update_interest-kept (record ed { to_write = left })) in
    (
      update_interest (record ed { to_write = left }),
      rw (e, do_write),
      omega (arith, kept, write_loop-taken replies ed.to_write left a small e),
    )

-- A debt that is a multiple of 2 ^ 32 narrows to nothing: no `send` that takes bytes lowers it, and
-- the loop goes on for as long as the kernel takes them.
pub write_loop_stuck :
    (rounds n k : ℕ) → 0 < k → write_loop (replicate rounds (sent n)) (k * 2 ^ 32) ≡ none
unfolding write_loop
write_loop_stuck zero n k pos = ground arith
write_loop_stuck (suc rounds) n k pos =
    let same : k * 2 ^ 32 - min (k * 2 ^ 32 % 2 ^ 32) n ≡ k * 2 ^ 32 = omega arith in
    rw (same, write_loop) (rw (write_loop_stuck rounds n k pos) (ground arith))

take_bytes_lem :
    (ed : EpollData) (t : Totals) (b : Memory) (n : ℕ) (p : ProtocolParser) (c : ConsumeResults)
    → consume ed.parser b n ≡ some (p, c)
    → take_bytes ed t b n
      ≡ some (
        record ed { to_write = (ed.to_write + c.to_write) % 2 ^ 64; parser = p },
        record {
          bytes_rx = (t.bytes_rx + n) % 2 ^ 64;
          requests_rx = (t.requests_rx + c.count) % 2 ^ 64;
        },
      )
unfolding take_bytes
take_bytes_lem ed t b n p c e = rw (e, take_bytes)

take_bytes_total :
    (ed : EpollData) (t : Totals) (b : Memory) (n : ℕ)
    → (x : EpollData × Totals) × (take_bytes ed t b n ≡ some x)
take_bytes_total ed t b n =
    let ((p, c), e) = consume_total ed.parser b n in (_, take_bytes_lem ed t b n p c e)

-- `doRead` returns for every sequence of receives, once the kernel has no more bytes.
pub do_read_total :
    (size : ℕ) (replies : List RecvReply) (ed : EpollData) (t : Totals)
    → (r : ReadResult) × (do_read size (replies ++ (recv_again ∷ [])) ed t ≡ some r)
unfolding do_read
do_read_total size [] ed t = (_, refl)
do_read_total size (recv_again ∷ replies) ed t = (_, refl)
do_read_total size (recv_failed ∷ replies) ed t = (_, refl)
do_read_total size (received b n ∷ replies) ed t =
    let (x, e) = take_bytes_total ed t b n in
    elim (Bool-cases (n == 0)) [
      | inl z ↦ (record { alive = false; socket = ed; totals = t }, rw z)
      | inr more ↦ rw more (elim (Bool-cases (n == size)) [
        | inr c ↦
            (record { alive = true; socket = x.0; totals = x.1 }, rw (e, do_read) (rw (c, do_read)))
        | inl c ↦
            let (r, e') = do_read_total size replies x.0 x.1 in
            (r, rw (e, do_read) (rw (c, do_read) e'))
      ])
    ]

do_read_full :
    (size : ℕ) (b : Memory) (replies : List RecvReply) (ed ed' : EpollData) (t t' : Totals)
    → 0 < size
    → take_bytes ed t b size ≡ some (ed', t')
    → do_read size (received b size ∷ replies) ed t ≡ do_read size replies ed' t'
unfolding do_read
do_read_full size b replies ed ed' t t' pos e =
    let some_bytes : (size == 0) ≡ false = ground arith in
    let full : (size == size) ≡ true = ground arith in
    rw (some_bytes, e, do_read) (rw (full, do_read))

abbrev count_bytes : Totals → ℕ → ConsumeResults → Totals
count_bytes t n c = record {
  bytes_rx = (t.bytes_rx + n) % 2 ^ 64;
  requests_rx = (t.requests_rx + c.count) % 2 ^ 64;
}

-- `doRead` on a run of full buffers of at least one byte, after which the kernel blocks, leaves the
-- socket alive, with the parser and the debt that the io_uring engine's `didRead` leaves for the same
-- pieces, where that comes to its end.
pub do_read-feed :
    (size c : ℕ) (pieces : List Memory) (ed : EpollData) (t : Totals) (s : SockInput)
    → 0 < size
    → feed
        (record { parser = ed.parser; do_send = record { to_write = ed.to_write; count = c } })
        (map (λ b. (b, size)) pieces)
      ≡ some s
    → (r : ReadResult) × (do_read size (map (λ b. received b size) pieces ++ (recv_again ∷ [])) ed t
        ≡ some r)
      × (r.alive ≡ true)
      × (r.socket.parser ≡ s.parser)
      × (r.socket.to_write ≡ s.do_send.to_write)
unfolding do_read feed did_read add_results
do_read-feed size c [] ed t s pos e = (_, refl, refl, ground (arith, e), ground (arith, e))
do_read-feed size c (b ∷ pieces) ed t s pos e =
    let ((p, results), e') = consume_total ed.parser b size in
    let ed' : EpollData = record ed {
      to_write = (ed.to_write + results.to_write) % 2 ^ 64;
      parser = p;
    } in
    let t' : Totals = count_bytes t size results in
    let (r, found, alive, parser, debt) =
      do_read-feed size ((c + results.count) % 2 ^ 32) pieces ed' t' s pos (rw (e', feed) at e) in
    (
      r,
      do_read_full size b (map (λ b. received b size) pieces ++ (recv_again ∷ [])) ed ed' t t' pos
            (take_bytes_lem ed t b size p results e')
          ∙ found,
      alive,
      parser,
      debt,
    )
