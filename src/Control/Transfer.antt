-- ===== src/Control/Transfer.antt =====
-- The bytes on their way: the sending loop of the server and the receiving loop of the client.
use mathlib.Core.List.{append_assoc, append-nil}
use netbench.Base.{
  ℕ, zero, suc, ◌+◌, ◌-◌, ◌^◌, ◌<◌, ◌≤◌, ◌≡◌, refl, none, List, [], ◌∷◌, ◌++◌, arith, ltb, lt→ltb,
  length, take, drop, length-drop, ap, ◌∙◌, sym, inl, inr, Bool-cases, if◌then◌else◌, ◌==◌,
  replicate, take-append-drop,
}
use netbench.Control.{Bytes, SendReply, sent, failed, eintr, to_int, send_loop, serve, got, receive}

to_int-small : (n : ℕ) → n < 2 ^ 31 → to_int n ≡ n
unfolding to_int
to_int-small n h = ground arith

to_int-large : (n : ℕ) → 2 ^ 31 ≤ n → n < 2 ^ 32 → to_int n ≡ 0
unfolding to_int
to_int-large n h small = ground arith

-- What the kernel took and what is left make up what there was, whatever it replied.
send_loop_split :
    (replies : List SendReply) (togo : ℕ) (at : Bytes)
    → (send_loop replies togo at).0 ++ (send_loop replies togo at).1 ≡ at
unfolding send_loop
send_loop_split [] togo at = refl
send_loop_split (sent n ∷ replies) togo at = elim (Bool-cases (ltb 0 togo)) [
  | inr e ↦ rw e
  | inl e ↦ rw e (elim (Bool-cases (ltb 0 n)) [
    | inr z ↦ rw z
    | inl pos ↦ rw pos (
        append_assoc (take n at) _ _
        ∙ ap (◌++◌ (take n at)) (send_loop_split replies (togo - n) (drop n at))
        ∙ take-append-drop n at)
  ])
]
send_loop_split (failed errno ∷ replies) togo at = elim (Bool-cases (ltb 0 togo)) [
  | inr e ↦ rw e
  | inl e ↦ rw e (elim (Bool-cases (errno + eintr == 0)) [
    | inr z ↦ rw z
    | inl again ↦ rw again (send_loop_split replies togo at)
  ])
]

-- Each reply takes at least one byte.
abbrev pub Progress : List SendReply → Type 0
Progress [] = Unit
Progress (sent n ∷ replies) = (0 < n) × Progress replies
Progress (failed errno ∷ replies) = ⊥

send_loop_rest :
    (replies : List SendReply) (togo : ℕ) (at : Bytes)
    → Progress replies
    → togo ≡ length at
    → togo ≤ length replies
    → (send_loop replies togo at).1 ≡ []
unfolding send_loop
send_loop_rest [] togo [] p all h = refl
send_loop_rest [] togo (b ∷ at) p all h = absurd (omega (arith, all, h))
send_loop_rest (failed errno ∷ replies) togo at p all h = absurd p
send_loop_rest (sent n ∷ replies) togo [] p all h = rw all refl
send_loop_rest (sent n ∷ replies) togo (b ∷ at) p all h =
    rw (lt→ltb 0 n p.0, lt→ltb 0 togo (omega (arith, all)))
      (send_loop_rest replies (togo - n) (drop n (b ∷ at)) p.1
        (omega (arith, all, length-drop n (b ∷ at))) (omega (arith, h, p.0)))

serve_short :
    (replies : List SendReply) (data_bytes : Bytes)
    → length data_bytes < 2 ^ 31
    → Progress replies
    → length data_bytes ≤ length replies
    → serve replies data_bytes ≡ (data_bytes, [])
unfolding serve
serve_short replies data_bytes small p h =
    let n = to_int-small (length data_bytes) small in
    let empty = send_loop_rest replies (to_int (length data_bytes)) data_bytes p n (rw n h) in
    let split = send_loop_split replies (to_int (length data_bytes)) data_bytes in
    let whole = sym (append-nil _) ∙ sym (ap (◌++◌ _) empty) ∙ split in λ i. (whole i, empty i)

send_loop-nothing : (replies : List SendReply) (at : Bytes) → send_loop replies 0 at ≡ ([], at)
unfolding send_loop
send_loop-nothing [] at = refl
send_loop-nothing (sent n ∷ replies) at = refl
send_loop-nothing (failed errno ∷ replies) at = refl

serve_long :
    (replies : List SendReply) (data_bytes : Bytes)
    → 2 ^ 31 ≤ length data_bytes
    → length data_bytes < 2 ^ 32
    → serve replies data_bytes ≡ ([], data_bytes)
unfolding serve
serve_long replies data_bytes large fits =
    rw (to_int-large (length data_bytes) large fits) (send_loop-nothing replies data_bytes)

-- If every `send` takes at least one byte, and there are replies for as many calls as there are bytes, the
-- server sends all of its data, in order, if it has fewer than 2^31 bytes. If it has as many or more, and fewer than 2^32, the server sends nothing.
pub serve_all :
    (replies : List SendReply) (data_bytes : Bytes)
    → length data_bytes < 2 ^ 32
    → Progress replies
    → length data_bytes ≤ length replies
    → serve replies data_bytes
      ≡ (if ltb (length data_bytes) (2 ^ 31) then (data_bytes, []) else ([], data_bytes))
serve_all replies data_bytes fits p h = elim (Bool-cases (ltb (length data_bytes) (2 ^ 31))) [
  | inl small ↦ rw small (serve_short replies data_bytes (ground (arith, small)) p h)
  | inr large ↦ rw large (serve_long replies data_bytes (ground (arith, large)) fits)
]

-- An interrupted `send` is not tried again, though the loop means to: `errno` is never `-EINTR`. Any
-- failure ends the transfer, with the rest unsent.
pub serve_gives_up :
    (errno : ℕ) (replies : List SendReply) (data_bytes : Bytes)
    → serve (failed errno ∷ replies) data_bytes ≡ ([], data_bytes)
unfolding serve send_loop
serve_gives_up errno replies data_bytes = ground arith

abbrev pub concat : List Bytes → Bytes
concat [] = []
concat (p ∷ ps) = p ++ concat ps

abbrev pub NonEmpty : List Bytes → Type 0
NonEmpty [] = Unit
NonEmpty (p ∷ ps) = (0 < length p) × NonEmpty ps

-- The peer has closed the connection: every further `recv` gives no byte. The receiving loop does not
-- notice, and never ends.
pub receive_closed :
    (n size : ℕ) (body : Bytes) → 0 < size → receive (replicate n (got [])) size body ≡ none
unfolding receive
receive_closed zero (suc size) body h = refl
receive_closed (suc n) (suc size) body h =
    let same : suc size - 0 ≡ suc size = omega arith in
    rw (same, receive) (receive_closed n (suc size) (body ++ []) h)
receive_closed n zero body h = absurd (omega arith)
