-- ===== src/Sender/Segments.antt =====
-- What `Sender::queueSend` hands to the kernel.
use netbench.Base.{ℕ, ◌+◌, ◌-◌, ◌^◌, ◌<◌, ◌≤◌, ◌≡◌, List, [], ◌∷◌, arith, leb, if◌then◌else◌}
use netbench.Sender.{Connection, segments, start_send}

abbrev pub sum : List ℕ → ℕ
sum [] = 0
sum (n ∷ more) = n + sum more

-- For a request whose body of `length` bytes fits with the prelude into 32 bits, and a message that
-- begins `o` bytes after its start with 8 or more left: the message is as long as what is left if it
-- begins more than 8 bytes after the start, and falls `o` bytes short if it begins at most 8 after it,
-- so also where the prelude has just been sent (8 short).
pub segments-sum :
    (c : Connection) (length o : ℕ)
    → length + 8 < 2 ^ 32
    → o ≤ length
    → sum (segments (record (start_send c length) { remaining = length + 8 - o }))
        + (if leb o 8 then o else 0)
      ≡ length + 8 - o
unfolding segments start_send
segments-sum c length o small within = ground arith
