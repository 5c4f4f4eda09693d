-- ===== src/Uring/Provide.antt =====
-- `provideBuffers`: what the kernel is handed, and what is left.
use netbench.Base.{
  ℕ, ◌-◌, ◌^◌, ◌<◌, ◌≡◌, refl, ap, List, [], ◌∷◌, arith, length, true, false, if◌then◌else◌, some,
  inl, inr, Bool-cases,
}
use netbench.Buffers.Ranges.{Range, Provider}
use netbench.Buffers.Ranges
use netbench.Buffers.Ranges.Indices.{occurs, total, IsCounted, compact-occurs}
use netbench.Uring.{Sqe}
use netbench.Uring.Runner.{Runner, ranges, provide_sqe, provide_all, provide_buffers}

-- A submission queue after one `io_uring_prep_provide_buffers` for each range, the first one first.
abbrev pub handed_over : List Range → List Sqe → List Sqe
handed_over [] sqes = sqes
handed_over (g ∷ gs) sqes = handed_over gs (provide_sqe g ∷ sqes)

provide_back :
    (g : Range) (gs : List Range) (p : Provider)
    → p.to_provide ≡ g ∷ gs
    → Ranges.provide p
      ≡ some (g, record p { to_provide_count = p.to_provide_count - g.count; to_provide = gs })
unfolding Ranges.provide
provide_back g gs p same = rw same refl

provide_all-empties :
    (gs : List Range) (p : Provider) (sqes : List Sqe)
    → p.to_provide ≡ gs
    → IsCounted p
    → ((provide_all (length gs) p sqes).0.to_provide ≡ [])
      × ((provide_all (length gs) p sqes).0.to_provide_count ≡ 0)
      × ((provide_all (length gs) p sqes).1 ≡ handed_over gs sqes)
unfolding provide_all
provide_all-empties [] p sqes same v = (same, omega (arith, v.counted, ap total same), refl)
provide_all-empties (g ∷ gs) p sqes same v =
    rw (provided, provide_all) (provide_all-empties gs q (provide_sqe g ∷ sqes) refl counted)
  where
    q : Provider
    q = record p { to_provide_count = p.to_provide_count - g.count; to_provide = gs }

    counted : IsCounted q
    counted = record { counted = omega (arith, v.counted, ap total same) }

    provided : Ranges.provide p ≡ some (g, q)
    provided = provide_back g gs p same

-- What the call hands over: the ranges, compacted where the configuration says so.
abbrev pub offered : Runner → Provider → Provider
offered r p = if r.config.provided_buffer_compact then Ranges.compact p else p

-- For a range provider whose count is right, is above the low watermark, and whose indices together fit
-- 16 bits, `provideBuffers` gives the kernel every range that the provider has, one submission each:
-- every buffer index that was waiting is in exactly as many of these ranges as before, none is left,
-- and the count is 0.
pub provide_buffers-drains :
    (r : Runner) (p : Provider)
    → r.buffers ≡ ranges p
    → IsCounted p
    → total p.to_provide < 2 ^ 16
    → Ranges.needs_to_provide p ≡ true
    → (q : Provider) × (gs : List Range) × ((provide_buffers false r).buffers ≡ ranges q)
      × (q.to_provide ≡ [])
      × (q.to_provide_count ≡ 0)
      × ((provide_buffers false r).sqes ≡ handed_over gs r.sqes)
      × ((a : ℕ) → occurs a gs ≡ occurs a p.to_provide)
unfolding provide_buffers
provide_buffers-drains r p is_ranges v small needed =
    rw is_ranges
      (rw needed (_, (offered r p).to_provide, refl, emptied.0, emptied.1, emptied.2, same.0))
  where
    same :
        ((a : ℕ) → occurs a (offered r p).to_provide ≡ occurs a p.to_provide)
        × IsCounted (offered r p)
    same = elim (Bool-cases r.config.provided_buffer_compact) [
      | inl asked ↦ rw asked (let (kept, _, counted) = compact-occurs p v small in (kept, counted))
      | inr plain ↦ rw plain (λ a. refl, v)
    ]

    emptied :
        ((provide_all (length (offered r p).to_provide) (offered r p) r.sqes).0.to_provide ≡ [])
        × ((provide_all (length (offered r p).to_provide) (offered r p) r.sqes).0.to_provide_count
            ≡ 0)
        × ((provide_all (length (offered r p).to_provide) (offered r p) r.sqes).1
            ≡ handed_over (offered r p).to_provide r.sqes)
    emptied = provide_all-empties (offered r p).to_provide (offered r p) r.sqes refl same.1
