-- ===== src/Launch/Ports.antt =====
-- `pickPort` of netbench.cpp. `start` is the static `startPort`; whether a socket can be bound to a
-- port is a parameter.
use netbench.Base.{
  ℕ, zero, suc, ◌+◌, ◌%◌, ◌^◌, ◌<◌, ◌≡◌, refl, ap, sym, ◌∙◌, List, [], ◌∷◌, arith, Bool, true,
  false, if◌then◌else◌, inl, inr, ◌⊎◌, Bool-cases,
}
use netbench.Base.Results.{Result, ok, err, died, ◌>>=◌}

module _ (free : ℕ → Bool) where
  -- The loop, with `tries` rounds to go: the port, and the new `startPort`.
  unfoldable pub try_ports : ℕ → ℕ → Result (ℕ × ℕ)
  try_ports zero start = err died
  try_ports (suc tries) start =
      let rest = try_ports tries ((start + 1) % 2 ^ 16) in
      if free start then ok (start, (start + 1) % 2 ^ 16) else rest

  -- `pickPort`
  unfoldable pub pick_port : List ℕ → ℕ → Result (ℕ × ℕ)
  unfolding try_ports
  pick_port [] start = try_ports 1000 start
  pick_port (p ∷ use_port) start = ok (start, (start + 1) % 2 ^ 16)

  -- One call for each of `n` receivers.
  unfoldable pub pick_ports : ℕ → List ℕ → ℕ → Result (List ℕ)
  unfolding pick_port
  pick_ports zero use_port start = ok []
  pick_ports (suc n) use_port start = pick_port use_port start >>= λ picked.
      pick_ports n use_port picked.1 >>= λ more. ok (picked.0 ∷ more)

-- The numbers from `start` on, as 16-bit ports.
abbrev pub counted : ℕ → ℕ → List ℕ
counted zero start = []
counted (suc n) start = start ∷ counted n ((start + 1) % 2 ^ 16)

pair : {a b c d : ℕ} → a ≡ c → b ≡ d → ◌≡◌ {A = ℕ × ℕ} (a, b) (c, d)
pair p q = cc (p, q)

module _ (free : ℕ → Bool) where
  -- A port that comes after `start`, from where the next round looks.
  shift : (start i : ℕ) → ((start + 1) % 2 ^ 16 + i) % 2 ^ 16 ≡ (start + suc i) % 2 ^ 16
  shift start i = omega arith

  none_before :
      (start n : ℕ)
      → start < 2 ^ 16
      → free start ≡ false
      → ((j : ℕ) → j < n → free (((start + 1) % 2 ^ 16 + j) % 2 ^ 16) ≡ false)
      → (j : ℕ) → j < suc n
      → free ((start + j) % 2 ^ 16) ≡ false
  none_before start n h taken later zero lt =
      let same : (start + 0) % 2 ^ 16 ≡ start = omega (arith, h) in ap free same ∙ taken
  none_before start n h taken later (suc j) lt =
      ap free (sym (shift start j)) ∙ later j (omega (arith, lt))

  try_ports_first :
      (tries start : ℕ)
      → start < 2 ^ 16
      → ((try_ports free tries start ≡ err died)
          × ((i : ℕ) → i < tries → free ((start + i) % 2 ^ 16) ≡ false))
        ⊎ ((i : ℕ) × (i < tries)
            × (try_ports free tries start ≡ ok ((start + i) % 2 ^ 16, (start + i + 1) % 2 ^ 16))
            × (free ((start + i) % 2 ^ 16) ≡ true)
            × ((j : ℕ) → j < i → free ((start + j) % 2 ^ 16) ≡ false))
  unfolding try_ports
  try_ports_first zero start h = inl (refl, λ i lt. absurd (omega arith))
  try_ports_first (suc tries) start h = elim (Bool-cases (free start)) [
    | inl found ↦
        let same : (start + 0) % 2 ^ 16 ≡ start = omega (arith, h) in
        inr (
          0,
          omega arith,
          rw found (ap (λ p. ok p) (pair (sym same) (omega (arith, h)))),
          ap free same ∙ found,
          λ j lt. absurd (omega (arith, lt)),
        )
    | inr taken ↦ elim (try_ports_first tries ((start + 1) % 2 ^ 16) (omega arith)) [
      | inl (failed, nowhere) ↦ inl (rw taken failed, none_before start tries h taken nowhere)
      | inr (i, lt, there, is_free, before) ↦ inr (
        suc i,
        omega (arith, lt),
        rw taken (there ∙ ap (λ p. ok p) (pair (shift start i) (omega arith))),
        ap free (sym (shift start i)) ∙ is_free,
        none_before start i h taken before,
      )
    ]
  ]

  -- A receiver for which no port was given gets the first of the 1000 ports from `startPort` on, with
  -- wrap-around at 2^16, that can be bound, and the next search begins behind it; if there is none,
  -- `pickPort` dies.
  pub pick_port_first :
      (start : ℕ)
      → start < 2 ^ 16
      → ((pick_port free [] start ≡ err died)
          × ((i : ℕ) → i < 1000 → free ((start + i) % 2 ^ 16) ≡ false))
        ⊎ ((i : ℕ) × (i < 1000)
            × (pick_port free [] start ≡ ok ((start + i) % 2 ^ 16, (start + i + 1) % 2 ^ 16))
            × (free ((start + i) % 2 ^ 16) ≡ true)
            × ((j : ℕ) → j < i → free ((start + j) % 2 ^ 16) ≡ false))
  unfolding pick_port
  pick_port_first start h = try_ports_first 1000 start h

  -- Of the ports given, only the first one counts: the receivers get it and the numbers after it, with
  -- wrap-around at 2^16, whatever else was given and whether or not they can be bound.
  pub pick_ports_given :
      (n p start : ℕ) (others : List ℕ)
      → pick_ports free n (p ∷ others) start ≡ ok (counted n start)
  unfolding pick_ports
  pick_ports_given zero p start others = refl
  pick_ports_given (suc n) p start others =
      rw (pick_ports_given n p ((start + 1) % 2 ^ 16) others) refl
