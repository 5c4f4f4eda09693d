-- ===== src/Launch/Runs.antt =====
-- `--runs` of netbench.cpp: `parse` repeats the senders and the receivers, and `main` goes over the product of
-- the senders and its factories, which are not repeated with `client_only`.
use Prim.Native.String.{String}
use netbench.Base.{
  ℕ, zero, suc, ◌+◌, ◌*◌, ◌≡◌, refl, ap, sym, ◌∙◌, List, [], ◌∷◌, ◌++◌, arith, ◌&&◌, if◌then◌else◌,
  Bool, true, false, inl, inr, Bool-cases,
}
use netbench.Base.Results.{Result, ok, ok-inj, bind-ok, ◌>>=◌}
use native.Mathlib.Nat.{mul_assoc}
use netbench.Launch.Client.{Factory, parse_rx, parse_all, receiver_factories, runs_of}
use netbench.Launch.{Config, RxEngine, Options, append_copies, finish_parse, with_each, plan}

-- A sum over a list.
abbrev pub sum {ℓ} : {A : Type ℓ} → (A → ℕ) → List A → ℕ
sum f [] = 0
sum f (x ∷ xs) = f x + sum f xs

module _ {ℓ} {A : Type ℓ} where
  sum-append : (f : A → ℕ) (xs ys : List A) → sum f (xs ++ ys) ≡ sum f xs + sum f ys
  sum-append f [] ys = omega arith
  sum-append f (x ∷ xs) ys = omega (arith, sum-append f xs ys)

  sum-scale :
      (f g : A → ℕ) (n : ℕ) (xs : List A) → ((x : A) → f x ≡ n * g x) → sum f xs ≡ n * sum g xs
  sum-scale f g n [] h = omega arith
  sum-scale f g n (x ∷ xs) h = omega (arith, h x, sum-scale f g n xs h)

  sum-copies :
      (f : A → ℕ) (n : ℕ) (copy out : List A)
      → sum f (append_copies n copy out) ≡ sum f out + n * sum f copy
  unfolding append_copies
  sum-copies f zero copy out = omega arith
  sum-copies f (suc n) copy out =
      omega (arith, sum-copies f n copy (out ++ copy), sum-append f out copy)

module _ {ℓ κ} {A : Type ℓ} {B : Type κ} (f : A × B → ℕ) where
  sum-with_each : (a : A) (bs : List B) → sum f (with_each a bs) ≡ sum (λ b. f (a, b)) bs
  unfolding with_each
  sum-with_each a [] = refl
  sum-with_each a (b ∷ bs) = omega (arith, sum-with_each a bs)

  sum-plan : (xs : List A) (bs : List B) → sum f (plan xs bs) ≡ sum (λ a. sum (λ b. f (a, b)) bs) xs
  unfolding plan
  sum-plan [] bs = refl
  sum-plan (a ∷ xs) bs =
      omega (arith, sum-append f (with_each a bs) (plan xs bs), sum-with_each a bs, sum-plan xs bs)

  -- The senders repeated `n` times more.
  sum-plan_senders :
      (n : ℕ) (xs : List A) (bs : List B)
      → sum f (plan (append_copies n xs xs) bs) ≡ (n + 1) * sum f (plan xs bs)
  sum-plan_senders n xs bs =
      sum-plan (append_copies n xs xs) bs
      ∙ rw (sum-plan xs bs) (omega (arith, sum-copies (λ a. sum (λ b. f (a, b)) bs) n xs xs))

  -- Both lists repeated `n` times more.
  sum-plan_copies :
      (n : ℕ) (xs : List A) (bs : List B)
      → sum f (plan (append_copies n xs xs) (append_copies n bs bs))
        ≡ (n + 1) * ((n + 1) * sum f (plan xs bs))
  sum-plan_copies n xs bs =
      sum-plan (append_copies n xs xs) (append_copies n bs bs)
      ∙ sum-scale (λ a. sum (λ b. f (a, b)) (append_copies n bs bs)) (λ a. sum (λ b. f (a, b)) bs)
          (n + 1) (append_copies n xs xs) (λ a. omega (arith, sum-copies (λ b. f (a, b)) n bs bs))
      ∙ ap (λ m. (n + 1) * m)
          (rw (sum-plan xs bs) (omega (arith, sum-copies (λ a. sum (λ b. f (a, b)) bs) n xs xs)))

-- How often `n` runs do what one does: with `client_only` the senders alone are repeated.
abbrev pub times : Bool → ℕ → ℕ
times client_only n = if client_only then n else n * n

append_copies-nil {ℓ} : {A : Type ℓ} (n : ℕ) → append_copies {A = A} n [] [] ≡ []
unfolding append_copies
append_copies-nil zero = refl
append_copies-nil (suc n) = append_copies-nil n

module _ (split_unix : String → List String) (simple_parse : RxEngine → List String → Bool) where
  parse_all-append :
      (xs ys : List String) (fs gs : List Factory)
      → parse_all split_unix simple_parse xs ≡ ok fs
      → parse_all split_unix simple_parse ys ≡ ok gs
      → parse_all split_unix simple_parse (xs ++ ys) ≡ ok (fs ++ gs)
  unfolding parse_all
  parse_all-append [] ys fs gs first second =
      let same : [] ≡ fs = ok-inj first in second ∙ ap (λ fs. ok (fs ++ gs)) same
  parse_all-append (x ∷ xs) ys fs gs first second =
      let (r, one, rest) = bind-ok (parse_rx split_unix simple_parse x) _ first in
      let (rs, others, end) = bind-ok (parse_all split_unix simple_parse xs) _ rest in
      rw (one, parse_all-append xs ys rs gs others second) (ap (λ fs. ok (fs ++ gs)) (ok-inj end))

  parse_all-copies :
      (n : ℕ) (copy out : List String) (fs gs : List Factory)
      → parse_all split_unix simple_parse copy ≡ ok fs
      → parse_all split_unix simple_parse out ≡ ok gs
      → parse_all split_unix simple_parse (append_copies n copy out) ≡ ok (append_copies n fs gs)
  unfolding append_copies
  parse_all-copies zero copy out fs gs first second = second
  parse_all-copies (suc n) copy out fs gs first second =
      parse_all-copies n copy (out ++ copy) fs (gs ++ fs) first
        (parse_all-append out copy gs fs second first)

  module _ (given_port : ℕ → String) (port_name_map : List (ℕ × String)) where
    -- A configuration with its lists repeated `m` times more.
    abbrev repeated : ℕ → Config → Config
    repeated m cfg = record cfg {
      tx = append_copies m cfg.tx cfg.tx;
      rx = append_copies m cfg.rx cfg.rx;
    }

    abbrev factories_of : Config → Result (List Factory)
    factories_of cfg = receiver_factories split_unix simple_parse given_port cfg port_name_map

    client_factories :
        (m : ℕ) (cfg : Config) (fs : List Factory)
        → cfg.rx ≡ []
        → factories_of cfg ≡ ok fs
        → factories_of (repeated m cfg) ≡ ok fs
    unfolding receiver_factories
    client_factories m cfg fs no_rx made =
        ap (λ rx. factories_of (record cfg { rx = rx }))
          (ap (λ rx. append_copies m rx rx) no_rx ∙ append_copies-nil m ∙ sym no_rx)
        ∙ made

    local_factories :
        (m : ℕ) (cfg : Config) (fs : List Factory)
        → cfg.client_only ≡ false
        → factories_of cfg ≡ ok fs
        → factories_of (repeated m cfg) ≡ ok (append_copies m fs fs)
    unfolding receiver_factories
    local_factories m cfg fs local made =
        let (gs, parsed_all, chosen) = bind-ok (parse_all split_unix simple_parse cfg.rx) _ made in
        let same : gs ≡ fs = ok-inj (rw local at chosen) in
        rw (parse_all-copies m cfg.rx cfg.rx gs gs parsed_all parsed_all, local)
          (ap (λ fs. ok (append_copies m fs fs)) same)

    runs_of-copies :
        (m : ℕ) (cfg : Config) (once : List (String × Factory)) (f : String × Factory → ℕ)
        → (client_only : Bool) → cfg.client_only ≡ client_only
        → (client_only ≡ true → cfg.rx ≡ [])
        → runs_of split_unix simple_parse given_port cfg port_name_map ≡ ok once
        → (all : List (String × Factory)) × (runs_of split_unix simple_parse given_port
              (repeated m cfg)
              port_name_map
            ≡ ok all)
          × (sum f all ≡ times client_only (m + 1) * sum f once)
    unfolding runs_of
    runs_of-copies m cfg once f true client no_rx came =
        let (fs, made, end) = bind-ok (factories_of cfg) _ came in
        (
          plan (append_copies m cfg.tx cfg.tx) fs,
          ap (λ r. r >>= λ fs. ok (plan (append_copies m cfg.tx cfg.tx) fs))
              (client_factories m cfg fs (no_rx refl) made),
          sum-plan_senders f m cfg.tx fs ∙ ap (λ rs. (m + 1) * sum f rs) (ok-inj end),
        )
    runs_of-copies m cfg once f false client no_rx came =
        let (fs, made, end) = bind-ok (factories_of cfg) _ came in
        (
          plan (append_copies m cfg.tx cfg.tx) (append_copies m fs fs),
          ap (λ r. r >>= λ fs. ok (plan (append_copies m cfg.tx cfg.tx) fs))
              (local_factories m cfg fs client made),
          sum-plan_copies f m cfg.tx fs
              ∙ sym (mul_assoc (m + 1) (m + 1) (sum f (plan cfg.tx fs)))
              ∙ ap (λ rs. (m + 1) * (m + 1) * sum f rs) (ok-inj end),
        )

    -- However pairs of a sender and a receiver are counted: where the options come through with n runs and
    -- with one, and the receivers of one run can be made, those of `--runs=n` can be made too, and `main`
    -- does each pair of one run n times with `client_only`, where the receivers are the ports, and n * n
    -- times without.
    pub runs_of-finish_parse :
        (o : Options) (tx rx : List String) (c one : Config) (once : List (String × Factory))
        → (f : String × Factory → ℕ) → finish_parse o tx rx ≡ ok c
        → finish_parse (record o { runs = 1 }) tx rx ≡ ok one
        → runs_of split_unix simple_parse given_port one port_name_map ≡ ok once
        → (all : List (String × Factory)) × (runs_of split_unix simple_parse given_port c
              port_name_map
            ≡ ok all)
          × (sum f all ≡ times o.client_only o.runs * sum f once)
    unfolding finish_parse
    runs_of-finish_parse o tx rx c one once f e e1 came = go o.runs refl e
      where
        cleared : Config
        cleared = record {
          use_port = o.use_port;
          server_only = o.server_only;
          client_only = o.client_only;
          tx = if o.server_only then [] else tx;
          rx = if o.client_only then [] else rx;
        }

        cleared_rx : o.client_only ≡ true → cleared.rx ≡ []
        cleared_rx client = rw client refl

        go :
            (n : ℕ)
            → o.runs ≡ n
            → finish_parse (record o { runs = n }) tx rx ≡ ok c
            → (all : List (String × Factory)) × (runs_of split_unix simple_parse given_port c
                  port_name_map
                ≡ ok all)
              × (sum f all ≡ times o.client_only o.runs * sum f once)
        go zero same h = let absurdity = h in cc
        go (suc m) same h = elim (Bool-cases (o.server_only && o.client_only)) [
          | inl both ↦ let absurdity = rw (both, finish_parse) at h in cc
          | inr fine ↦
              let parsed_n = ok-inj (rw (fine, finish_parse) at h) in
              let parsed_one = ok-inj (rw (fine, finish_parse) at e1) in
              let count : m + 1 ≡ o.runs = omega (arith, same) in
              let (all, ran, sums) = runs_of-copies m cleared once f o.client_only refl cleared_rx (
                ap (λ cfg. runs_of split_unix simple_parse given_port cfg port_name_map) parsed_one
                ∙ came) in
              (
                all,
                ap (λ cfg. runs_of split_unix simple_parse given_port cfg port_name_map)
                      (sym parsed_n)
                    ∙ ran,
                sums ∙ ap (λ n. times o.client_only n * sum f once) count,
              )
        ]
