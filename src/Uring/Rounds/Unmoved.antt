-- ===== src/Uring/Rounds/Unmoved.antt =====
-- The slots after the constructor of `IOUringRunner`, and with its listeners.
use netbench.Base.{
  ℕ, zero, suc, ◌+◌, ◌≡◌, refl, ap, ◌∙◌, Option, none, some, List, [], ◌∷◌, arith, ltb, ◌==◌, Bool,
  true, false, if◌then◌else◌, inl, inr, ◌⊎◌, Bool-cases, some-inj,
}
use mathlib.Core.Path.{subst}
use netbench.Base.Results.{ok, bind-ok, step-ok, ok-inj}
use netbench.Uring.{Config, Res, get_tag, k_other}
use netbench.Uring.Runner.{Runner, Buffers, provide_buffers, is_closed}
use netbench.Uring.Places.{
  in_pool, held, add_accept-held, SameSocks-held, provide_buffers-SameSocks,
}
use netbench.Uring.Rounds.{
  submit_loop, submit, fill, bare, with_slots, start, add_listen_sock, add_listen_socks, stop,
  Arrival, Round,
}
use netbench.Uring.Rounds.Accepting.{add_accept-Steady}
use netbench.Uring.Rounds.Steady.{provide_buffers-Steady}

-- Each slot is where it was, and the configuration is the same.
pub record Same (r r' : Runner) : Type 0 where
  pub config : r'.config ≡ r.config
  pub places : (i : ℕ) → held i r' ≡ held i r

pub same : {r : Runner} → Same r r
same = record { config = refl; places = λ i. refl }

pub same_then : {r s t : Runner} → Same r s → Same s t → Same r t
same_then a b = record { config = b.config ∙ a.config; places = λ i. b.places i ∙ a.places i }

pub fixed_then :
    {r r' : Runner} → Same r r' → r.config.fixed_files ≡ true → r'.config.fixed_files ≡ true
fixed_then s fixed = ap (λ c. c.fixed_files) s.config ∙ fixed

pub provide_buffers-Same : (force : Bool) (r : Runner) → Same r (provide_buffers force r)
provide_buffers-Same force r = record {
  config = (provide_buffers-Steady force r).config;
  places = λ i. SameSocks-held i r (provide_buffers force r) (provide_buffers-SameSocks force r);
}

in_pool-fill :
    (i n : ℕ) (pool : List ℕ)
    → in_pool i (fill n pool) ≡ (if ltb i n then 1 else 0) + in_pool i pool
unfolding fill
in_pool-fill i zero pool = ground arith
in_pool-fill i (suc n) pool = ground (arith, in_pool-fill i n (n ∷ pool))

-- A completion of a close tells that the kernel has closed the slot.
abbrev pub Closes : Arrival → Type 0
Closes a = (is_closed a.cqe.res ≡ true) ⊎ ((get_tag a.cqe.user_data == k_other) ≡ false)

abbrev pub AllClose : List Arrival → Type 0
AllClose [] = Unit
AllClose (a ∷ more) = Closes a × AllClose more

abbrev pub FirstCloses : Option Arrival → Type 0
FirstCloses none = Unit
FirstCloses (some a) = Closes a

abbrev pub RoundsClose : List Round → Type 0
RoundsClose [] = Unit
RoundsClose (rd ∷ rounds) = (FirstCloses rd.first × AllClose rd.cqes) × RoundsClose rounds

submit-Same : (r r' : Runner) (answers : List Res) → submit r answers ≡ ok (some r') → Same r r'
unfolding submit
submit-Same r r' answers e =
    elim (step-ok (submit_loop r.stopping r.expected answers)
      (λ n. ok (some (record r { expected = n }))) (some r') e) [
        | inl lasts ↦ let absurdity = lasts in cc
        | inr (n, sent, end) ↦
            subst (Same r) (some-inj (ok-inj end)) (record { config = refl; places = λ i. refl })
      ]

pub add_listen_socks-Same :
    (r r' : Runner) (more : List (ℕ × ℕ))
    → r.config.fixed_files ≡ true
    → add_listen_socks r more ≡ ok r'
    → Same r r'
unfolding add_listen_socks add_listen_sock
add_listen_socks-Same r r' [] fixed e = subst (Same r) (ok-inj e) same
add_listen_socks-Same r r' ((ptr, fd) ∷ more) fixed e =
    let r0 : Runner = record r {
      listen_socks = (ptr, record { fd = fd; next_accept_idx = none }) ∷ r.listen_socks;
    } in
    let (r1, first, rest) = bind-ok (add_listen_sock r ptr fd) _ e in
    let one : Same r0 r1 = record {
      config = (add_accept-Steady r0 r1 ptr first).config;
      places = λ i. add_accept-held i r0 r1 ptr fixed first;
    } in
    let both : Same r r1 = record {
      config = one.config;
      places = λ i. one.places i ∙ omega arith;
    } in
    same_then both (add_listen_socks-Same r1 r' more (fixed_then both fixed) rest)

pub stopped : (shutdown : Bool) (r : Runner) → Same r (if shutdown then stop r else r)
unfolding stop
stopped true r = record { config = refl; places = λ i. refl }
stopped false r = same

-- The slots after the constructor.
with_slots_owns :
    (c : Config) (buffers : Buffers) (fixed_file_count : ℕ) (r : Runner)
    → c.fixed_files ≡ true
    → Same (bare c buffers) r
    → ((with_slots c fixed_file_count r).config.fixed_files ≡ true)
      × ((i : ℕ)
          → held i (with_slots c fixed_file_count r) ≡ (if ltb i fixed_file_count then 1 else 0))
with_slots_owns c buffers fixed_file_count r fixed none_yet = (
  fixed_then none_yet fixed,
  λ i.
      let pool : in_pool i (if c.fixed_files then fill fixed_file_count [] else [])
          ≡ (if ltb i fixed_file_count then 1 else 0) + 0 =
        rw fixed (in_pool-fill i fixed_file_count []) in
      omega (arith, none_yet.places i, pool),
)

pub start_owns :
    (c : Config) (buffers : Buffers) (fixed_file_count : ℕ) (answers : List Res) (r : Runner)
    → c.fixed_files ≡ true
    → start c buffers fixed_file_count answers ≡ ok (some r)
    → (r.config.fixed_files ≡ true)
      × ((i : ℕ) → held i r ≡ (if ltb i fixed_file_count then 1 else 0))
unfolding start
start_owns c buffers fixed_file_count answers r fixed e =
    subst
      (λ r.
        (r.config.fixed_files ≡ true)
        × ((i : ℕ) → held i r ≡ (if ltb i fixed_file_count then 1 else 0)))
      made.2 (with_slots_owns c buffers fixed_file_count made.0 fixed made.1)
  where
    made : (r1 : Runner) × Same (bare c buffers) r1 × (with_slots c fixed_file_count r1 ≡ r)
    made = elim (Bool-cases (ltb 0 c.buffer_version)) [
      | inr no_buffers ↦ (bare c buffers, same, some-inj (ok-inj (rw (no_buffers, start) at e)))
      | inl provided ↦
          elim (step-ok (submit (provide_buffers true (bare c buffers)) answers)
            (λ r1. ok (some (with_slots c fixed_file_count r1))) (some r)
            (rw (provided, start) at e)) [
              | inl lasts ↦ let absurdity = lasts in cc
              | inr (r1, sent, end) ↦ (
                r1,
                same_then (provide_buffers-Same true (bare c buffers))
                    (submit-Same (provide_buffers true (bare c buffers)) r1 answers sent),
                some-inj (ok-inj end),
              )
            ]
    ]
