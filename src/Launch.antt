-- ===== src/Launch.antt =====
-- How netbench.cpp turns its options into runs: `parse` behind the option parser, `getRxEngine`,
-- `pickPort`, and the loops of `main` over senders and receivers. `split_unix` and whether the option
-- parser takes a list of words are parameters (boost::program_options).
pub mod Runs
pub mod Ports
pub mod Client
pub mod Listed
pub mod Groups
mod Tests
use Prim.Native.String.{String}
use text.Mathlib.Text.{◌==◌ as str_eq}
use netbench.Base.{
  ℕ, zero, suc, ◌+◌, ◌/◌, ◌%◌, ◌^◌, Option, none, some, List, [], ◌∷◌, ◌++◌, map, Bool, true, false,
  ◌&&◌, ltb, if◌then◌else◌,
}
use netbench.Base.Results.{Result, ok, err, died, ◌>>=◌}

-- `allScenarios` of sender.cpp
abbrev pub all_scenarios : List String
all_scenarios = "io_uring" ∷ "io_uring_single" ∷ "burst" ∷ "burst_periodic" ∷ []

-- The members of `Config` that choose the runs.
pub record Config : Type 0 where
  pub use_port : List ℕ
  pub server_only : Bool
  pub client_only : Bool
  pub tx : List String
  pub rx : List String

-- What stands on the command line: `none` for an option that is not there, and 0 for any number of
-- runs that is not positive.
pub record Options : Type 0 where
  pub use_port : List ℕ
  pub server_only : Bool
  pub client_only : Bool
  pub runs : ℕ
  pub tx : Option (List String)
  pub rx : Option (List String)

module _ (split_unix : String → List String) (accepts : List String → Bool) where
  -- `PerSendOptions::parseOptions`: the engine.
  unfoldable pub parse_options : String → Result String
  parse_options tx = elim (split_unix tx) [
    | [] ↦ err died
    | e ∷ words ↦ if accepts (e ∷ words) then ok e else err died
  ]

  -- The loop over `tx`
  unfoldable pub add_tx : List String → List String → Result (List String)
  unfolding parse_options
  add_tx [] out = ok out
  add_tx (tx ∷ more) out =
      if str_eq tx "all"
      then add_tx more (out ++ all_scenarios)
      else parse_options tx >>= λ engine. add_tx more (out ++ tx ∷ [])

  unfoldable pub choose_tx : Option (List String) → Result (List String)
  unfolding add_tx
  choose_tx none = ok ("epoll" ∷ [])
  choose_tx (some given) = add_tx given []

-- The loop over `rx`
unfoldable pub keep_rx : List String → List String
keep_rx [] = []
keep_rx (rx ∷ more) = if str_eq rx "" then keep_rx more else rx ∷ keep_rx more

unfoldable pub choose_rx : Option (List String) → List String
unfolding keep_rx
choose_rx none = "io_uring" ∷ "epoll" ∷ []
choose_rx (some given) = keep_rx given

-- The loop for `runs`: `rounds` more copies of a list are appended.
unfoldable pub append_copies {ℓ} : {A : Type ℓ} → ℕ → List A → List A → List A
append_copies zero copy out = out
append_copies (suc rounds) copy out = append_copies rounds copy (out ++ copy)

-- `parse` once the lists are chosen: the options that clear a list, the runs, and the validation.
unfoldable pub finish_parse : Options → List String → List String → Result Config
unfolding append_copies
finish_parse o tx rx =
    let tx' = if o.server_only then [] else tx in
    let rx' = if o.client_only then [] else rx in
    elim o.runs [
      | zero ↦ err died
      | suc more ↦
          if o.server_only && o.client_only
          then err died
          else ok (record {
            use_port = o.use_port;
            server_only = o.server_only;
            client_only = o.client_only;
            tx = append_copies more tx' tx';
            rx = append_copies more rx' rx';
          })
    ]

-- `parse`
unfoldable pub parse : (String → List String) → (List String → Bool) → Options → Result Config
unfolding choose_tx choose_rx finish_parse
parse split_unix accepts o =
    choose_tx split_unix accepts o.tx >>= λ tx. finish_parse o tx (choose_rx o.rx)

-- `RxEngine`
pub data RxEngine : Type 0 where
  io_uring : RxEngine
  epoll : RxEngine

-- `getRxEngine`
unfoldable pub get_rx_engine : (String → List String) → String → Result (RxEngine × List String)
get_rx_engine split_unix parse = elim (split_unix parse) [
  | [] ↦ err died
  | e ∷ words ↦
      if str_eq e "epoll"
      then ok (epoll, e ∷ words)
      else if str_eq e "io_uring"
      then ok (io_uring, e ∷ words)
      else err died
]

-- `parseRx`: the watermark, a quarter of the buffers where none is given (`none` for a negative one).
unfoldable pub low_watermark : Option ℕ → ℕ → ℕ
low_watermark none count = count / 4
low_watermark (some given) count = given

-- The two loops of `main`: every sender with every receiver, in this order.
unfoldable pub with_each {ℓ κ} : {A : Type ℓ} {B : Type κ} → A → List B → List (A × B)
with_each a [] = []
with_each a (b ∷ more) = (a, b) ∷ with_each a more

unfoldable pub plan {ℓ κ} : {A : Type ℓ} {B : Type κ} → List A → List B → List (A × B)
unfolding with_each
plan [] receivers = []
plan (tx ∷ more) receivers = with_each tx receivers ++ plan more receivers
