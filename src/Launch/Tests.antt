-- ===== src/Launch/Tests.antt =====
-- Runs of the options and of `main`, and their theorems at small inputs.
use Prim.Native.String.{String}
use netbench.Base.{
  ℕ, ◌+◌, ◌*◌, ◌%◌, ◌^◌, ◌<◌, ◌≡◌, refl, List, [], ◌∷◌, ◌==◌, arith, Bool, true, false, some, ◌⊎◌,
}
use netbench.Base.Results.{ok, err, died}
use netbench.Launch.{
  Config, Options, all_scenarios, append_copies, finish_parse, parse, add_tx, choose_tx, choose_rx,
  keep_rx, plan, RxEngine, epoll,
}
use netbench.Base.Assoc.{find}
use netbench.Launch.Runs.{sum, runs_of-finish_parse}
use netbench.Launch.Client.{Factory, parsed, null, runs_of}
use netbench.Launch.Ports.{pick_port, pick_port_first}
use netbench.Launch.Groups.{
  gather, gather_onto, add_result, names, group_of, named, firsts, gather_lem, string_name,
}

abbrev words : String → List String
words s = s ∷ []

abbrev all_accepted : List String → Bool
all_accepted ws = true

abbrev two_runs : Options
two_runs = record {
  use_port = [];
  server_only = false;
  client_only = false;
  runs = 2;
  tx = some ("all" ∷ []);
  rx = some ("" ∷ "epoll" ∷ []);
}

abbrev two_runs_config : Config
two_runs_config = record {
  use_port = [];
  server_only = false;
  client_only = false;
  tx =
      "io_uring" ∷ "io_uring_single" ∷ "burst" ∷ "burst_periodic" ∷ "io_uring" ∷ "io_uring_single"
      ∷ "burst" ∷ "burst_periodic" ∷ [];
  rx = "epoll" ∷ "epoll" ∷ [];
}

parse-two_runs : parse words all_accepted two_runs ≡ ok two_runs_config
unfolding parse choose_tx add_tx choose_rx keep_rx finish_parse append_copies
parse-two_runs = refl

abbrev takes_all : RxEngine → List String → Bool
takes_all engine splits = true

abbrev port_text : ℕ → String
port_text port = "given_port"

-- With `client_only` and two ports, one of which the server tells of.
abbrev two_ports : Options
two_ports = record two_runs { client_only = true; use_port = 10_001 ∷ 10_002 ∷ [] }

abbrev two_ports_config : Config
two_ports_config = record {
  use_port = 10_001 ∷ 10_002 ∷ [];
  server_only = false;
  client_only = true;
  tx = two_runs_config.tx;
  rx = [];
}

abbrev client_runs : List (String × Factory)
client_runs = plan all_scenarios (null (10_001, "given_port") ∷ null (10_002, "epoll") ∷ [])

runs_of-finish_parse_example :
    (all : List (String × Factory)) × (runs_of words takes_all port_text two_ports_config
        ((10_002, "epoll") ∷ [])
      ≡ ok all)
    × (sum (λ p. 1) all ≡ 2 * sum (λ p. 1) client_runs)
unfolding finish_parse append_copies runs_of find
runs_of-finish_parse_example =
    runs_of-finish_parse words takes_all port_text ((10_002, "epoll") ∷ []) two_ports all_scenarios
      ("epoll" ∷ []) two_ports_config (record two_ports_config { tx = all_scenarios }) client_runs
      (λ p. 1) refl refl refl

runs_of-two_runs :
    runs_of words takes_all port_text two_runs_config []
    ≡ ok (plan two_runs_config.tx (parsed epoll ("epoll" ∷ []) ∷ parsed epoll ("epoll" ∷ []) ∷ []))
unfolding runs_of
runs_of-two_runs = refl

abbrev even_ports : ℕ → Bool
even_ports p = p % 2 == 0

pick_port_first_example :
    ((pick_port even_ports [] 10_001 ≡ err died)
      × ((i : ℕ) → i < 1000 → even_ports ((10_001 + i) % 2 ^ 16) ≡ false))
    ⊎ ((i : ℕ) × (i < 1000)
        × (pick_port even_ports [] 10_001 ≡ ok ((10_001 + i) % 2 ^ 16, (10_001 + i + 1) % 2 ^ 16))
        × (even_ports ((10_001 + i) % 2 ^ 16) ≡ true)
        × ((j : ℕ) → j < i → even_ports ((10_001 + j) % 2 ^ 16) ≡ false))
pick_port_first_example = pick_port_first even_ports 10_001 (omega arith)

abbrev three_results : List (String × ℕ)
three_results = ("a", 1) ∷ ("b", 2) ∷ ("a", 3) ∷ []

gather_three : gather three_results ≡ ("a", 1 ∷ 3 ∷ []) ∷ ("b", 2 ∷ []) ∷ []
unfolding gather gather_onto add_result
gather_three = refl

gather_lem_example :
    (names (gather three_results) ≡ firsts [] three_results)
    × ((k : String) → group_of k (gather three_results) ≡ named k three_results)
gather_lem_example = gather_lem three_results
