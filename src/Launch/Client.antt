-- ===== src/Launch/Client.antt =====
-- The receivers of `main`: those that the options name, or in a `client_only` run one for each port of the
-- server, none of which is started.
use Prim.Native.String.{String}
use netbench.Base.{ℕ, map, Bool, if◌then◌else◌, none, some, List, [], ◌∷◌}
use netbench.Base.Results.{Result, ok, err, died, ◌>>=◌}
use netbench.Launch.{Config, RxEngine, get_rx_engine, plan}
use netbench.Base.Assoc.{find}
use netbench.Stats.{sort}

-- The ports of the server's map.
abbrev pub ports_of : List (ℕ × String) → List ℕ
ports_of [] = []
ports_of ((port, name) ∷ more) = port ∷ ports_of more

-- `used_ports`: the ports that are given, else those of the server in ascending order.
unfoldable pub used_ports : List ℕ → List (ℕ × String) → List ℕ
unfolding sort
used_ports [] port_name_map = sort (ports_of port_name_map)
used_ports (p ∷ use_port) port_name_map = p ∷ use_port

-- The name of a receiver, where `given_port` names one that the server has not told of.
unfoldable pub name_of : (ℕ → String) → List (ℕ × String) → ℕ → String
name_of given_port port_name_map port = elim (find port port_name_map) [
  | none ↦ given_port port
  | some name ↦ name
]

abbrev pub receivers_of : (ℕ → String) → List (ℕ × String) → List ℕ → List (ℕ × String)
receivers_of given_port port_name_map [] = []
receivers_of given_port port_name_map (port ∷ more) =
    (port, name_of given_port port_name_map port) ∷ receivers_of given_port port_name_map more

-- The receivers, for the ports that are given and the server's map, which is empty without a control port.
unfoldable pub client_receivers :
    (ℕ → String) → List ℕ → List (ℕ × String) → Result (List (ℕ × String))
unfolding used_ports name_of
client_receivers given_port use_port port_name_map = elim (used_ports use_port port_name_map) [
  | [] ↦ err died
  | p ∷ more ↦ ok (receivers_of given_port port_name_map (p ∷ more))
]

-- What a factory of `main` makes: a receiver with its engine and options, or a `NullRunner` for a port.
pub data Factory : Type 0 where
  parsed : RxEngine → List String → Factory
  null : ℕ × String → Factory

-- `splits` are the words of an option, and `simple_parse` says whether the engine's options take them.
module _ (split_unix : String → List String) (simple_parse : RxEngine → List String → Bool) where
  -- `parseRx`, without the values of the options.
  unfoldable pub parse_rx : String → Result Factory
  unfolding get_rx_engine
  parse_rx parse = get_rx_engine split_unix parse >>= λ (engine, splits).
      if simple_parse engine splits then ok (parsed engine splits) else err died

  -- The loop over `cfg.rx`
  unfoldable pub parse_all : List String → Result (List Factory)
  unfolding parse_rx
  parse_all [] = ok []
  parse_all (rx ∷ more) =
      parse_rx rx >>= λ factory. parse_all more >>= λ factories. ok (factory ∷ factories)

  -- `receiver_factories`, for the server's map.
  unfoldable pub receiver_factories :
      (ℕ → String) → Config → List (ℕ × String) → Result (List Factory)
  unfolding parse_all client_receivers
  receiver_factories given_port cfg port_name_map = parse_all cfg.rx >>= λ factories.
      if cfg.client_only
      then (client_receivers given_port cfg.use_port port_name_map >>= λ used. ok (map null used))
      else ok factories

  -- The runs that `main` makes: of which sender, against which receiver.
  unfoldable pub runs_of :
      (ℕ → String) → Config → List (ℕ × String) → Result (List (String × Factory))
  unfolding receiver_factories plan
  runs_of given_port cfg port_name_map =
      receiver_factories given_port cfg port_name_map >>= λ factories. ok (plan cfg.tx factories)
