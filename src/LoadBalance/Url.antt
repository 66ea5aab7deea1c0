-- ===== src/LoadBalance/Url.antt =====
-- The URL of a balanced request (`parse_url` and `impl_parse_url!` of conreg-client/src/lb/client.rs). `parse`
-- is the crate `url`: a URL's scheme and host, or neither. Where it reads no URL, or no host in a URL of
-- the client's schemes, the program panics.
use conreg.Prelude.{
  String, Option, none, some, List, concat, to_string, Result, string_eq, ◌==◌, if◌then◌else◌,
}
use conreg.Prelude.Text.{replace}
use conreg.LoadBalance.Client.{LoadBalanceStrategy, LoadBalanceClient, get_instance}
use conreg.LoadBalance.Instance.{Instance, Answer, LoadBalanceError}
use conreg.LoadBalance.Strategy.{Fastrand}

pub data Parsed : Type 0 where
  url : String → Parsed
  failed : LoadBalanceError → Parsed
  panicked : Parsed

-- The strategy that a scheme asks for, where it is one of the client's.
unfoldable pub strategy_of : String → Option (Option LoadBalanceStrategy)
strategy_of scheme =
    if scheme == "lb"
    then some none
    else if scheme == "lb-r"
    then some (some LoadBalanceStrategy.random)
    else if scheme == "lb-wr"
    then some (some LoadBalanceStrategy.weighted_random)
    else if scheme == "lb-rr"
    then some (some LoadBalanceStrategy.round_robin)
    else if scheme == "lb-wrr"
    then some (some LoadBalanceStrategy.weighted_round_robin)
    else none

abbrev pub origin : String → String → String
origin scheme service_id = concat scheme (concat "://" service_id)

abbrev pub address : Instance → String
unfolding to_string
address i = concat "http://" (concat i.ip (concat ":" (to_string i.port)))

module _ (random : Fastrand) (found : String → Result (List Instance) String) where
  -- `impl_parse_url!`
  unfoldable pub resolve :
      String
      → Option LoadBalanceStrategy
      → String
      → Option String
      → LoadBalanceClient
      → Parsed × LoadBalanceClient
  unfolding get_instance replace
  resolve scheme strategy given none s = (Parsed.panicked, s)
  resolve scheme strategy given (some service_id) s =
      let (answer, s') = get_instance random service_id (found service_id) strategy s in
      elim answer [
        | Answer.failed e ↦ (Parsed.failed e, s')
        | Answer.panicked ↦ (Parsed.panicked, s')
        | Answer.returned i ↦
            (Parsed.url (replace (origin scheme service_id) (address i) given), s')
      ]

  unfoldable pub parse_url :
      (String → Option (String × Option String))
      → String
      → LoadBalanceClient
      → Parsed × LoadBalanceClient
  unfolding resolve strategy_of
  parse_url parse given s = elim (parse given) [
    | none ↦ (Parsed.panicked, s)
    | some (scheme, host) ↦ elim (strategy_of scheme) [
      | none ↦ (Parsed.url given, s)
      | some strategy ↦ resolve scheme strategy given host s
    ]
  ]
