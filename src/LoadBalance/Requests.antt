-- ===== src/LoadBalance/Requests.antt =====
-- The requests of a balanced client (conreg-client/src/lb/client.rs, lines 212 to 248). What reqwest builds is a
-- method and a URL.
use conreg.Prelude.{String, Option, List, Result}
use conreg.LoadBalance.Client.{LoadBalanceClient}
use conreg.LoadBalance.Instance.{Instance, LoadBalanceError}
use conreg.LoadBalance.Strategy.{Fastrand}
use conreg.LoadBalance.Url.{Parsed, parse_url}

-- A method is its word.
abbrev pub Method : Type 0
Method = String

pub data Built : Type 0 where
  built : Method → String → Built
  failed : LoadBalanceError → Built
  panicked : Built

module _ (random : Fastrand) (found : String → Result (List Instance) String)
    (parse : String → Option (String × Option String)) where
  unfoldable pub request : Method → String → LoadBalanceClient → Built × LoadBalanceClient
  unfolding parse_url
  request method url s =
      let (parsed, s') = parse_url random found parse url s in
      (
        elim parsed [
          | Parsed.url target ↦ Built.built method target
          | Parsed.failed e ↦ Built.failed e
          | Parsed.panicked ↦ Built.panicked
        ],
        s',
      )

  unfoldable pub get : String → LoadBalanceClient → Built × LoadBalanceClient
  unfolding request
  get = request "GET"

  unfoldable pub post : String → LoadBalanceClient → Built × LoadBalanceClient
  unfolding request
  post = request "POST"

  unfoldable pub put : String → LoadBalanceClient → Built × LoadBalanceClient
  unfolding request
  put = request "PUT"

  unfoldable pub delete : String → LoadBalanceClient → Built × LoadBalanceClient
  unfolding request
  delete = request "DELETE"

  unfoldable pub patch : String → LoadBalanceClient → Built × LoadBalanceClient
  unfolding request
  patch = request "PATCH"

  unfoldable pub head : String → LoadBalanceClient → Built × LoadBalanceClient
  unfolding request
  head = request "HEAD"
