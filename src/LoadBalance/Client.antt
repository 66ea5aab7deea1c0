-- ===== src/LoadBalance/Client.antt =====
-- `LoadBalanceClient` (conreg-client/src/lb/client.rs, lines 24 to 157): which strategy is asked.
use conreg.Prelude.{ℕ, String, Option, none, some, List, [], string_eq, Result}
use conreg.DashMap
use conreg.DashMap.{DashMap}
use conreg.LoadBalance.Instance.{Instance, Answer}
use conreg.LoadBalance.Strategy.{Fastrand}
use conreg.LoadBalance.Round
use conreg.LoadBalance.WeightRound
use conreg.LoadBalance.Random
use conreg.LoadBalance.WeightRandom

pub data LoadBalanceStrategy : Type 0 where
  round_robin weighted_round_robin random weighted_random : LoadBalanceStrategy

abbrev pub default : LoadBalanceStrategy
default = LoadBalanceStrategy.random

unfoldable pub as_schema : LoadBalanceStrategy → String
as_schema LoadBalanceStrategy.round_robin = "lb-rr"
as_schema LoadBalanceStrategy.weighted_round_robin = "lb-wrr"
as_schema LoadBalanceStrategy.random = "lb-r"
as_schema LoadBalanceStrategy.weighted_random = "lb-wr"

pub record LoadBalanceClient : Type 0 where
  pub strategies : DashMap String LoadBalanceStrategy
  -- the state of the two strategies that have one
  pub index : DashMap String ℕ
  pub current_weight : DashMap String ℕ

unfoldable pub new : LoadBalanceClient
new = record { strategies = []; index = []; current_weight = [] }

unfoldable pub set_strategy : String → LoadBalanceStrategy → LoadBalanceClient → LoadBalanceClient
unfolding DashMap.insert
set_strategy service_id strategy s = record s {
  strategies = DashMap.insert service_id strategy s.strategies;
}

module _ (random : Fastrand) (service_id : String) (found : Result (List Instance) String) where
  -- `get_instance_`
  unfoldable pub get_instance_by :
      LoadBalanceStrategy → LoadBalanceClient → Answer × LoadBalanceClient
  unfolding Round.get_instance WeightRound.get_instance Random.get_instance
      WeightRandom.get_instance
  get_instance_by LoadBalanceStrategy.random s = (Random.get_instance random service_id found, s)
  get_instance_by LoadBalanceStrategy.weighted_random s =
      (WeightRandom.get_instance random service_id found, s)
  get_instance_by LoadBalanceStrategy.round_robin s =
      let (answer, index) = Round.get_instance service_id found s.index in
      (answer, record s { index = index })
  get_instance_by LoadBalanceStrategy.weighted_round_robin s =
      let (answer, weights) = WeightRound.get_instance service_id found s.current_weight in
      (answer, record s { current_weight = weights })

  unfoldable pub get_instance :
      Option LoadBalanceStrategy → LoadBalanceClient → Answer × LoadBalanceClient
  unfolding get_instance_by DashMap.get set_strategy
  get_instance (some strategy) s = get_instance_by strategy s
  get_instance none s = elim (DashMap.get service_id s.strategies) [
    | some strategy ↦ get_instance_by strategy s
    | none ↦
        let (answer, s') = get_instance_by default s in (answer, set_strategy service_id default s')
  ]
