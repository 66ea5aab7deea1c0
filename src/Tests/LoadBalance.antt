-- ===== src/Tests/LoadBalance.antt =====
-- Runs of the load balancing strategies (conreg-client/src/lb).
use conreg.Prelude.{
  ℕ, ◌≡◌, refl, String, some, [], ◌∷◌, arith, ok, length, All, unwrap_or, string_eq,
}
use conreg.Prelude.Int.{ℤ}
use conreg.DashMap
use conreg.Values.{Value, Number}
use conreg.LoadBalance.Instance.{Instance, get_weight, Answer}
use conreg.LoadBalance.Strategy.{Fastrand}
use conreg.LoadBalance.Bounds.{IsIn, Unweighted, get_instance-IsIn}
use conreg.LoadBalance.Client
use conreg.LoadBalance.Client.{LoadBalanceStrategy, get_instance}
use conreg.LoadBalance.WeightRound
use conreg.LoadBalance.Weights.{slots, IsWeighted}
use conreg.LoadBalance.Rounds.{calls, weight_round-period}

abbrev weighing : String → ℕ → Instance
weighing ip w = record {
  id = ip;
  service_id = "orders";
  ip = ip;
  port = 80;
  meta = ("weight", Value.number (Number.int (ℤ.pos w))) ∷ [];
}

abbrev heavy : Instance
heavy = weighing "10.0.0.1" 2

abbrev light : Instance
light = weighing "10.0.0.2" 1

abbrev idle : Instance
idle = weighing "10.0.0.3" 0

abbrev zero_drawn : Fastrand
zero_drawn = record { below = λ n. 0; below-lt = λ n h. h }

both-IsWeighted : All IsWeighted (heavy ∷ light ∷ [])
unfolding get_weight
both-IsWeighted = (refl, (refl, tt))

three_slots : slots (heavy ∷ light ∷ []) ≡ heavy ∷ heavy ∷ light ∷ []
unfolding slots get_weight
three_slots = refl

three : length (slots (heavy ∷ light ∷ [])) ≡ 3
unfolding slots get_weight
three = refl

no_slots : length (slots (idle ∷ idle ∷ [])) ≡ 0
unfolding slots get_weight
no_slots = refl

weight_round-period_example :
    ((calls (WeightRound.get_instance "orders" (ok (heavy ∷ light ∷ []))) 3 []).0
      ≡ Answer.returned heavy ∷ Answer.returned heavy ∷ Answer.returned light ∷ [])
    × (unwrap_or
          (DashMap.get "orders"
            (calls (WeightRound.get_instance "orders" (ok (heavy ∷ light ∷ []))) 3 []).1)
          0
        ≡ 3)
unfolding slots get_weight DashMap.get
weight_round-period_example =
    weight_round-period "orders" heavy light [] [] both-IsWeighted (omega arith) refl

get_instance-IsIn_example :
    IsIn
      (heavy ∷ light ∷ [])
      (get_instance zero_drawn "shop"
        (ok (heavy ∷ light ∷ []))
        (some LoadBalanceStrategy.random)
        Client.new).0
unfolding Unweighted
get_instance-IsIn_example =
    get_instance-IsIn zero_drawn "shop" Client.new LoadBalanceStrategy.random heavy (light ∷ []) tt
