-- ===== src/LoadBalance/WeightRound.antt =====
-- Weighted round robin (conreg-client/src/lb/weight_round.rs).
use conreg.Prelude.{
  ℕ, ◌+◌, ◌%◌, String, none, some, List, [], ◌∷◌, string_eq, nat_eq, if◌then◌else◌, Result,
  unwrap_or,
}
use conreg.Prelude.Int.{two_64}
use conreg.DashMap
use conreg.DashMap.{DashMap}
use conreg.LoadBalance.Instance.{Instance, Answer}
use conreg.LoadBalance.Strategy.{among, total_weight, choose}

-- The counter moves before the position is divided by the sum of the weights, which may be 0.
unfoldable pub pick : String → List Instance → DashMap String ℕ → ℕ → Answer × DashMap String ℕ
unfolding DashMap.get DashMap.insert choose
pick service_id [] s total = (Answer.panicked, s)
pick service_id (i ∷ is) s total =
    let counter = unwrap_or (DashMap.get service_id s) 0 in
    (
      if nat_eq.beq total 0 then Answer.panicked else choose (counter % total) 0 i (i ∷ is),
      DashMap.insert service_id ((counter + 1) % two_64) s,
    )

unfoldable pub get_instance :
    String → Result (List Instance) String → DashMap String ℕ → Answer × DashMap String ℕ
unfolding total_weight pick
get_instance service_id found s = among service_id found s (λ is. elim (total_weight is) [
  | none ↦ (Answer.panicked, s)
  | some total ↦ pick service_id is s total
])
