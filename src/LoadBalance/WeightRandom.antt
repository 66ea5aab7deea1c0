-- ===== src/LoadBalance/WeightRandom.antt =====
-- Weighted random (conreg-client/src/lb/weight_random.rs).
use conreg.Prelude.{ℕ, String, none, some, List, [], ◌∷◌, string_eq, nat_eq, if◌then◌else◌, Result}
use conreg.LoadBalance.Instance.{Instance, Answer}
use conreg.LoadBalance.Strategy.{Fastrand, among, total_weight, choose}

unfoldable pub pick : Fastrand → List Instance → ℕ → Answer
unfolding choose
pick random [] total = Answer.panicked
pick random (i ∷ is) total =
    if nat_eq.beq total 0 then Answer.panicked else choose (random.below total) 0 i (i ∷ is)

unfoldable pub get_instance : Fastrand → String → Result (List Instance) String → Answer
unfolding total_weight pick
get_instance random service_id found =
    (among service_id found tt (λ is. (
      elim (total_weight is) [ none ↦ Answer.panicked | some total ↦ pick random is total ],
      tt,
    ))).0
