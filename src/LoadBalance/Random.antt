-- ===== src/LoadBalance/Random.antt =====
-- Random (conreg-client/src/lb/random.rs).
use conreg.Prelude.{String, List, string_eq, nat_eq, Result, length}
use conreg.LoadBalance.Instance.{Instance, Answer}
use conreg.LoadBalance.Strategy.{Fastrand, at, among}

unfoldable pub get_instance : Fastrand → String → Result (List Instance) String → Answer
unfolding at
get_instance random service_id found =
    (among service_id found tt (λ is. (at is (random.below (length is)), tt))).0
