-- ===== src/LoadBalance/Round.antt =====
-- Round robin (conreg-client/src/lb/round.rs).
use conreg.Prelude.{ℕ, ◌+◌, ◌%◌, String, List, string_eq, nat_eq, Result, length, unwrap_or}
use conreg.DashMap
use conreg.DashMap.{DashMap}
use conreg.LoadBalance.Instance.{Instance, Answer}
use conreg.LoadBalance.Strategy.{at, among}

unfoldable pub get_instance :
    String → Result (List Instance) String → DashMap String ℕ → Answer × DashMap String ℕ
unfolding DashMap.get DashMap.insert at
get_instance service_id found s = among service_id found s (λ is.
    let index = (unwrap_or (DashMap.get service_id s) 0 + 1) % length is in
    (at is index, DashMap.insert service_id index s))
