-- ===== src/LoadBalance/Instance.antt =====
-- An instance as the client sees it (conreg-client/src/protocol/mod.rs), and how a choice among
-- instances ends (conreg-client/src/lb/mod.rs). `panicked` is a Rust panic.
use conreg.Prelude.{ℕ, String, Option, none, some, string_eq}
use conreg.DashMap
use conreg.DashMap.{DashMap}
use conreg.Values.{Value, Number, as_nat}
use conreg.Prelude.Int.{ℤ}

pub record Instance : Type 0 where
  pub id : String
  pub service_id : String
  pub ip : String
  pub port : ℕ
  pub meta : DashMap String Value

-- None where the weight of the metadata is no natural number, on which the source unwraps.
unfoldable pub get_weight : Instance → Option ℕ
unfolding DashMap.get as_nat
get_weight i = elim (DashMap.get "weight" i.meta) [
  | none ↦ as_nat (Value.number (Number.int (ℤ.pos 1)))
  | some v ↦ as_nat v
]

pub data LoadBalanceError : Type 0 where
  get_instances_error : String → LoadBalanceError
  no_available_instance : String → LoadBalanceError

pub data Answer : Type 0 where
  returned : Instance → Answer
  failed : LoadBalanceError → Answer
  panicked : Answer
