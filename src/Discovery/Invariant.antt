-- ===== src/Discovery/Invariant.antt =====
-- The registry as a step relation, and what holds in every state that it reaches
-- (conreg-server/src/discovery/discovery.rs, lines 106 to 310).
pub mod Lists
pub mod Steps
use conreg.Prelude.{
  ℕ, ◌+◌, ◌≤◌, ◌≡◌, refl, String, Bool, true, false, Option, none, some, List, [], ◌∷◌, ◌++◌, map,
  arith, ◌==◌, string_eq, if◌then◌else◌, not, ◌&&◌, ◌||◌, retain, find, unwrap_or, eq_iff,
  Option-cases, Bool-cases, inl, inr, Eq, All, NoRepeat, contains, sym, ap, leb, All-retain,
  All-append,
}
use conreg.DashMap.{
  DashMap, get, insert, remove, map_values, get-insert, get-remove, get-map_values,
}
use conreg.Discovery.Instance.{
  InstanceStatus, is_down, is_offline, ServiceInstance, HeartbeatResult,
}
use conreg.Discovery.Registry
use conreg.Discovery.Registry.{Discovery, replace, get_mut, update_first, beat, check_instance}
use conreg.Discovery.View.{find_id, view}

-- One call of an operation, or one tick of a timer, at any time. `DiscoveryManager` registers
-- services with no instance, and the instances that come with a request have lost no heartbeat
-- (`lost_heartbeats` is not part of a request: `#[serde(skip)]`).
pub data Step : Discovery → Discovery → Type 0 where
  register_service : (s : String) (d : Discovery) → Step d (Registry.register_service s [] d).1
  deregister_service : (s : String) (d : Discovery) → Step d (Registry.deregister_service s d)
  register_instance :
      (i : ServiceInstance) (d : Discovery)
      → i.lost_heartbeats ≡ 0
      → Step d (Registry.register_instance i d).1
  deregister_instance : (s k : String) (d : Discovery) → Step d (Registry.deregister_instance s k d)
  online : (s k : String) (d : Discovery) → Step d (Registry.online s k d)
  offline : (s k : String) (d : Discovery) → Step d (Registry.offline s k d)
  heartbeat : (now : ℕ) (s k : String) (d : Discovery) → Step d (Registry.heartbeat now s k d).1
  check_heartbeats :
      (now timeout : ℕ) (d : Discovery) → Step d (Registry.check_heartbeats now timeout d)
  cleanup : (d : Discovery) → Step d (Registry.cleanup d)

pub data Reach (d : Discovery) : Discovery → Type 0 where
  here : Reach d d
  next : {e f : Discovery} → Reach d e → Step e f → Reach d f

abbrev pub ids : List ServiceInstance → List String
ids = map (λ i. i.id)

-- An instance of service `s` that has lost at most three heartbeats.
abbrev pub Fits : String → ServiceInstance → Type 0
Fits s i = (i.service_id ≡ s) × (i.lost_heartbeats ≤ 3)

pub record IsGood (s : String) (is : List ServiceInstance) : Type 0 where
  pub fit : All (Fits s) is
  pub distinct : NoRepeat (ids is)

-- Each list holds instances of its own service, no id twice, and no count of lost heartbeats passes 3.
pub record IsWellFormed (d : Discovery) : Type 0 where
  pub at_service :
      (s : String) (is : List ServiceInstance) → get s d.services ≡ some is → IsGood s is
