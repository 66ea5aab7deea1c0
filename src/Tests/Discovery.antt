-- ===== src/Tests/Discovery.antt =====
-- Runs of the registry of instances (conreg-server/src/discovery/discovery.rs).
use conreg.Prelude.{
  ℕ, ◌+◌, ◌≡◌, refl, String, false, some, List, [], ◌∷◌, arith, leb, if◌then◌else◌, ◌&&◌, ◌==◌,
  string_eq, length,
}
use conreg.Discovery.Instance
use conreg.Discovery.Instance.{InstanceStatus, ServiceInstance, HeartbeatResult, is_down, is_up}
use conreg.Discovery.Registry
use conreg.Discovery.Registry.{Discovery, check_instance}
use conreg.Discovery.View.{view, answer, revived}
use conreg.Discovery.Effects
use conreg.Discovery.Effects.{taken_down, put_back}
use conreg.Discovery.Invariant.{Step, Reach, IsWellFormed}
use conreg.Discovery.Invariant.Steps.{Reach-IsWellFormed, new-IsWellFormed}
use conreg.Discovery.Lifecycle
use conreg.Discovery.Lifecycle.{check_at, count_lost, kept_unless_down}

program : Unit {0}
unfolding Instance.new Registry.new Registry.register_service Registry.deregister_service
    Registry.register_instance Registry.deregister_instance Registry.online Registry.offline
    Registry.heartbeat Registry.check_heartbeats Registry.cleanup
    Registry.get_available_service_instances view
program = tt

abbrev digest : String → String
digest s = s

abbrev first : ServiceInstance
unfolding program
first = Instance.new digest 1000 "orders" "10.0.0.1" 8080 []

-- An empty registry, then an instance, then checks that find it silent.
abbrev fresh : Discovery
fresh = (Registry.register_instance first Registry.new).1

abbrev silent : Discovery
silent =
    Registry.check_heartbeats 18_000 5_000
      (Registry.check_heartbeats 12_000 5_000 (Registry.check_heartbeats 7_000 5_000 fresh))

fresh_ready : view fresh "orders" "10.0.0.1:8080" ≡ some first
unfolding program
fresh_ready = refl

fresh_hidden : Registry.get_available_service_instances "orders" fresh ≡ []
unfolding program
fresh_hidden = refl

Reach-silent : Reach Registry.new silent
unfolding first Instance.new
Reach-silent =
    Reach.next
      (Reach.next
        (Reach.next (Reach.next Reach.here (Step.register_instance first Registry.new refl))
          (Step.check_heartbeats 7_000 5_000 fresh))
        (Step.check_heartbeats 12_000 5_000 _))
      (Step.check_heartbeats 18_000 5_000 _)

Reach-IsWellFormed_example : IsWellFormed silent
Reach-IsWellFormed_example = Reach-IsWellFormed new-IsWellFormed Reach-silent

heartbeat_lem_example :
    ((Registry.heartbeat 19_000 "orders" "10.0.0.1:8080" silent).0
      ≡ answer (view silent "orders" "10.0.0.1:8080"))
    × ((t j : String)
        → view (Registry.heartbeat 19_000 "orders" "10.0.0.1:8080" silent).1 t j ≡ (
            if "orders" == t && "10.0.0.1:8080" == j
            then revived 19_000 (view silent "orders" "10.0.0.1:8080")
            else view silent t j))
heartbeat_lem_example = Effects.heartbeat_lem 19_000 "orders" "10.0.0.1:8080" silent

abbrev ticks : List ℕ
ticks = 12_000 ∷ 18_000 ∷ 24_000 ∷ []

silence_example :
    ((check_at 5_000 (7_000 ∷ ticks) first).lost_heartbeats
      ≡ count_lost first.lost_heartbeats (length (7_000 ∷ ticks)))
    × (is_down (check_at 5_000 (7_000 ∷ ticks) first).status
        ≡ leb 3 (first.lost_heartbeats + length ticks))
    × (is_up (check_at 5_000 (7_000 ∷ ticks) first).status ≡ false)
unfolding first Instance.new
silence_example = Lifecycle.silence 5_000 7_000 ticks first refl (omega arith) (omega arith)
