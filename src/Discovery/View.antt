-- ===== src/Discovery/View.antt =====
-- What a `Discovery` shows of one instance, and what each operation does to it. The view of a service
-- and an id is the first instance of that service with that id; a map from these pairs is the abstract
-- registry that the lists of instances implement.
use conreg.Prelude.{
  ℕ, ◌≡◌, refl, String, Option, none, some, List, [], ◌∷◌, map, arith, ◌==◌, string_eq,
  if◌then◌else◌, not, retain, find, unwrap_or, eq_iff,
}
use conreg.DashMap.{get}
use conreg.Discovery.Instance.{
  InstanceStatus, is_offline, ServiceInstance, HeartbeatResult, update_heartbeat,
}
use conreg.Discovery.Registry.{Discovery, replace, beat}

abbrev pub find_id : String → List ServiceInstance → Option ServiceInstance
find_id j = find (λ i. i.id == j)

unfoldable pub view : Discovery → String → String → Option ServiceInstance
unfolding get
view d s j = find_id j (unwrap_or (get s d.services) [])

-- What a heartbeat answers for an instance, and what becomes of it.
unfoldable pub answer : Option ServiceInstance → HeartbeatResult
answer none = HeartbeatResult.no_instance_found
answer (some i) = if is_offline i.status then HeartbeatResult.rejected else HeartbeatResult.ok

unfoldable pub revived : ℕ → Option ServiceInstance → Option ServiceInstance
unfolding update_heartbeat
revived now none = none
revived now (some i) =
    if is_offline i.status
    then some i
    else some (record (update_heartbeat now i) { status = InstanceStatus.up })

pub find_id-replace :
    (j : String) (i : ServiceInstance) (is : List ServiceInstance)
    → find_id j (replace i is) ≡ (if i.id == j then some i else find_id j is)
unfolding replace
find_id-replace j i [] = refl
find_id-replace j i (x ∷ is) =
    ground (arith, find_id-replace j i is, eq_iff x.id i.id, eq_iff i.id j, eq_iff x.id j)

pub find_id-retain_ne :
    (j k : String) (is : List ServiceInstance)
    → find_id j (retain (λ item. not (item.id == k)) is) ≡ (if k == j then none else find_id j is)
find_id-retain_ne j k [] = ground arith
find_id-retain_ne j k (x ∷ is) =
    ground (arith, find_id-retain_ne j k is, eq_iff x.id k, eq_iff k j, eq_iff x.id j)

pub find_id-beat :
    (now : ℕ) (k j : String) (is : List ServiceInstance)
    → find_id j (beat now k is).1 ≡ (if k == j then revived now (find_id j is) else find_id j is)
unfolding beat revived
find_id-beat now k j [] = ground arith
find_id-beat now k j (x ∷ is) =
    ground (arith, find_id-beat now k j is, eq_iff x.id k, eq_iff k j, eq_iff x.id j)

pub beat-answer :
    (now : ℕ) (k : String) (is : List ServiceInstance) → (beat now k is).0 ≡ answer (find_id k is)
unfolding beat answer
beat-answer now k [] = refl
beat-answer now k (x ∷ is) = ground (arith, beat-answer now k is)

pub find_id-map :
    (f : ServiceInstance → ServiceInstance) (j : String) (is : List ServiceInstance)
    → ((i : ServiceInstance) → (f i).id ≡ i.id)
    → find_id j (map f is) ≡ elim (find_id j is) [ none ↦ none | some i ↦ some (f i) ]
find_id-map f j [] keep = refl
find_id-map f j (x ∷ is) keep = ground (arith, find_id-map f j is keep, keep x)
