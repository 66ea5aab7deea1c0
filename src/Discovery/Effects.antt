-- ===== src/Discovery/Effects.antt =====
-- The effect of every operation of `Discovery` on the view of every instance
-- (conreg-server/src/discovery/discovery.rs, lines 120 to 289).
use conreg.Prelude.{
  ℕ, ◌≡◌, refl, String, Option, none, some, List, [], ◌∷◌, map, arith, ◌==◌, string_eq,
  if◌then◌else◌, not, ◌&&◌, retain, unwrap_or, eq_iff, Option-cases, inl, inr,
}
use conreg.DashMap.{get, get-insert, get-remove, get-map_values}
use conreg.Discovery.Instance.{InstanceStatus, is_offline, ServiceInstance}
use conreg.Discovery.Registry.{
  Discovery, replace, register_instance, get_mut, deregister_instance, deregister_service,
  update_first, online, offline, beat, heartbeat, check_instance, check_heartbeats,
}
use conreg.Discovery.View.{
  find_id, view, answer, revived, find_id-replace, find_id-retain_ne, find_id-beat, beat-answer,
  find_id-map,
}

-- Registering an instance replaces the instance of its service and id, and changes no other view.
pub view-register_instance :
    (i : ServiceInstance) (d : Discovery) (s j : String)
    → view (register_instance i d).1 s j
      ≡ (if i.service_id == s && i.id == j then some i else view d s j)
unfolding view register_instance
view-register_instance i d s j = ground (
  arith,
  get-insert i.service_id s (replace i (unwrap_or (get i.service_id d.services) [])) d.services,
  find_id-replace j i (unwrap_or (get i.service_id d.services) []),
  eq_iff i.service_id s,
)

-- An operation through `get_mut` changes the views of its own service, by what it does to its list.
view-get_mut :
    (s : String) (f : List ServiceInstance → List ServiceInstance) (d : Discovery) (t j : String)
    → f [] ≡ []
    → view (get_mut s f d) t j
      ≡ (if s == t then find_id j (f (unwrap_or (get s d.services) [])) else view d t j)
unfolding view get_mut
view-get_mut s f d t j h = elim (Option-cases (get s d.services)) [
  | inl e ↦ ground (arith, eq_iff s t)
  | inr (is, e) ↦ ground (arith, get-insert s t (f is) d.services)
]

-- Deregistering an instance removes it from the view, and changes no other.
pub view-deregister_instance :
    (s k : String) (d : Discovery) (t j : String)
    → view (deregister_instance s k d) t j ≡ (if s == t && k == j then none else view d t j)
unfolding deregister_instance view
view-deregister_instance s k d t j = ground (
  arith,
  view-get_mut s (retain (λ item. not (item.id == k))) d t j refl,
  find_id-retain_ne j k (unwrap_or (get s d.services) []),
  eq_iff s t,
)

-- Deregistering a service removes all its instances, and no other.
pub view-deregister_service :
    (s : String) (d : Discovery) (t j : String)
    → view (deregister_service s d) t j ≡ (if s == t then none else view d t j)
unfolding deregister_service view
view-deregister_service s d t j = ground (arith, get-remove s t d.services)

-- A heartbeat answers by the status of the instance that it names: unknown, offline and refused, or
-- accepted and `Up` from `now` on. It changes no other view.
pub heartbeat_lem :
    (now : ℕ) (s k : String) (d : Discovery)
    → ((heartbeat now s k d).0 ≡ answer (view d s k))
      × ((t j : String)
          → view (heartbeat now s k d).1 t j
            ≡ (if s == t && k == j then revived now (view d s k) else view d t j))
unfolding heartbeat view
heartbeat_lem now s k d = elim (Option-cases (get s d.services)) [
  | inl e ↦ (
    unfold answer in ground arith,
    λ t j. unfold revived in ground (arith, eq_iff s t, eq_iff k j),
  )
  | inr (is, e) ↦ (
    ground (arith, beat-answer now k is),
    λ t j. ground (
      arith,
      get-insert s t (beat now k is).1 d.services,
      find_id-beat now k j is,
      eq_iff s t,
      eq_iff k j,
    ),
  )
]

-- What `offline` and `online` make of an instance.
unfoldable pub taken_down : Option ServiceInstance → Option ServiceInstance
taken_down none = none
taken_down (some i) = some (record i { status = InstanceStatus.offline })

unfoldable pub put_back : Option ServiceInstance → Option ServiceInstance
put_back none = none
put_back (some i) =
    if is_offline i.status then some (record i { status = InstanceStatus.ready }) else some i

find_id-offline :
    (k j : String) (is : List ServiceInstance)
    → find_id j
        (update_first (λ i. i.id == k) (λ i. record i { status = InstanceStatus.offline }) is)
      ≡ (if k == j then taken_down (find_id j is) else find_id j is)
unfolding update_first taken_down
find_id-offline k j [] = ground arith
find_id-offline k j (x ∷ is) =
    ground (arith, find_id-offline k j is, eq_iff x.id k, eq_iff k j, eq_iff x.id j)

find_id-online :
    (k j : String) (is : List ServiceInstance)
    → find_id j (
        update_first
          (λ i. i.id == k && is_offline i.status)
          (λ i. record i { status = InstanceStatus.ready })
          is)
      ≡ (if k == j then put_back (find_id j is) else find_id j is)
unfolding update_first put_back
find_id-online k j [] = ground arith
find_id-online k j (x ∷ is) =
    ground (arith, find_id-online k j is, eq_iff x.id k, eq_iff k j, eq_iff x.id j)

-- Taking an instance offline sets its status, whatever that was, and changes no other view.
pub view-offline :
    (s k : String) (d : Discovery) (t j : String)
    → view (offline s k d) t j ≡ (if s == t && k == j then taken_down (view d t j) else view d t j)
unfolding offline view
view-offline s k d t j = ground (
  arith,
  view-get_mut s (update_first (λ i. i.id == k) (λ i. record i { status = InstanceStatus.offline }))
      d t j (unfold update_first in refl),
  find_id-offline k j (unwrap_or (get s d.services) []),
  eq_iff s t,
)

-- Putting an instance online makes an offline one `Ready`, leaves any other status alone, and changes
-- no other view.
pub view-online :
    (s k : String) (d : Discovery) (t j : String)
    → view (online s k d) t j ≡ (if s == t && k == j then put_back (view d t j) else view d t j)
unfolding online view
view-online s k d t j = ground (
  arith,
  view-get_mut s
      (update_first (λ i. i.id == k && is_offline i.status)
        (λ i. record i { status = InstanceStatus.ready }))
      d t j (unfold update_first in refl),
  find_id-online k j (unwrap_or (get s d.services) []),
  eq_iff s t,
)

check_instance-id :
    (now timeout : ℕ) (i : ServiceInstance) → (check_instance now timeout i).id ≡ i.id
unfolding check_instance
check_instance-id now timeout i = ground arith

-- A tick of the heartbeat check acts on every instance by itself.
pub view-check_heartbeats :
    (now timeout : ℕ) (d : Discovery) (t j : String)
    → view (check_heartbeats now timeout d) t j
      ≡ elim (view d t j) [ none ↦ none | some i ↦ some (check_instance now timeout i) ]
unfolding check_heartbeats view
view-check_heartbeats now timeout d t j = elim (Option-cases (get t d.services)) [
  | inl e ↦ ground (arith, get-map_values t (map (check_instance now timeout)) d.services)
  | inr (is, e) ↦ ground (
    arith,
    get-map_values t (map (check_instance now timeout)) d.services,
    find_id-map (check_instance now timeout) j is (check_instance-id now timeout),
  )
]
