-- ===== src/Discovery/Registry.antt =====
-- `Discovery`, the instances of one namespace (conreg-server/src/discovery/discovery.rs, lines 106 to
-- 310). An operation takes the state and returns its result beside the new state. The two timer tasks
-- are `check_heartbeats` and `cleanup`, one call for each tick.
use conreg.Prelude.{
  ℕ, ◌+◌, String, Bool, true, none, some, List, [], ◌∷◌, ◌++◌, map, concat, to_string, leb, ◌==◌,
  string_eq, if◌then◌else◌, not, ◌&&◌, retain, Anyhow, ok, err, unwrap_or,
}
use conreg.DashMap.{DashMap, get, insert, remove, map_values}
use conreg.Discovery.Instance.{
  InstanceStatus, is_down, is_offline, ServiceInstance, HeartbeatResult, update_heartbeat,
  is_heartbeat_timeout, is_available,
}

pub record Discovery : Type 0 where
  pub services : DashMap String (List ServiceInstance)

unfoldable pub new : Discovery
new = record { services = [] }

-- the loop over the instances before anything is registered
unfoldable pub same_service : String → List ServiceInstance → Bool
same_service service_id [] = true
same_service service_id (i ∷ is) = i.service_id == service_id && same_service service_id is

unfoldable pub register_service :
    String → List ServiceInstance → Discovery → Anyhow (List ServiceInstance) × Discovery
unfolding same_service get insert
register_service service_id instances d =
    if same_service service_id instances
    then elim (get service_id d.services) [
      | none ↦ (ok instances, record { services = insert service_id instances d.services })
      | some old ↦ (ok old, d)
    ]
    else (err "The service_id of the registered service instances should be consistent", d)

unfoldable pub deregister_service : String → Discovery → Discovery
unfolding remove
deregister_service service_id d = record { services = remove service_id d.services }

-- `retain` of the other ids, then `push`
unfoldable pub replace : ServiceInstance → List ServiceInstance → List ServiceInstance
replace i is = retain (λ item. not (item.id == i.id)) is ++ (i ∷ [])

unfoldable pub register_instance : ServiceInstance → Discovery → ServiceInstance × Discovery
unfolding get insert replace
register_instance i d =
    let instances = unwrap_or (get i.service_id d.services) [] in
    (i, record { services = insert i.service_id (replace i instances) d.services })

-- `if let Some(service) = services.get_mut(service_id) { … }`
unfoldable pub get_mut :
    String → (List ServiceInstance → List ServiceInstance) → Discovery → Discovery
unfolding get insert
get_mut service_id f d = elim (get service_id d.services) [
  | none ↦ d
  | some is ↦ record { services = insert service_id (f is) d.services }
]

unfoldable pub deregister_instance : String → String → Discovery → Discovery
unfolding get_mut
deregister_instance service_id instance_id =
    get_mut service_id (retain (λ item. not (item.id == instance_id)))

-- `iter_mut().find(p)`, and a write to what is found
unfoldable pub update_first :
    (ServiceInstance → Bool)
    → (ServiceInstance → ServiceInstance)
    → List ServiceInstance
    → List ServiceInstance
update_first p f [] = []
update_first p f (i ∷ is) = if p i then f i ∷ is else i ∷ update_first p f is

unfoldable pub online : String → String → Discovery → Discovery
unfolding get_mut update_first
online service_id instance_id = get_mut service_id (
    update_first (λ i. i.id == instance_id && is_offline i.status)
      (λ i. record i { status = InstanceStatus.ready }))

unfoldable pub offline : String → String → Discovery → Discovery
unfolding get_mut update_first
offline service_id instance_id =
    get_mut service_id
      (update_first (λ i. i.id == instance_id) (λ i. record i { status = InstanceStatus.offline }))

unfoldable pub get_service_instances : String → Discovery → List ServiceInstance
unfolding get
get_service_instances service_id d = unwrap_or (get service_id d.services) []

unfoldable pub get_available_service_instances : String → Discovery → List ServiceInstance
unfolding get is_available
get_available_service_instances service_id d =
    retain is_available (unwrap_or (get service_id d.services) [])

-- The loop of `heartbeat` over the instances of a service.
unfoldable pub beat : ℕ → String → List ServiceInstance → HeartbeatResult × List ServiceInstance
unfolding update_heartbeat
beat now instance_id [] = (HeartbeatResult.no_instance_found, [])
beat now instance_id (i ∷ is) =
    let (r, rest) = beat now instance_id is in
    if i.id == instance_id
    then (if is_offline i.status then (HeartbeatResult.rejected, i ∷ is) else (
      HeartbeatResult.ok,
      record (update_heartbeat now i) { status = InstanceStatus.up } ∷ is,
    ))
    else (r, i ∷ rest)

unfoldable pub heartbeat : ℕ → String → String → Discovery → HeartbeatResult × Discovery
unfolding get insert beat
heartbeat now service_id instance_id d = elim (get service_id d.services) [
  | none ↦ (HeartbeatResult.no_instance_found, d)
  | some is ↦
      let (r, is') = beat now instance_id is in
      (r, record { services = insert service_id is' d.services })
]

-- What one tick of the heartbeat check does to an instance.
unfoldable pub check_instance : ℕ → ℕ → ServiceInstance → ServiceInstance
unfolding is_heartbeat_timeout to_string
check_instance now timeout i =
    if is_offline i.status
    then i
    else if leb 3 i.lost_heartbeats
    then record i { status = InstanceStatus.down }
    else if is_heartbeat_timeout now timeout i
    then record i {
      lost_heartbeats = i.lost_heartbeats + 1;
      status =
          InstanceStatus.sick
            (concat "lost heartbeats(" (concat (to_string (i.lost_heartbeats + 1)) ")"));
    }
    else i

unfoldable pub check_heartbeats : ℕ → ℕ → Discovery → Discovery
unfolding map_values check_instance
check_heartbeats now timeout d = record {
  services = map_values (map (check_instance now timeout)) d.services;
}

-- One tick of the cleanup timer.
unfoldable pub cleanup : Discovery → Discovery
unfolding map_values
cleanup d = record { services = map_values (retain (λ i. not (is_down i.status))) d.services }
