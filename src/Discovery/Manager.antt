-- ===== src/Discovery/Manager.antt =====
-- `DiscoveryManager` (conreg-server/src/discovery/server/mod.rs, lines 64 to 399). A `Discovery` that
-- `try_get_discovery` returns shares its map with the manager's, so an operation on it is written
-- back under its namespace. `to_json` and `from_json` are serde_json on a service's metadata.
use conreg.Prelude.{
  ℕ, String, Bool, Option, none, some, List, [], ◌∷◌, ◌++◌, ◌==◌, string_eq, ◌&&◌, if◌then◌else◌,
  ok, err, length, retain, concat, unwrap_or, map, nat_eq,
}
use conreg.DashMap
use conreg.DashMap.{DashMap}
use conreg.Exec.{Exec, pure, modify, ◌>>=◌, ◌>>◌}
use conreg.Sql.{fetch_optional, update_where, delete_where, order_desc, page_of}
use conreg.App.{App, sync}
use conreg.Discovery.Instance.{ServiceInstance, HeartbeatResult}
use conreg.Discovery.Registry
use conreg.Discovery.Registry.{Discovery}
use conreg.Discovery.Service.{State, Service, ServiceRow}
use conreg.Namespace.Manager.{has_id}
use conreg.Raft.{RaftRequest}
use conreg.Raft.Write.{Cluster}

abbrev pub at_service : String → String → ServiceRow → Bool
at_service namespace_id service_id r = r.namespace_id == namespace_id && r.service_id == service_id

-- `DiscoveryManager::get_namespace` reads the table itself.
unfoldable pub get_namespace : String → App → Option String
get_namespace namespace_id s = elim (fetch_optional (has_id namespace_id) s.namespace) [
  | none ↦ none
  | some n ↦ some n.id
]

unfoldable pub put_discovery : String → Discovery → Exec App (Unit {0})
unfolding DashMap.insert
put_discovery namespace_id d =
    modify (λ s. record s { discoveries = DashMap.insert namespace_id d s.discoveries })

-- The first use of a namespace makes its `Discovery`, and starts its timers.
unfoldable pub try_get_discovery : String → Exec App Discovery
unfolding DashMap.get DashMap.insert get_namespace Registry.new
try_get_discovery namespace_id s = elim (DashMap.get namespace_id s.discoveries) [
  | some d ↦ (ok d, s)
  | none ↦ elim (get_namespace namespace_id s) [
    | none ↦ (err (concat "namespace [" (concat namespace_id "] not found")), s)
    | some _ ↦ (
      ok Registry.new,
      record s { discoveries = DashMap.insert namespace_id Registry.new s.discoveries },
    )
  ]
]

-- `update` leaves `create_time` alone, and `set meta = ?` writes null where there is no metadata.
unfoldable pub upsert_service :
    (DashMap String String → String)
    → ℕ
    → String
    → String
    → Option (DashMap String String)
    → Exec App (Unit {0})
upsert_service to_json now namespace_id service_id meta = modify (λ s.
    let meta_json : Option String = elim meta [ none ↦ none | some m ↦ some (to_json m) ] in
    if nat_eq.beq (length (retain (at_service namespace_id service_id) s.service)) 0
    then record s {
      service =
          s.service
          ++ (record {
            service_id = service_id;
            namespace_id = namespace_id;
            meta = meta_json;
            create_time = now;
            update_time = now;
          }
              ∷ []);
    }
    else record s {
      service =
          update_where (at_service namespace_id service_id)
            (λ r. record r { meta = meta_json; update_time = now }) s.service;
    })

unfoldable pub register_service :
    (DashMap String String → String) → ℕ → Service → Exec App (Unit {0})
unfolding upsert_service try_get_discovery Registry.register_service put_discovery
register_service to_json now service = do
  upsert_service to_json now service.namespace_id service.service_id (some service.meta)
  d ← try_get_discovery service.namespace_id
  put_discovery service.namespace_id (Registry.register_service service.service_id [] d).1

unfoldable pub deregister_service : String → String → Exec App (Unit {0})
unfolding try_get_discovery Registry.deregister_service put_discovery
deregister_service namespace_id service_id = do
  d ← try_get_discovery namespace_id
  put_discovery namespace_id (Registry.deregister_service service_id d)
  modify (λ s. record s { service = delete_where (at_service namespace_id service_id) s.service })

unfoldable pub register_service_instance :
    (DashMap String String → String) → ℕ → String → ServiceInstance → Exec App ServiceInstance
unfolding try_get_discovery Registry.register_instance put_discovery upsert_service
register_service_instance to_json now namespace_id instance' = do
  d ← try_get_discovery namespace_id
  put_discovery namespace_id (Registry.register_instance instance' d).1
  upsert_service to_json now namespace_id instance'.service_id none
  pure instance'

unfoldable pub deregister_instance : String → String → String → Exec App (Unit {0})
unfolding try_get_discovery Registry.deregister_instance put_discovery
deregister_instance namespace_id service_id instance_id = do
  d ← try_get_discovery namespace_id
  put_discovery namespace_id (Registry.deregister_instance service_id instance_id d)

unfoldable pub get_instances : String → String → Exec App (List ServiceInstance)
unfolding try_get_discovery Registry.get_service_instances
get_instances namespace_id service_id = do
  d ← try_get_discovery namespace_id
  pure (Registry.get_service_instances service_id d)

unfoldable pub get_available_instances : String → String → Exec App (List ServiceInstance)
unfolding try_get_discovery Registry.get_available_service_instances
get_available_instances namespace_id service_id = do
  d ← try_get_discovery namespace_id
  pure (Registry.get_available_service_instances service_id d)

unfoldable pub heartbeat : ℕ → String → String → String → Exec App HeartbeatResult
unfolding try_get_discovery Registry.heartbeat put_discovery
heartbeat now namespace_id service_id instance_id = do
  d ← try_get_discovery namespace_id
  put_discovery namespace_id (Registry.heartbeat now service_id instance_id d).1
  pure (Registry.heartbeat now service_id instance_id d).0

unfoldable pub offline : String → String → String → Exec App (Unit {0})
unfolding try_get_discovery Registry.offline put_discovery
offline namespace_id service_id instance_id = do
  d ← try_get_discovery namespace_id
  put_discovery namespace_id (Registry.offline service_id instance_id d)

unfoldable pub online : String → String → String → Exec App (Unit {0})
unfolding try_get_discovery Registry.online put_discovery
online namespace_id service_id instance_id = do
  d ← try_get_discovery namespace_id
  put_discovery namespace_id (Registry.online service_id instance_id d)

-- An instance after its way through the log as JSON: `#[serde(skip)]` leaves out two fields, which are read
-- back as their defaults, the epoch and 0.
abbrev pub through_log : ServiceInstance → ServiceInstance
through_log i = record i { last_heartbeat = 0; lost_heartbeats = 0 }

module _ (c : Cluster) where
  unfoldable pub register_service_and_sync :
      ℕ → String → String → DashMap String String → Exec App (Unit {0})
  unfolding try_get_discovery sync
  register_service_and_sync now namespace_id service_id meta = do
    d ← try_get_discovery namespace_id
    sync c "sync discovery error: " (
        RaftRequest.register_service (record {
          service_id = service_id;
          namespace_id = namespace_id;
          meta = meta;
          create_time = now;
          state = record { total_instances = 0; up_instances = 0 };
        }))

  unfoldable pub deregister_service_and_sync : String → String → Exec App (Unit {0})
  unfolding try_get_discovery sync
  deregister_service_and_sync namespace_id service_id = do
    d ← try_get_discovery namespace_id
    sync c "sync discovery error: " (RaftRequest.deregister_service namespace_id service_id)

  unfoldable pub register_service_instance_and_sync :
      String → ServiceInstance → Exec App ServiceInstance
  unfolding try_get_discovery sync
  register_service_instance_and_sync namespace_id instance' = do
    d ← try_get_discovery namespace_id
    sync c "sync discovery error: "
        (RaftRequest.register_service_instance namespace_id (through_log instance'))
    pure instance'

  unfoldable pub deregister_instance_and_sync : String → String → String → Exec App (Unit {0})
  unfolding try_get_discovery sync
  deregister_instance_and_sync namespace_id service_id instance_id = do
    d ← try_get_discovery namespace_id
    sync c "sync discovery error: "
        (RaftRequest.deregister_service_instance namespace_id service_id instance_id)

  unfoldable pub heartbeat_and_sync : ℕ → String → String → String → Exec App HeartbeatResult
  unfolding try_get_discovery heartbeat sync
  heartbeat_and_sync now namespace_id service_id instance_id = do
    d ← try_get_discovery namespace_id
    res ← heartbeat now namespace_id service_id instance_id
    sync c "sync discovery error: " (RaftRequest.heartbeat namespace_id service_id instance_id)
    pure res

-- The counts of a listed service: none while the namespace has no `Discovery`.
unfoldable pub state_of : Option Discovery → String → State
unfolding Registry.get_service_instances Registry.get_available_service_instances
state_of none service_id = record { total_instances = 0; up_instances = 0 }
state_of (some d) service_id = record {
  total_instances = length (Registry.get_service_instances service_id d);
  up_instances = length (Registry.get_available_service_instances service_id d);
}

unfoldable pub from_row : (String → Option (DashMap String String)) → State → ServiceRow → Service
from_row from_json state r = record {
  service_id = r.service_id;
  namespace_id = r.namespace_id;
  meta = elim r.meta [ none ↦ [] | some text ↦ unwrap_or (from_json text) [] ];
  create_time = r.create_time;
  state = state;
}

unfoldable pub list_services :
    (String → Option (DashMap String String)) → String → ℕ → ℕ → App → ℕ × List Service
unfolding order_desc page_of state_of from_row DashMap.get
list_services from_json namespace_id page_num page_size s =
    let rows = retain (λ r. r.namespace_id == namespace_id) s.service in
    (
      length rows,
      map
          (λ r.
            from_row from_json (state_of (DashMap.get namespace_id s.discoveries) r.service_id) r)
          (page_of page_num page_size (order_desc (λ r. r.create_time) rows)),
    )
