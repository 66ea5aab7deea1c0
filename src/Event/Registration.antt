-- ===== src/Event/Registration.antt =====
-- The way of a registration: from the route (conreg-server/src/discovery/server/api.rs) through the log to
-- the registry of a node (conreg-server/src/event/mod.rs), up to the first tick of the heartbeat check
-- (conreg-server/src/discovery/discovery.rs).
use conreg.Prelude.{
  ℕ, ◌-◌, ◌<◌, ◌≤◌, String, Option, some, [], ◌∷◌, ◌++◌, ◌≡◌, arith, ◌==◌, ◌&&◌, string_eq, eq_iff,
  if◌then◌else◌, to_string,
}
use conreg.Api.Discovery.{RegisterServiceInstanceReq, to_instance, register_instance}
use conreg.Api.Reply.{Server}
use conreg.App.{App, sync}
use conreg.DashMap
use conreg.DashMap.{DashMap, get-insert_self}
use conreg.Discovery.Effects.{heartbeat_lem, view-register_instance, view-check_heartbeats}
use conreg.Discovery.Instance
use conreg.Discovery.Instance.{ServiceInstance, InstanceStatus}
use conreg.Discovery.Manager
use conreg.Discovery.Registry
use conreg.Discovery.Registry.{Discovery, check_heartbeats, heartbeat, check_instance}
use conreg.Discovery.View.{view, revived}
use conreg.Event.{handle_raft_request}
use conreg.Raft.{RaftRequest}
use conreg.User.Manager.{Library}

-- What arrives of an instance that was registered at any time: its last heartbeat is the epoch.
abbrev pub arrived : (String → String) → RegisterServiceInstanceReq → ServiceInstance
arrived md5_hex req = record {
  id = Instance.generate_id md5_hex req.ip req.port;
  service_id = req.service_id;
  ip = req.ip;
  port = req.port;
  status = InstanceStatus.ready;
  meta = req.meta;
  last_heartbeat = 0;
  lost_heartbeats = 0;
}

abbrev pub request : (String → String) → RegisterServiceInstanceReq → RaftRequest
request md5_hex req = RaftRequest.register_service_instance req.namespace_id (arrived md5_hex req)

module _ (server : Server) (req : RegisterServiceInstanceReq) where
  pub register_instance-submitted :
      (asked : ℕ) (s : App) (d : Discovery)
      → DashMap.get req.namespace_id s.discoveries ≡ some d
      → (register_instance server asked req s).1.submitted
        ≡ s.submitted ++ (request server.md5_hex req ∷ [])
  unfolding register_instance Manager.register_service_instance_and_sync Manager.try_get_discovery
      sync to_instance Instance.new
  register_instance-submitted asked s d h = ground (arith, h)

  pub register_instance-discoveries :
      (asked : ℕ) (s : App) (d : Discovery)
      → DashMap.get req.namespace_id s.discoveries ≡ some d
      → (register_instance server asked req s).1.discoveries ≡ s.discoveries
  unfolding register_instance Manager.register_service_instance_and_sync Manager.try_get_discovery
      sync
  register_instance-discoveries asked s d h = ground (arith, h)

  module _ (lib : Library) (to_json : DashMap String String → String) (handled : ℕ) (t : App)
      (e : Discovery) where
    register_instance-kept :
        DashMap.get req.namespace_id t.discoveries ≡ some e
        → DashMap.get req.namespace_id
            (handle_raft_request lib to_json handled (request server.md5_hex req) t).discoveries
          ≡ some (Registry.register_instance (arrived server.md5_hex req) e).1
    unfolding handle_raft_request Manager.register_service_instance Manager.try_get_discovery
        Manager.put_discovery Manager.upsert_service
    register_instance-kept h = ground (
      arith,
      h,
      get-insert_self req.namespace_id (Registry.register_instance (arrived server.md5_hex req) e).1
          t.discoveries,
    )

  -- In a registry that has just taken what arrived.
  module _ (e : Discovery) (now timeout : ℕ) where
    abbrev holding : Discovery
    holding = (Registry.register_instance (arrived server.md5_hex req) e).1

    abbrev own : Discovery → Option ServiceInstance
    own d = view d req.service_id (arrived server.md5_hex req).id

    own-holding : own holding ≡ some (arrived server.md5_hex req)
    own-holding =
        let i = arrived server.md5_hex req in
        ground (
          arith,
          view-register_instance i e req.service_id i.id,
          eq_iff req.service_id req.service_id,
          eq_iff i.id i.id,
        )

    check-late :
        timeout < now
        → own (check_heartbeats now timeout holding)
          ≡ some (record (arrived server.md5_hex req) {
            lost_heartbeats = 1;
            status = InstanceStatus.sick "lost heartbeats(1)";
          })
    unfolding check_instance Instance.is_heartbeat_timeout Instance.new to_string
    check-late late = ground (
      arith,
      late,
      own-holding,
      view-check_heartbeats now timeout holding req.service_id (arrived server.md5_hex req).id,
    )

    check-beaten :
        (beat : ℕ)
        → now - beat ≤ timeout
        → own (
            check_heartbeats now timeout
              (heartbeat beat req.service_id (arrived server.md5_hex req).id holding).1)
          ≡ some (record (arrived server.md5_hex req) {
            last_heartbeat = beat;
            status = InstanceStatus.up;
          })
    unfolding check_instance Instance.is_heartbeat_timeout Instance.new revived
        Instance.update_heartbeat
    check-beaten beat fresh =
        let i = arrived server.md5_hex req in
        let d = (heartbeat beat req.service_id i.id holding).1 in
        ground (
          arith,
          fresh,
          own-holding,
          (heartbeat_lem beat req.service_id i.id holding).1 req.service_id i.id,
          eq_iff req.service_id req.service_id,
          eq_iff i.id i.id,
          view-check_heartbeats now timeout d req.service_id i.id,
        )

  -- A registration at a node with a registry of the namespace submits the instance without the time at which
  -- it was registered. A node with a registry of the namespace that handles the request then holds, under its
  -- service and id, the instance with the epoch for its last heartbeat, and every other instance as before. A
  -- tick of the heartbeat check that comes before a heartbeat makes the instance `Sick`, with a lost heartbeat
  -- counted, however short ago it was registered, if only the timeout is shorter than the time since the
  -- epoch; a tick at most the timeout after a heartbeat finds it `Up`, and counts none.
  pub register_instance-arrives :
      (lib : Library) (to_json : DashMap String String → String)
      (asked handled beat now timeout : ℕ) (s t : App) (d e : Discovery)
      → DashMap.get req.namespace_id s.discoveries ≡ some d
      → DashMap.get req.namespace_id t.discoveries ≡ some e
      → timeout < now
      → now - beat ≤ timeout
      → ((register_instance server asked req s).1.submitted
          ≡ s.submitted ++ (request server.md5_hex req ∷ []))
        × (e' : Discovery) × (DashMap.get req.namespace_id
              (handle_raft_request lib to_json handled (request server.md5_hex req) t).discoveries
            ≡ some e')
        × ((v j : String)
            → view e' v j ≡ (
                if req.service_id == v && (arrived server.md5_hex req).id == j
                then some (arrived server.md5_hex req)
                else view e v j))
        × (view (check_heartbeats now timeout e') req.service_id (arrived server.md5_hex req).id
            ≡ some (record (arrived server.md5_hex req) {
              lost_heartbeats = 1;
              status = InstanceStatus.sick "lost heartbeats(1)";
            }))
        × (view
              (check_heartbeats now timeout
                (heartbeat beat req.service_id (arrived server.md5_hex req).id e').1)
              req.service_id
              (arrived server.md5_hex req).id
            ≡ some (record (arrived server.md5_hex req) {
              last_heartbeat = beat;
              status = InstanceStatus.up;
            }))
  register_instance-arrives lib to_json asked handled beat now timeout s t d e h k late fresh = (
    register_instance-submitted asked s d h,
    holding e now timeout,
    register_instance-kept lib to_json handled t e k,
    view-register_instance (arrived server.md5_hex req) e,
    check-late e now timeout late,
    check-beaten e now timeout beat fresh,
  )
