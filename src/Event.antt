-- ===== src/Event.antt =====
-- The handler that applies a committed request to the node
-- (conreg-server/src/event/mod.rs, lines 42 to 238). An error is logged and dropped: the handler goes
-- on from the state that the request left. `now` is the node's clock when it applies the request.
pub mod Frame
pub mod Registration
use conreg.Prelude.{ℕ, String, List, [], ◌∷◌}
use conreg.DashMap.{DashMap}
use conreg.App.{App}
use conreg.Cache.Local
use conreg.Config.Manager.{insert_config, update_config, delete_config}
use conreg.Discovery.Manager
use conreg.Namespace.Manager.{upsert_namespace, delete_namespace}
use conreg.Raft.{RaftRequest}
use conreg.User.Manager.{Library, create_user, delete_user, update_user}

module _ (lib : Library) (to_json : DashMap String String → String) where
  unfoldable pub handle_raft_request : ℕ → RaftRequest → App → App
  unfolding insert_config update_config delete_config upsert_namespace delete_namespace
  handle_raft_request now (RaftRequest.set key value) s = s
  handle_raft_request now (RaftRequest.delete key) s = s
  handle_raft_request now (RaftRequest.set_config entry) s = (insert_config entry s).1
  handle_raft_request now (RaftRequest.delete_config namespace_id id) s =
      (delete_config namespace_id id s).1
  handle_raft_request now (RaftRequest.update_config entry) s = (update_config entry s).1
  handle_raft_request now (RaftRequest.upsert_namespace namespace) s =
      (upsert_namespace namespace s).1
  handle_raft_request now (RaftRequest.delete_namespace id) s = (delete_namespace id s).1
  handle_raft_request now (RaftRequest.register_service service) s =
      (Manager.register_service to_json now service s).1
  handle_raft_request now (RaftRequest.deregister_service namespace_id service_id) s =
      (Manager.deregister_service namespace_id service_id s).1
  handle_raft_request now (RaftRequest.register_service_instance namespace_id instance') s =
      (Manager.register_service_instance to_json now namespace_id instance' s).1
  handle_raft_request now
        (RaftRequest.deregister_service_instance namespace_id service_id instance_id) s =
      (Manager.deregister_instance namespace_id service_id instance_id s).1
  handle_raft_request now (RaftRequest.heartbeat namespace_id service_id instance_id) s =
      (Manager.heartbeat now namespace_id service_id instance_id s).1
  handle_raft_request now (RaftRequest.cache_write key value ttl) s = record s {
    cache = Local.insert now key value ttl s.cache;
  }
  handle_raft_request now (RaftRequest.create_user username password) s =
      (create_user lib now username password s).1
  handle_raft_request now (RaftRequest.delete_user username) s = (delete_user lib username s).1
  handle_raft_request now (RaftRequest.update_user username password permissions) s =
      (update_user lib username password permissions s).1

  -- The requests in the order in which they were sent to the bus, each with the time of its handling.
  unfoldable pub handle_events : List (ℕ × RaftRequest) → App → App
  handle_events [] s = s
  handle_events ((now, req) ∷ events) s = handle_events events (handle_raft_request now req s)
