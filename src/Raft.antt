-- ===== src/Raft.antt =====
-- The requests that the nodes replicate (conreg-server/src/raft/mod.rs).
pub mod Rpc
pub mod Remote
pub mod Write
pub mod Commit
pub mod Membership
pub mod LogStore
pub mod Log
pub mod StateMachine
pub mod Snapshot
use conreg.Prelude.{ℕ, String, Option, List}
use conreg.Config.Entry.{ConfigEntry}
use conreg.Discovery.Instance.{ServiceInstance}
use conreg.Discovery.Service.{Service}
use conreg.Namespace.Entry.{Namespace}
use conreg.Values.{Value}

pub data RaftRequest : Type 0 where
  set : String → String → RaftRequest
  delete : String → RaftRequest
  set_config : ConfigEntry → RaftRequest
  update_config : ConfigEntry → RaftRequest
  delete_config : String → String → RaftRequest
  upsert_namespace : Namespace → RaftRequest
  delete_namespace : String → RaftRequest
  register_service : Service → RaftRequest
  deregister_service : String → String → RaftRequest
  register_service_instance : String → ServiceInstance → RaftRequest
  deregister_service_instance : String → String → String → RaftRequest
  heartbeat : String → String → String → RaftRequest
  cache_write : String → Value → Option ℕ → RaftRequest
  create_user : String → String → RaftRequest
  delete_user : String → RaftRequest
  update_user : String → Option String → Option (List String) → RaftRequest

pub record RaftResponse : Type 0 where
  pub value : Option String
