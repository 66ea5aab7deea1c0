-- ===== src/Api/Discovery.antt =====
-- The routes of the registry (conreg-server/src/discovery/server/api.rs). Taking an instance offline or
-- online changes the node that is asked, and goes to no other.
use conreg.Prelude.{ℕ, String, List}
use conreg.App.{App}
use conreg.Api.Reply.{Server, PageRes, page, respond}
use conreg.DashMap.{DashMap}
use conreg.Discovery.Instance
use conreg.Discovery.Instance.{ServiceInstance, HeartbeatResult}
use conreg.Discovery.Manager
use conreg.Discovery.Service.{Service}
use conreg.Protocol.{Res, success}

pub record RegisterServiceInstanceReq : Type 0 where
  pub namespace_id : String
  pub service_id : String
  pub ip : String
  pub port : ℕ
  pub meta : DashMap String String

-- `ServiceInstance::from`
unfoldable pub to_instance : (String → String) → ℕ → RegisterServiceInstanceReq → ServiceInstance
unfolding Instance.new
to_instance md5_hex now req = Instance.new md5_hex now req.service_id req.ip req.port req.meta

unfoldable pub list_instances : String → String → App → Res (List ServiceInstance) × App
unfolding Manager.get_instances
list_instances namespace_id service_id s = respond (Manager.get_instances namespace_id service_id s)

unfoldable pub available : String → String → App → Res (List ServiceInstance) × App
unfolding Manager.get_available_instances
available namespace_id service_id s =
    respond (Manager.get_available_instances namespace_id service_id s)

unfoldable pub offline_instance : String → String → String → App → Res (Unit {0}) × App
unfolding Manager.offline
offline_instance namespace_id service_id instance_id s =
    respond (Manager.offline namespace_id service_id instance_id s)

unfoldable pub online_instance : String → String → String → App → Res (Unit {0}) × App
unfolding Manager.online
online_instance namespace_id service_id instance_id s =
    respond (Manager.online namespace_id service_id instance_id s)

module _ (server : Server) where
  unfoldable pub register_service :
      ℕ → String → String → DashMap String String → App → Res (Unit {0}) × App
  unfolding Manager.register_service_and_sync
  register_service now namespace_id service_id meta s =
      respond (Manager.register_service_and_sync server.cluster now namespace_id service_id meta s)

  unfoldable pub deregister_service : String → String → App → Res (Unit {0}) × App
  unfolding Manager.deregister_service_and_sync
  deregister_service namespace_id service_id s =
      respond (Manager.deregister_service_and_sync server.cluster namespace_id service_id s)

  unfoldable pub list_service : String → ℕ → ℕ → App → Res (PageRes Service)
  unfolding success page Manager.list_services
  list_service namespace_id page_num page_size s = success (
      page page_num page_size
        (Manager.list_services server.meta_from_json namespace_id page_num page_size s))

  unfoldable pub register_instance :
      ℕ → RegisterServiceInstanceReq → App → Res ServiceInstance × App
  unfolding Manager.register_service_instance_and_sync to_instance
  register_instance now req s = respond (
      Manager.register_service_instance_and_sync server.cluster req.namespace_id
        (to_instance server.md5_hex now req) s)

  unfoldable pub deregister_instance : String → String → String → App → Res (Unit {0}) × App
  unfolding Manager.deregister_instance_and_sync
  deregister_instance namespace_id service_id instance_id s =
      respond
        (Manager.deregister_instance_and_sync server.cluster namespace_id service_id instance_id s)

  unfoldable pub heartbeat : ℕ → String → String → String → App → Res HeartbeatResult × App
  unfolding Manager.heartbeat_and_sync
  heartbeat now namespace_id service_id instance_id s =
      respond (Manager.heartbeat_and_sync server.cluster now namespace_id service_id instance_id s)
