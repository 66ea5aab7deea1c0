-- ===== src/Api/Routes.antt =====
-- The requests that the routes take, and what runs for each: the route's guard, then its handler
-- (`routes` of the files api.rs, mounted in conreg-server/src/main.rs, lines 129 to 133). The routes of
-- the cluster, and those of archives (Api/Config, `export` and `import`), stand apart.
use conreg.Prelude.{ℕ, String, Bool, Option, some, List, ok}
use conreg.App.{App}
use conreg.Api.Config
use conreg.Api.Config.{UpsertConfigReq, Received}
use conreg.Api.Discovery
use conreg.Api.Discovery.{RegisterServiceInstanceReq}
use conreg.Api.Namespace
use conreg.Api.Namespace.{UpsertNamespaceReq}
use conreg.Api.Reply.{Server, PageRes, behind}
use conreg.Api.System
use conreg.Api.System.{UserInfo}
use conreg.Auth.Guard.{Outcome, UserPrincipal, require_login, admit}
use conreg.Config.Entry.{ConfigEntry}
use conreg.DashMap.{DashMap}
use conreg.Discovery.Instance.{ServiceInstance, HeartbeatResult}
use conreg.Discovery.Service.{Service}
use conreg.Namespace.Entry.{Namespace}
use conreg.Protocol.{Res}

-- What a request says about who sends it.
pub record Headers : Type 0 where
  pub token : Option String
  pub console : Bool
  pub ns_token : Option String

-- `/api/config`, `/api/namespace`, `/api/discovery` and `/api/system`
pub data Request : Type 0 where
  config_upsert : UpsertConfigReq → Request
  config_get config_delete : String → String → Request
  config_recover : ℕ → Request
  config_list : String → ℕ → ℕ → Option String → Request
  config_histories : String → String → ℕ → ℕ → Request
  config_watch : String → Received → Request
  namespace_upsert : UpsertNamespaceReq → Request
  namespace_delete : String → Request
  namespace_list : ℕ → ℕ → Request
  service_register : String → String → DashMap String String → Request
  service_deregister : String → String → Request
  service_list : String → ℕ → ℕ → Request
  instance_register : RegisterServiceInstanceReq → Request
  instance_deregister : String → String → String → Request
  instance_list instance_available : String → String → Request
  heartbeat instance_offline instance_online : String → String → String → Request
  login : String → String → Request
  update_password : String → Request
  logout : Request
  user_list : ℕ → ℕ → Request
  user_add : String → String → Request
  user_delete : String → Request
  user_update : String → Option String → Option (List String) → Request
  user_permissions : Request

pub data Body : Type 0 where
  nothing : Res (Unit {0}) → Body
  config : Res (Option ConfigEntry) → Body
  configs : Res (PageRes ConfigEntry) → Body
  changed : Res (Option String) → Body
  namespaces : Res (PageRes Namespace) → Body
  services : Res (PageRes Service) → Body
  registered : Res ServiceInstance → Body
  instances : Res (List ServiceInstance) → Body
  beat : Res HeartbeatResult → Body
  session : Res (String × String × List String) → Body
  users : Res (PageRes UserInfo) → Body
  permissions : Res (List String) → Body

abbrev body : {T : Type 0} → (T → Body) → T × App → Body × App
body f (r, s) = (f r, s)

abbrev unguarded : Body × App → Outcome Body × App
unguarded (b, s) = (Outcome.success b, s)

-- Behind the guard `NamespaceAuth`.
abbrev admitted : Outcome (Unit {0}) × App → (App → Body × App) → Outcome Body × App
admitted (Outcome.error status, s) handler = (Outcome.error status, s)
admitted (Outcome.success _, s) handler = unguarded (handler s)

-- Every argument before the request is the run's: the clock, a fresh id, a fresh token, and the database's
-- `LIKE`.
module _ (server : Server) (now fresh_id : ℕ) (fresh_token : String)
    (like : String → ConfigEntry → Bool) (headers : Headers) where
  -- A route that needs a user who is logged in.
  abbrev pub guarded : (UserPrincipal → App → Body × App) → App → Outcome Body × App
  guarded handler s =
      behind (require_login server.codec server.from_value now headers.token s) handler

  unfoldable pub serve : Request → App → Outcome Body × App
  unfolding require_login admit Config.watch Config.get Config.upsert Config.delete Config.recover
      Config.list Config.list_history Namespace.upsert Namespace.delete Namespace.list
      Discovery.register_service Discovery.deregister_service Discovery.list_service
      Discovery.register_instance Discovery.deregister_instance Discovery.list_instances
      Discovery.available Discovery.heartbeat Discovery.offline_instance Discovery.online_instance
      System.login System.update_password System.logout System.user_list System.user_create
      System.user_delete System.user_update System.get_permissions
  serve (Request.config_upsert req) s =
      guarded (λ u s. body Body.nothing (Config.upsert server fresh_id now req s)) s
  serve (Request.config_get namespace_id id) s =
      admitted
        (admit server.codec server.from_value now headers.console headers.token
          (some (ok namespace_id)) headers.ns_token s)
        (λ s. body Body.config (Config.get namespace_id id s))
  serve (Request.config_delete namespace_id id) s =
      guarded (λ u s. body Body.nothing (Config.delete server namespace_id id s)) s
  serve (Request.config_recover id_) s =
      guarded (λ u s. body Body.nothing (Config.recover server fresh_id now id_ s)) s
  serve (Request.config_list namespace_id page_num page_size filter) s =
      guarded (λ u s. (Body.configs (Config.list like namespace_id page_num page_size filter s), s))
        s
  serve (Request.config_histories namespace_id id page_num page_size) s =
      guarded (λ u s. (Body.configs (Config.list_history namespace_id id page_num page_size s), s))
        s
  serve (Request.config_watch namespace_id received) s =
      unguarded (Body.changed (Config.watch namespace_id received), s)
  serve (Request.namespace_upsert req) s =
      guarded (λ u s. body Body.nothing (Namespace.upsert server now req u s)) s
  serve (Request.namespace_delete id) s =
      guarded (λ u s. body Body.nothing (Namespace.delete server id s)) s
  serve (Request.namespace_list page_num page_size) s =
      guarded (λ u s. (Body.namespaces (Namespace.list server page_num page_size u s), s)) s
  serve (Request.service_register namespace_id service_id meta) s =
      guarded
        (λ u s.
          body Body.nothing (Discovery.register_service server now namespace_id service_id meta s))
        s
  serve (Request.service_deregister namespace_id service_id) s =
      guarded
        (λ u s. body Body.nothing (Discovery.deregister_service server namespace_id service_id s)) s
  serve (Request.service_list namespace_id page_num page_size) s =
      guarded
        (λ u s.
          (Body.services (Discovery.list_service server namespace_id page_num page_size s), s))
        s
  serve (Request.instance_register req) s =
      unguarded (body Body.registered (Discovery.register_instance server now req s))
  serve (Request.instance_deregister namespace_id service_id instance_id) s = unguarded (
      body Body.nothing
        (Discovery.deregister_instance server namespace_id service_id instance_id s))
  serve (Request.instance_list namespace_id service_id) s =
      unguarded (body Body.instances (Discovery.list_instances namespace_id service_id s))
  serve (Request.instance_available namespace_id service_id) s =
      unguarded (body Body.instances (Discovery.available namespace_id service_id s))
  serve (Request.heartbeat namespace_id service_id instance_id) s =
      unguarded
        (body Body.beat (Discovery.heartbeat server now namespace_id service_id instance_id s))
  serve (Request.instance_offline namespace_id service_id instance_id) s =
      unguarded
        (body Body.nothing (Discovery.offline_instance namespace_id service_id instance_id s))
  serve (Request.instance_online namespace_id service_id instance_id) s =
      unguarded
        (body Body.nothing (Discovery.online_instance namespace_id service_id instance_id s))
  serve (Request.login username password) s =
      unguarded (body Body.session (System.login server fresh_token username password s))
  serve (Request.update_password password) s =
      guarded (λ u s. body Body.nothing (System.update_password server password u s)) s
  serve Request.logout s = guarded (λ u s. body Body.nothing (System.logout server u s)) s
  serve (Request.user_list page_num page_size) s =
      guarded (λ u s. body Body.users (System.user_list server page_num page_size u s)) s
  serve (Request.user_add username password) s =
      guarded (λ u s. body Body.nothing (System.user_create server username password u s)) s
  serve (Request.user_delete username) s =
      guarded (λ u s. body Body.nothing (System.user_delete server username u s)) s
  serve (Request.user_update username password rights) s =
      guarded (λ u s. body Body.nothing (System.user_update server username password rights u s)) s
  serve Request.user_permissions s =
      guarded (λ u s. (Body.permissions (System.get_permissions server u s), s)) s
