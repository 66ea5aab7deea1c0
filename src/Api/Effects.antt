-- ===== src/Api/Effects.antt =====
-- What the routes let a user who is logged in do: those of the users are the administrator's
-- (conreg-server/src/system/api.rs), and that of a namespace's change looks at the user's right last
-- (conreg-server/src/namespace/server/api.rs).
use conreg.Prelude.{
  ℕ, String, Bool, true, false, ok, [], ◌∷◌, ◌++◌, ◌≡◌, ◌≢◌, arith, eq_iff, if◌then◌else◌,
}
use conreg.App.{App, sync}
use conreg.Api.Namespace
use conreg.Api.Namespace.{UpsertNamespaceReq, submit, grant}
use conreg.Api.Reply.{Server}
use conreg.Api.Routes.{Headers, Request, Body, serve}
use conreg.Api.System
use conreg.Auth.Guard.{Outcome, UserPrincipal, require_login}
use conreg.Config.Entry.{ConfigEntry}
use conreg.Namespace.Manager.{exists_namespace, upsert_namespace_and_sync}
use conreg.Protocol.{error, success, is_success}
use conreg.Raft.{RaftRequest}
use conreg.Raft.Write.{raft_write}
use conreg.User.Manager.{admin_username, check_ns_permission}
use conreg.User.Permission.{UserPermission}

-- The routes of the users that ask for the administrator.
unfoldable pub is_admin_only : Request → Bool
is_admin_only (Request.user_list page_num page_size) = true
is_admin_only (Request.user_add username password) = true
is_admin_only (Request.user_delete username) = true
is_admin_only (Request.user_update username password rights) = true
is_admin_only _ = false

-- The answer to a user who is not the administrator.
unfoldable pub refusal : Request → Body
refusal (Request.user_list page_num page_size) = Body.users (error "No permission")
refusal _ = Body.nothing (error "No permission")

-- The request that a change of a namespace hands to Raft.
unfoldable pub namespace_change : ℕ → UpsertNamespaceReq → RaftRequest
namespace_change now req = RaftRequest.upsert_namespace (record {
  id = req.id;
  name = req.name;
  description = req.description;
  is_auth = req.is_auth;
  auth_token = req.auth_token;
  create_time = now;
  update_time = now;
})

module _ (server : Server) (now : ℕ) (s : App) where
  -- A change of a namespace that exists is handed to Raft whatever the rights of the user. Where Raft
  -- takes it, only the answer depends on the user's right to write the namespace.
  pub upsert-existing :
      (s' : App) (req : UpsertNamespaceReq) (user : UserPrincipal)
      → exists_namespace req.id s ≡ (ok true, s')
      → is_success (raft_write server.cluster (namespace_change now req)) ≡ true
      → Namespace.upsert server now req user s ≡ (
        if check_ns_permission server.library user.username (UserPermission.read_write_ns req.id) s'
            then success tt
            else error "no permission",
        record s' { submitted = s'.submitted ++ (namespace_change now req ∷ []) },
      )
  unfolding Namespace.upsert submit grant upsert_namespace_and_sync sync namespace_change
      check_ns_permission
  upsert-existing s' req user found taken = ground (arith, found, taken)

  module _ (headers : Headers) (fresh_id : ℕ) (fresh_token : String)
      (like : String → ConfigEntry → Bool) (s' : App) (user : UserPrincipal) where
    -- A user who is logged in and is not the administrator can neither list, add, delete nor change
    -- users: the answer says so, and nothing changes after the guard.
    pub serve-not_admin :
        (r : Request)
        → is_admin_only r ≡ true
        → require_login server.codec server.from_value now headers.token s
          ≡ (Outcome.success user, s')
        → user.username ≢ admin_username
        → serve server now fresh_id fresh_token like headers r s ≡ (Outcome.success (refusal r), s')
    unfolding serve is_admin_only refusal System.user_list System.user_create System.user_delete
        System.user_update
    serve-not_admin (Request.config_upsert req) e login other = absurd (ground (arith, e))
    serve-not_admin (Request.config_get namespace_id id) e login other = absurd (ground (arith, e))
    serve-not_admin (Request.config_delete namespace_id id) e login other =
        absurd (ground (arith, e))
    serve-not_admin (Request.config_recover id_) e login other = absurd (ground (arith, e))
    serve-not_admin (Request.config_list namespace_id page_num page_size filter) e login other =
        absurd (ground (arith, e))
    serve-not_admin (Request.config_histories namespace_id id page_num page_size) e login other =
        absurd (ground (arith, e))
    serve-not_admin (Request.config_watch namespace_id received) e login other =
        absurd (ground (arith, e))
    serve-not_admin (Request.namespace_upsert req) e login other = absurd (ground (arith, e))
    serve-not_admin (Request.namespace_delete id) e login other = absurd (ground (arith, e))
    serve-not_admin (Request.namespace_list page_num page_size) e login other =
        absurd (ground (arith, e))
    serve-not_admin (Request.service_register namespace_id service_id meta) e login other =
        absurd (ground (arith, e))
    serve-not_admin (Request.service_deregister namespace_id service_id) e login other =
        absurd (ground (arith, e))
    serve-not_admin (Request.service_list namespace_id page_num page_size) e login other =
        absurd (ground (arith, e))
    serve-not_admin (Request.instance_register req) e login other = absurd (ground (arith, e))
    serve-not_admin (Request.instance_deregister namespace_id service_id instance_id) e login
          other =
        absurd (ground (arith, e))
    serve-not_admin (Request.instance_list namespace_id service_id) e login other =
        absurd (ground (arith, e))
    serve-not_admin (Request.instance_available namespace_id service_id) e login other =
        absurd (ground (arith, e))
    serve-not_admin (Request.heartbeat namespace_id service_id instance_id) e login other =
        absurd (ground (arith, e))
    serve-not_admin (Request.instance_offline namespace_id service_id instance_id) e login other =
        absurd (ground (arith, e))
    serve-not_admin (Request.instance_online namespace_id service_id instance_id) e login other =
        absurd (ground (arith, e))
    serve-not_admin (Request.login username password) e login other = absurd (ground (arith, e))
    serve-not_admin (Request.update_password password) e login other = absurd (ground (arith, e))
    serve-not_admin Request.logout e login other = absurd (ground (arith, e))
    serve-not_admin (Request.user_list page_num page_size) e login other =
        ground (arith, login, other, eq_iff user.username admin_username)
    serve-not_admin (Request.user_add username password) e login other =
        ground (arith, login, other, eq_iff user.username admin_username)
    serve-not_admin (Request.user_delete username) e login other =
        ground (arith, login, other, eq_iff user.username admin_username)
    serve-not_admin (Request.user_update username password rights) e login other =
        ground (arith, login, other, eq_iff user.username admin_username)
    serve-not_admin Request.user_permissions e login other = absurd (ground (arith, e))
