-- ===== src/Api/Login.antt =====
-- A request without a session, on the routes that need one (conreg-server/src/auth/mod.rs and the files
-- api.rs).
use conreg.Prelude.{ℕ, String, Bool, true, false, List, none, some, ◌≡◌, refl, ap, arith}
use conreg.App.{App}
use conreg.Api.Config
use conreg.Api.Reply.{Server, behind}
use conreg.Api.Routes.{Headers, Request, Body, serve, guarded}
use conreg.Auth.Guard.{Outcome, Status, UserPrincipal, require_login}
use conreg.Cache.Local
use conreg.Cache.Local.{LocalCache}
use conreg.Config.Entry.{ConfigEntry}
use conreg.Config.Transfer.{Archiver}
use conreg.User.Manager.{token_key}

-- The routes whose handler takes a `UserPrincipal`.
unfoldable pub needs_login : Request → Bool
needs_login (Request.config_get namespace_id id) = false
needs_login (Request.config_watch namespace_id received) = false
needs_login (Request.instance_register req) = false
needs_login (Request.instance_deregister namespace_id service_id instance_id) = false
needs_login (Request.instance_list namespace_id service_id) = false
needs_login (Request.instance_available namespace_id service_id) = false
needs_login (Request.heartbeat namespace_id service_id instance_id) = false
needs_login (Request.instance_offline namespace_id service_id instance_id) = false
needs_login (Request.instance_online namespace_id service_id instance_id) = false
needs_login (Request.login username password) = false
needs_login _ = true

-- The request carries no token, or one that the node's cache holds no session for.
pub data IsAnonymous (server : Server) (now : ℕ) (headers : Headers) (s : App) : Type 0 where
  no_token : headers.token ≡ none → IsAnonymous server now headers s
  no_session :
      (token : String)
      → headers.token ≡ some token
      → (Local.get server.codec now (token_key token) s.cache).0 ≡ none
      → IsAnonymous server now headers s

-- What a request without a session gets: the status, and no change but in the local cache.
abbrev pub Rejected : {T : Type 0} → Outcome T × App → App → Type 0
Rejected answer s =
    (cache : LocalCache) × (answer
      ≡ (Outcome.error Status.unauthorized, record s { cache = cache }))

module _ (server : Server) (now : ℕ) (headers : Headers) (s : App) where
  require_login-anonymous :
      IsAnonymous server now headers s
      → (cache : LocalCache) × (require_login server.codec server.from_value now headers.token s
          ≡ (Outcome.error Status.unauthorized, record s { cache = cache }))
  unfolding require_login
  require_login-anonymous (no_token e) = (s.cache, ground (arith, e))
  require_login-anonymous (no_session token e missing) =
      ((Local.get server.codec now (token_key token) s.cache).1, ground (arith, e, missing))

  module _ (fresh_id : ℕ) (fresh_token : String) (like : String → ConfigEntry → Bool) where
    -- A route behind the guard `UserPrincipal`, its handler whichever.
    guarded-anonymous :
        (handler : UserPrincipal → App → Body × App)
        → IsAnonymous server now headers s
        → Rejected (guarded server now fresh_id fresh_token like headers handler s) s
    guarded-anonymous handler a =
        let (cache, e) = require_login-anonymous a in (cache, ap (λ o. behind o handler) e)

    -- Each route of `serve` that needs a session.
    serve-Rejected :
        (r : Request)
        → needs_login r ≡ true
        → IsAnonymous server now headers s
        → Rejected (serve server now fresh_id fresh_token like headers r s) s
    unfolding serve needs_login
    serve-Rejected (Request.config_upsert req) e a = guarded-anonymous _ a
    serve-Rejected (Request.config_get namespace_id id) e a = absurd (ground (arith, e))
    serve-Rejected (Request.config_delete namespace_id id) e a = guarded-anonymous _ a
    serve-Rejected (Request.config_recover id_) e a = guarded-anonymous _ a
    serve-Rejected (Request.config_list namespace_id page_num page_size filter) e a =
        guarded-anonymous _ a
    serve-Rejected (Request.config_histories namespace_id id page_num page_size) e a =
        guarded-anonymous _ a
    serve-Rejected (Request.config_watch namespace_id received) e a = absurd (ground (arith, e))
    serve-Rejected (Request.namespace_upsert req) e a = guarded-anonymous _ a
    serve-Rejected (Request.namespace_delete id) e a = guarded-anonymous _ a
    serve-Rejected (Request.namespace_list page_num page_size) e a = guarded-anonymous _ a
    serve-Rejected (Request.service_register namespace_id service_id meta) e a =
        guarded-anonymous _ a
    serve-Rejected (Request.service_deregister namespace_id service_id) e a = guarded-anonymous _ a
    serve-Rejected (Request.service_list namespace_id page_num page_size) e a =
        guarded-anonymous _ a
    serve-Rejected (Request.instance_register req) e a = absurd (ground (arith, e))
    serve-Rejected (Request.instance_deregister namespace_id service_id instance_id) e a =
        absurd (ground (arith, e))
    serve-Rejected (Request.instance_list namespace_id service_id) e a = absurd (ground (arith, e))
    serve-Rejected (Request.instance_available namespace_id service_id) e a =
        absurd (ground (arith, e))
    serve-Rejected (Request.heartbeat namespace_id service_id instance_id) e a =
        absurd (ground (arith, e))
    serve-Rejected (Request.instance_offline namespace_id service_id instance_id) e a =
        absurd (ground (arith, e))
    serve-Rejected (Request.instance_online namespace_id service_id instance_id) e a =
        absurd (ground (arith, e))
    serve-Rejected (Request.login username password) e a = absurd (ground (arith, e))
    serve-Rejected (Request.update_password password) e a = guarded-anonymous _ a
    serve-Rejected Request.logout e a = guarded-anonymous _ a
    serve-Rejected (Request.user_list page_num page_size) e a = guarded-anonymous _ a
    serve-Rejected (Request.user_add username password) e a = guarded-anonymous _ a
    serve-Rejected (Request.user_delete username) e a = guarded-anonymous _ a
    serve-Rejected (Request.user_update username password rights) e a = guarded-anonymous _ a
    serve-Rejected Request.user_permissions e a = guarded-anonymous _ a

    -- On every route that takes a `UserPrincipal`, the export and the import of configurations among them, a
    -- request without a session is answered with 401 Unauthorized, and the handler does not run: no table, no
    -- cache of a manager and no submitted request changes. The cluster's routes take none.
    pub serve-anonymous :
        (r : Request) (archiver : Archiver) (fresh clock : ℕ → ℕ) (namespace_id file : String)
        (ids : List String) (is_all is_overwrite : Bool)
        → needs_login r ≡ true
        → IsAnonymous server now headers s
        → Rejected (serve server now fresh_id fresh_token like headers r s) s
          × Rejected (Config.export server archiver now headers.token namespace_id ids is_all s) s
          × Rejected
              (Config.import server archiver now headers.token fresh clock namespace_id file
                is_overwrite s)
              s
    unfolding Config.export Config.import
    serve-anonymous r archiver fresh clock namespace_id file ids is_all is_overwrite e a =
        let (cache, login) = require_login-anonymous a in
        (serve-Rejected r e a, (cache, rw login refl), (cache, rw login refl))
