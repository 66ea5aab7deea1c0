-- ===== src/Api/Config.antt =====
-- The routes of the configuration centre (conreg-server/src/config/server/api.rs).
use conreg.Prelude.{
  ℕ, String, List, ok, err, Bool, true, Option, none, some, ◌==◌, string_eq, if◌then◌else◌,
}
use conreg.App.{App}
use conreg.Api.Reply.{Server, PageRes, page, respond, behind}
use conreg.Config.Entry.{ConfigEntry, ConfigChangeEvent}
use conreg.Auth.Guard.{Outcome, Status, require_login}
use conreg.Config.Transfer
use conreg.Config.Transfer.{Archiver}
use conreg.Config.Manager.{
  get_config, upsert_config_and_sync, delete_config_and_sync, recovery, list_configs_with_page,
  list_config_history_with_page,
}
use conreg.Protocol.{Res, success}

pub record UpsertConfigReq : Type 0 where
  pub namespace_id : String
  pub id : String
  pub content : String
  pub description : Option String
  pub format : String

-- What the subscription of a watcher gives it within 29 seconds: nothing, an event, or the end of the
-- channel (or that it lagged behind).
pub data Received : Type 0 where
  timeout closed : Received
  event : ConfigChangeEvent → Received

-- A watcher is answered at the first event, also at one of another namespace, for which it is told
-- that nothing changed.
unfoldable pub watch : String → Received → Res (Option String)
unfolding success
watch namespace_id Received.timeout = success none
watch namespace_id Received.closed = success none
watch namespace_id (Received.event e) =
    if e.namespace_id == namespace_id then success (some e.config_id) else success none

unfoldable pub get : String → String → App → Res (Option ConfigEntry) × App
unfolding get_config
get namespace_id id s = respond (get_config namespace_id id s)

module _ (server : Server) where
  unfoldable pub upsert : ℕ → ℕ → UpsertConfigReq → App → Res (Unit {0}) × App
  unfolding upsert_config_and_sync
  upsert id_ now req s = respond (
      upsert_config_and_sync server.cluster server.md5_hex server.debug id_ now req.namespace_id
        req.id req.content req.description req.format s)

  unfoldable pub delete : String → String → App → Res (Unit {0}) × App
  unfolding delete_config_and_sync
  delete namespace_id id s =
      respond (delete_config_and_sync server.cluster server.md5_hex server.debug namespace_id id s)

  unfoldable pub recover : ℕ → ℕ → ℕ → App → Res (Unit {0}) × App
  unfolding recovery
  recover new_id now id_ s =
      respond (recovery server.cluster server.md5_hex server.debug new_id now id_ s)

-- `like` is the `LIKE` of a filter on id and content; an empty filter is none.
abbrev pub filtered : (String → ConfigEntry → Bool) → Option String → ConfigEntry → Bool
filtered like none e = true
filtered like (some filter) e = if filter == "" then true else like filter e

unfoldable pub list :
    (String → ConfigEntry → Bool) → String → ℕ → ℕ → Option String → App → Res (PageRes ConfigEntry)
unfolding success page list_configs_with_page
list like namespace_id page_num page_size filter_text s = success (
    page page_num page_size
      (list_configs_with_page namespace_id page_num page_size (filtered like filter_text) s))

unfoldable pub list_history : String → String → ℕ → ℕ → App → Res (PageRes ConfigEntry)
unfolding success page list_config_history_with_page
list_history namespace_id id page_num page_size s =
    success
      (page page_num page_size (list_config_history_with_page namespace_id id page_num page_size s))

-- A status is an answer of the handler too.
abbrev flat : {T : Type 0} → Outcome (Outcome T) × App → Outcome T × App
flat (Outcome.error status, s) = (Outcome.error status, s)
flat (Outcome.success o, s) = (o, s)

-- The two routes of archives, behind the guard `UserPrincipal` at the time `now` with the request's token; a
-- request's file is its text. The steps of an import have their own clock and ids.
module _ (server : Server) (a : Archiver) (now : ℕ) (token : Option String) where
  unfoldable pub export : String → List String → Bool → App → Outcome String × App
  unfolding Transfer.export require_login
  export namespace_id ids is_all s = flat (
      behind (require_login server.codec server.from_value now token s) (λ u t.
        let (res, t') = Transfer.export a namespace_id ids is_all t in
        elim res [
          | ok bytes ↦ (Outcome.success bytes, t')
          | err e ↦ (Outcome.error Status.internal_server_error, t')
        ]))

  unfoldable pub import :
      (ℕ → ℕ) → (ℕ → ℕ) → String → String → Bool → App → Outcome (Res (Unit {0})) × App
  unfolding Transfer.import require_login
  import fresh clock namespace_id file is_overwrite s =
      behind (require_login server.codec server.from_value now token s) (λ u t. respond (
        Transfer.import server.cluster server.md5_hex server.debug fresh clock namespace_id
          is_overwrite a file t))
