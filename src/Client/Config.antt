-- ===== src/Client/Config.antt =====
-- `ConfigClient` (conreg-client/src/config.rs). Both tasks are loops without an end, whose rounds stand
-- here. The server's replies are arguments, one for each configuration id in a round, and `merge` stands for
-- the crate `config`. A round that panics ends its task.
use conreg.Prelude.{ℕ, String, Option, none, some, List, [], ◌∷◌, ok, err, concat, string_eq}
use conreg.Client.Conf.{ServerAddr}
use conreg.Client.Configs.{Configs, Merge, from_contents}
use conreg.Client.Network.{Reply, Run, and_then, unwrap, receive, build_url}
use conreg.Client.State.{Client, reload, notify_config_change}
use conreg.DashMap
use conreg.DashMap.{DashMap}
use conreg.Values.{Value}

-- `as_str().unwrap()`
abbrev as_str : Value → Run String
as_str (Value.string s) = Run.returned s
as_str _ = Run.panicked

-- The server's reply for each configuration id, where the request could be sent.
abbrev pub Server : Type 0
Server = String → Run (Reply (DashMap String Value))

-- The request of `fetch_config`, to an address that is chosen anew each time.
unfoldable pub via :
    (ℕ → ℕ) → ServerAddr → (String → String → Reply (DashMap String Value)) → Server
unfolding build_url
via random server_addr http config_id =
    and_then (build_url random server_addr "/api/config/get")
      (λ url. Run.returned (http url config_id))

module _ (server : Server) where
  unfoldable pub fetch_config : String → Run String
  unfolding receive DashMap.get
  fetch_config config_id = and_then (server config_id) (λ reply.
      and_then (receive [] reply) (λ result. elim (DashMap.get "content" result) [
        | none ↦ Run.failed (concat "config id [ " (concat config_id " ] not found in server"))
        | some content ↦ as_str content
      ]))

  -- The loop of `load`, which stops at the first error.
  unfoldable pub fetch_all : List String → Run (List (String × String))
  unfolding fetch_config
  fetch_all [] = Run.returned []
  fetch_all (id ∷ ids) =
      let rest = fetch_all ids in
      and_then (fetch_config id)
        (λ content. and_then rest (λ contents. Run.returned ((id, content) ∷ contents)))

  -- The loop of the compensation, which leaves out what it cannot fetch.
  unfoldable pub fetch_some : List String → Run (List (String × String))
  unfolding fetch_config
  fetch_some [] = Run.returned []
  fetch_some (id ∷ ids) =
      let rest = fetch_some ids in
      elim (fetch_config id) [
        | Run.returned content ↦ and_then rest (λ contents. Run.returned ((id, content) ∷ contents))
        | Run.failed e ↦ rest
        | Run.panicked ↦ Run.panicked
      ]

  module _ (merge : Merge) where
    abbrev pub assemble : List (String × String) → Run Configs
    assemble contents = elim (from_contents merge contents) [
      | ok configs ↦ Run.returned configs
      | err e ↦ Run.failed e
    ]

    -- `load`, less the start of the two tasks
    unfoldable pub load : List String → Run Configs
    unfolding fetch_all from_contents
    load config_ids = and_then (fetch_all config_ids) assemble

    -- What the watch does with a change.
    unfoldable pub reload_changed : List String → String → Client → Run Client
    unfolding fetch_all from_contents reload notify_config_change
    reload_changed config_ids changed s = and_then (unwrap (fetch_all config_ids)) (λ contents.
        and_then (unwrap (assemble contents)) (λ configs.
          Run.returned (notify_config_change changed configs.flatten_config (reload configs s))))

    -- A round of `start_watch`: `reply` is the long poll's.
    unfoldable pub watch_round : List String → Reply (Option String) → Client → Run Client
    unfolding receive reload_changed
    watch_round config_ids reply s = elim (receive none reply) [
      | Run.failed e ↦ Run.returned s
      | Run.panicked ↦ Run.panicked
      | Run.returned answer ↦ elim answer [
        | none ↦ Run.returned s
        | some changed ↦ reload_changed config_ids changed s
      ]
    ]

    -- A round of `start_compensate`.
    unfoldable pub compensate_round : List String → Client → Run Client
    unfolding fetch_some from_contents reload
    compensate_round config_ids s = and_then (fetch_some config_ids) (λ contents.
        and_then (unwrap (assemble contents)) (λ configs. Run.returned (reload configs s)))
