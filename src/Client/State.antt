-- ===== src/Client/State.antt =====
-- What the client keeps (conreg-client/src/lib.rs: `CONFIGS`, and `CONFIG_LISTENER` of config.rs), and
-- the application's way to it, `AppConfig`. A listener is a number; a call of one is kept in `calls`.
use conreg.Prelude.{ℕ, String, Option, none, some, List, [], ◌∷◌, ◌++◌, Anyhow, ok, err, string_eq}
use conreg.Client.Configs
use conreg.Client.Configs.{Configs}
use conreg.DashMap
use conreg.DashMap.{DashMap}
use conreg.Values.{Value}

-- The listener, what it was given, and the configurations that `AppConfig` held when it ran.
abbrev pub Call : Type 0
Call = ℕ × DashMap String Value × Option Configs

pub record Client : Type 0 where
  pub configs : Option Configs
  pub listeners : DashMap String (List ℕ)
  pub calls : List Call

-- `CONFIGS.set`, which succeeds once
unfoldable pub set_configs : Configs → Client → Anyhow (Unit {0}) × Client
set_configs configs s = elim s.configs [
  | none ↦ (ok tt, record s { configs = some configs })
  | some old ↦ (err "config has already been initialized, please do not initialize repeatedly", s)
]

-- `AppConfig::reload`, which only logs where nothing was set
unfoldable pub reload : Configs → Client → Client
reload configs s = elim s.configs [ none ↦ s | some old ↦ record s { configs = some configs } ]

-- `AppConfig::get` and `AppConfig::get_raw`; `from_value` is serde_yaml at the type that is asked for
module _ {V : Type 0} (from_value : Value → Option V) where
  unfoldable pub app_get : String → Client → Option V
  unfolding Configs.get
  app_get key s = elim s.configs [
    | none ↦ none
    | some configs ↦ elim (Configs.get key configs) [ none ↦ none | some v ↦ from_value v ]
  ]

  unfoldable pub app_get_raw : String → Client → Option V
  unfolding Configs.get_raw
  app_get_raw key s = elim s.configs [
    | none ↦ none
    | some configs ↦ elim (Configs.get_raw key configs) [ none ↦ none | some v ↦ from_value v ]
  ]

-- `Configs::add_listener`
unfoldable pub add_listener : String → ℕ → Client → Client
unfolding DashMap.get DashMap.insert
add_listener config_id handler s = elim (DashMap.get config_id s.listeners) [
  | some handlers ↦ record s {
    listeners = DashMap.insert config_id (handlers ++ (handler ∷ [])) s.listeners;
  }
  | none ↦ record s { listeners = DashMap.insert config_id (handler ∷ []) s.listeners }
]

-- Each listener in turn.
unfoldable pub call_all : List ℕ → DashMap String Value → Client → Client
call_all [] changed s = s
call_all (handler ∷ handlers) changed s =
    call_all handlers changed (record s { calls = s.calls ++ ((handler, changed, s.configs) ∷ []) })

unfoldable pub notify_config_change : String → DashMap String Value → Client → Client
unfolding DashMap.get call_all
notify_config_change config_id changed s = elim (DashMap.get config_id s.listeners) [
  | none ↦ s
  | some handlers ↦ call_all handlers changed s
]
