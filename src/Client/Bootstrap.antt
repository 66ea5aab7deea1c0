-- ===== src/Client/Bootstrap.antt =====
-- The start of the client (`Conreg::init_with` and `AppDiscovery` of conreg-client/src/lib.rs). `tasks` are
-- the tasks that were spawned, which run until the process ends. The two cells `CONFIGS` and `DISCOVERY` take
-- one value each.
use conreg.Prelude.{String, Option, none, some, List, [], ◌∷◌, ◌++◌, ok, err, ◌≡◌, arith}
use conreg.Client.Conf.{ConRegConfig, ConfigConfig, DiscoveryConfig}
use conreg.Client.Config.{Server, fetch_all}
use conreg.Client.Configs.{Configs, Merge, from_contents}
use conreg.Client.Discovery.{
  DiscoveryClient, RegisterReq, register_req, Services, Fetch, get_instances,
}
use conreg.Client.Network.{Run}
use conreg.Client.State.{Client, set_configs}
use conreg.LoadBalance.Instance.{Instance}

pub data Task : Type 0 where
  watch compensate : ConfigConfig → Task
  sync heartbeat : DiscoveryClient → Task

pub record Process : Type 0 where
  pub client : Client
  pub discovery : Option (DiscoveryClient × Services)
  pub tasks : List Task

-- The servers that the configuration names: the configurations, and the registration.
pub record Center : Type 0 where
  pub server_of : ConfigConfig → Server
  pub register : DiscoveryConfig → RegisterReq → Run (Unit {0})

unfoldable pub spawn : List Task → Process → Process
spawn tasks p = record p { tasks = p.tasks ++ tasks }

-- `CONFIGS.set`
unfoldable pub keep_configs : Configs → Process → Run (Unit {0}) × Process
unfolding set_configs
keep_configs configs p =
    let (result, client) = set_configs configs p.client in
    elim result [
      | ok _ ↦ (Run.returned tt, record p { client = client })
      | err e ↦ (Run.failed e, p)
    ]

-- `Discovery::new`, which starts two tasks, and `DISCOVERY.set`
unfoldable pub keep_discovery : DiscoveryClient → Process → Run (Unit {0}) × Process
unfolding spawn
keep_discovery c p =
    let p' = spawn (Task.sync c ∷ Task.heartbeat c ∷ []) p in
    elim p.discovery [
      | none ↦ (Run.returned tt, record p' { discovery = some (c, []) })
      | some old ↦ (
        Run.failed "discovery has already been initialized, please do not initialize repeatedly",
        p',
      )
    ]

module _ (center : Center) (merge : Merge) where
  -- `ConfigClient::load`, which starts two tasks before it merges, and what follows it
  unfoldable pub init_config : Option ConfigConfig → Process → Run (Unit {0}) × Process
  unfolding fetch_all from_contents keep_configs spawn
  init_config none p = (Run.returned tt, p)
  init_config (some config) p = elim (fetch_all (center.server_of config) config.config_ids) [
    | Run.failed e ↦ (Run.failed e, p)
    | Run.panicked ↦ (Run.panicked, p)
    | Run.returned contents ↦
        let p' = spawn (Task.watch config ∷ Task.compensate config ∷ []) p in
        elim (from_contents merge contents) [
          | err e ↦ (Run.failed e, p')
          | ok configs ↦ keep_configs configs p'
        ]
  ]

  unfoldable pub init_discovery : ConRegConfig → Process → Run (Unit {0}) × Process
  unfolding register_req keep_discovery
  init_discovery config p = elim config.discovery [
    | none ↦ (Run.returned tt, p)
    | some discovery ↦
        let c : DiscoveryClient = record {
          service_id = config.service_id;
          client = config.client;
          config = discovery;
        } in
        elim (center.register discovery (register_req c)) [
          | Run.failed e ↦ (Run.failed e, p)
          | Run.panicked ↦ (Run.panicked, p)
          | Run.returned _ ↦ keep_discovery c p
        ]
  ]

  unfoldable pub init_with : ConRegConfig → Process → Run (Unit {0}) × Process
  unfolding init_config init_discovery
  init_with config p =
      let (result, p') = init_config config.config p in
      elim result [
        | Run.failed e ↦ (Run.failed e, p')
        | Run.panicked ↦ (Run.panicked, p')
        | Run.returned _ ↦ init_discovery config p'
      ]

-- `AppDiscovery::get_instances`
unfoldable pub app_get_instances : Fetch → String → Process → Run (List Instance) × Process
unfolding get_instances
app_get_instances fetch service_id p = elim p.discovery [
  | none ↦ (Run.failed "discovery not initialized", p)
  | some (c, services) ↦
      let (result, services') = get_instances fetch service_id services in
      (result, record p { discovery = some (c, services') })
]

-- A second start with a configuration fails, and keeps the configurations of the first. The two tasks that
-- it has started before it fails run on, beside those of the first.
pub init_with-again :
    (center : Center) (merge : Merge) (config : ConRegConfig) (cc : ConfigConfig) (p : Process)
    (old new : Configs) (contents : List (String × String))
    → config.config ≡ some cc
    → p.client.configs ≡ some old
    → fetch_all (center.server_of cc) cc.config_ids ≡ Run.returned contents
    → from_contents merge contents ≡ ok new
    → init_with center merge config p ≡ (
      Run.failed "config has already been initialized, please do not initialize repeatedly",
      record p { tasks = p.tasks ++ (Task.watch cc ∷ Task.compensate cc ∷ []) },
    )
unfolding init_with init_config keep_configs set_configs spawn
init_with-again center merge config cc p old new contents named set fetched merged =
    ground (arith, named, set, fetched, merged)
