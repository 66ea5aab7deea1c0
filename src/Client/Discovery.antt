-- ===== src/Client/Discovery.antt =====
-- The client of the registry (conreg-client/src/discovery.rs): the cache of the services' instances, and
-- a tick of each of its two tasks. `RegistryServer` is what the client asks of the server, over whatever state
-- the server has; a service's instances are fetched by `fetch`.
use conreg.Prelude.{ℕ, String, none, some, List, [], ◌∷◌, string_eq}
use conreg.Client.Conf.{ClientConfig, DiscoveryConfig, gen_instance_id}
use conreg.Client.Network.{Run}
use conreg.DashMap
use conreg.DashMap.{DashMap}
use conreg.LoadBalance.Instance.{Instance}
use conreg.Values.{Value}

-- conreg-client/src/protocol/request.rs
pub record RegisterReq : Type 0 where
  pub namespace_id : String
  pub service_id : String
  pub ip : String
  pub port : ℕ
  pub meta : DashMap String Value

pub record HeartbeatReq : Type 0 where
  pub namespace_id : String
  pub service_id : String
  pub instance_id : String

-- conreg-client/src/protocol/response.rs
pub data HeartbeatResult : Type 0 where
  ok no_instance_found rejected unknown : HeartbeatResult

pub record DiscoveryClient : Type 0 where
  pub service_id : String
  pub client : ClientConfig
  pub config : DiscoveryConfig

pub record RegistryServer (W : Type 0) : Type 0 where
  pub register : RegisterReq → W → Run (Unit {0}) × W
  pub heartbeat : HeartbeatReq → W → Run HeartbeatResult × W

unfoldable pub register_req : DiscoveryClient → RegisterReq
register_req c = record {
  namespace_id = c.config.namespace;
  service_id = c.service_id;
  ip = c.client.address;
  port = c.client.port;
  meta = c.config.meta;
}

unfoldable pub heartbeat_req : (String → String) → DiscoveryClient → HeartbeatReq
unfolding gen_instance_id
heartbeat_req md5_hex c = record {
  namespace_id = c.config.namespace;
  service_id = c.service_id;
  instance_id = gen_instance_id md5_hex c.client;
}

-- A tick of `start_heartbeat`. Errors of a registration are logged.
module _ {W : Type 0} (server : RegistryServer W) (md5_hex : String → String)
    (c : DiscoveryClient) where
  unfoldable pub heartbeat_tick : W → W
  unfolding heartbeat_req register_req
  heartbeat_tick w =
      let (result, w') = server.heartbeat (heartbeat_req md5_hex c) w in
      elim result [
        | Run.failed e ↦ w'
        | Run.panicked ↦ w'
        | Run.returned answer ↦ elim answer [
          | HeartbeatResult.no_instance_found ↦ (server.register (register_req c) w').1
          | HeartbeatResult.ok ↦ w'
          | HeartbeatResult.rejected ↦ w'
          | HeartbeatResult.unknown ↦ w'
        ]
      ]

abbrev pub Services : Type 0
Services = DashMap String (List Instance)

-- A request's outcome for each service.
abbrev pub Fetch : Type 0
Fetch = String → Run (List Instance)

unfoldable pub fetch_instances : Fetch → String → Services → Run (List Instance) × Services
unfolding DashMap.insert
fetch_instances fetch service_id services = elim (fetch service_id) [
  | Run.returned instances ↦ (Run.returned instances, DashMap.insert service_id instances services)
  | Run.failed e ↦ (Run.failed e, services)
  | Run.panicked ↦ (Run.panicked, services)
]

-- The cache first; an error of a fetch is logged, and gives no instances.
unfoldable pub get_instances : Fetch → String → Services → Run (List Instance) × Services
unfolding DashMap.get fetch_instances
get_instances fetch service_id services = elim (DashMap.get service_id services) [
  | some instances ↦ (Run.returned instances, services)
  | none ↦
      let (result, services') = fetch_instances fetch service_id services in
      elim result [
        | Run.returned instances ↦ (Run.returned instances, services')
        | Run.failed e ↦ (Run.returned [], services')
        | Run.panicked ↦ (Run.panicked, services')
      ]
]

-- What a tick of `start_fetch_task` does with a service's reply. Errors are logged.
unfoldable pub renew : Run (List Instance) → String → Services → Services
unfolding DashMap.insert
renew (Run.returned instances) service_id services = DashMap.insert service_id instances services
renew (Run.failed e) service_id services = services
renew Run.panicked service_id services = services

-- The loop of a tick, over the services that the cache had at its start.
unfoldable pub refresh : Fetch → List String → Services → Services
unfolding renew
refresh fetch [] services = services
refresh fetch (service_id ∷ service_ids) services =
    refresh fetch service_ids (renew (fetch service_id) service_id services)

unfoldable pub keys : Services → List String
keys [] = []
keys ((k, v) ∷ m) = k ∷ keys m

unfoldable pub fetch_tick : Fetch → Services → Services
unfolding refresh keys
fetch_tick fetch services = refresh fetch (keys services) services
