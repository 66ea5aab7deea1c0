-- ===== src/Client/Calls.antt =====
-- The client's requests to the registry (`DiscoveryClient` of conreg-client/src/discovery.rs, with the requests of
-- conreg-client/src/protocol/request.rs). `Http` is reqwest, over whatever state the server has; `random` draws the
-- node of a cluster.
use conreg.Prelude.{
  ℕ, ◌<◌, String, Option, none, some, List, [], ◌∷◌, concat, length, get_elem?, get_elem?-some, ◌≡◌,
  refl, arith,
}
use conreg.Client.Conf.{ServerAddr, ConRegConfig}
use conreg.Client.Discovery.{
  DiscoveryClient, RegisterReq, HeartbeatReq, HeartbeatResult, register_req, heartbeat_req,
}
use conreg.Client.Network.{Reply, receive, build_url}
use conreg.LoadBalance.Instance.{Instance}
use conreg.Run.{Run}

pub record GetInstancesReq : Type 0 where
  pub namespace_id : String
  pub service_id : String

-- A header is a name with its value.
abbrev pub Header : Type 0
Header = String × String

pub record Http (W : Type 0) : Type 0 where
  pub post_register : String → RegisterReq → W → Reply Instance × W
  pub post_heartbeat : String → HeartbeatReq → W → Reply HeartbeatResult × W
  pub get_instances : String → GetInstancesReq → List Header → W → Reply (List Instance) × W

-- `DiscoveryClient::new`, where the configuration names a registry
unfoldable pub new : ConRegConfig → Option DiscoveryClient
new config = elim config.discovery [
  | none ↦ none
  | some discovery ↦
      some (record { service_id = config.service_id; client = config.client; config = discovery })
]

abbrev auth_header : Option String → List Header
auth_header none = []
auth_header (some token) = ("X-NS-Token", token) ∷ []

module _ {W : Type 0} (http : Http W) (random : ℕ → ℕ) where
  -- A URL that cannot be built ends the call before anything is sent.
  abbrev call : {A : Type 0} → Run String → (String → W → Run A × W) → W → Run A × W
  call (Run.failed e) send w = (Run.failed e, w)
  call Run.panicked send w = (Run.panicked, w)
  call (Run.returned url) send w = send url w

  -- `Instance` has a default too, which stands for an answer without data.
  unfoldable pub register : Instance → DiscoveryClient → W → Run Instance × W
  unfolding build_url receive register_req
  register fallback c =
      call (build_url random c.config.server_addr "/api/discovery/instance/register") λ url w.
        let (reply, w') = http.post_register url (register_req c) w in (receive fallback reply, w')

  unfoldable pub fetch_instances : String → DiscoveryClient → W → Run (List Instance) × W
  unfolding build_url receive
  fetch_instances service_id c =
      call (build_url random c.config.server_addr "/api/discovery/instance/available") λ url w.
        let req : GetInstancesReq = record {
          namespace_id = c.config.namespace;
          service_id = service_id;
        } in
        let (reply, w') = http.get_instances url req (auth_header c.config.auth_token) w in
        (receive [] reply, w')

  unfoldable pub heartbeat : (String → String) → DiscoveryClient → W → Run HeartbeatResult × W
  unfolding build_url receive heartbeat_req
  heartbeat md5_hex c =
      call (build_url random c.config.server_addr "/api/discovery/heartbeat") λ url w.
        let (reply, w') = http.post_heartbeat url (heartbeat_req md5_hex c) w in
        (receive HeartbeatResult.unknown reply, w')

-- The place of a node of a cluster that a URL may name.
abbrev pub IsNode : ServerAddr → String → Type 0
IsNode (ServerAddr.single a) addr = a ≡ addr
IsNode (ServerAddr.cluster as') addr = (k : ℕ) × (k < length as') × (get_elem? as' k ≡ some addr)
IsNode ServerAddr.unset addr = ⊥

-- Where a configuration names a node, a URL is built for one of the nodes that it names, whichever is drawn; where
-- it names none, none is built: a cluster without nodes panics, and an address that is not set is an error.
pub build_url-IsNode :
    (random : ℕ → ℕ) (path first : String)
    → ((n : ℕ) → 0 < n → random n < n)
    → ((a : String)
        → build_url random (ServerAddr.single a) path
          ≡ Run.returned (concat "http://" (concat a path)))
      × ((rest : List String)
          → (addr : String) × IsNode (ServerAddr.cluster (first ∷ rest)) addr
            × (build_url random (ServerAddr.cluster (first ∷ rest)) path
                ≡ Run.returned (concat "http://" (concat addr path))))
      × (build_url random (ServerAddr.cluster []) path ≡ Run.panicked)
      × (build_url random ServerAddr.unset path ≡ Run.failed "discovery server address not set")
unfolding build_url
build_url-IsNode random path first below = (
  λ a. refl,
  λ rest.
      let k = random (length (first ∷ rest)) in
      let (addr, e) =
        get_elem?-some (first ∷ rest) k (below (length (first ∷ rest)) (omega arith)) in
      (addr, (k, below (length (first ∷ rest)) (omega arith), e), ground (arith, e)),
  refl,
  refl,
)
