-- ===== src/Tests/Client.antt =====
-- Runs of the client (conreg-client/src).
use conreg.Prelude.{
  err, false, String, true, Option, none, some, List, [], ◌∷◌, ok, ◌≡◌, ◌⊎◌, ◌↔◌, refl, arith,
  string_eq, ◌==◌, if◌then◌else◌,
}
use conreg.Client.Bootstrap.{Process, Center}
use conreg.Api.Reply.{Server as ApiServer}
use conreg.Api.Routes.{Headers}
use conreg.App.{App}
use conreg.Auth.Guard.{Outcome, admit}
use conreg.Client.Center.{node, expected, fetch_config-node}
use conreg.Config.Reads.{row, IsCoherent}
use conreg.Client.Conf.{ServerAddr, ConfigConfig, ConRegConfig, default_client, gen_instance_id}
use conreg.Client.Config.{Server, via, fetch_config, fetch_all, watch_round}
use conreg.Client.Configs
use conreg.Client.Configs.{Configs, Merge, from_contents, flattened, to_mapping, sources}
use conreg.Client.Discovery
use conreg.Client.Discovery.{DiscoveryClient, Services}
use conreg.Client.Heartbeat
use conreg.Client.Leaves.{leaves_of, last_or}
use conreg.Client.Network.{Reply, Run, receive}
use conreg.Client.Reload.{get-flattened, Renewed, watch_round-changed}
use conreg.Client.Start.{Disk, Started, StartsFrom, init_from_file, init_from_file_lem}
use conreg.Client.State.{Client}
use conreg.DashMap
use conreg.DashMap.{DashMap}
use conreg.Discovery.Instance
use conreg.Discovery.Registry
use conreg.Protocol.{success}
use conreg.Tests.Node.{empty, entry, leader, library, debug, digest}
use conreg.Values.{Value, Fields}

-- `db: {url: a, pool: {size: 5}}` and `name: shop`
abbrev merged : DashMap String Value
merged =
    (
      "db",
      Value.mapping (
          Fields.field (Value.string "url") (Value.string "a") (
            Fields.field (Value.string "pool")
              (Value.mapping (Fields.field (Value.string "size") (Value.string "5") Fields.end))
              Fields.end)),
    )
    ∷ ("name", Value.string "shop")
    ∷ []

-- A crate `config` that reads this, whatever it is given, and nothing from nothing.
abbrev merge : Merge
merge files = elim files [ [] ↦ ok [] | f ∷ fs ↦ ok merged ]

get-flattened_example :
    Configs.get "db.pool.size" (flattened merged)
    ≡ last_or none "db.pool.size" (leaves_of "" (to_mapping merged))
get-flattened_example = get-flattened merged "db.pool.size"

found_size : Configs.get "db.pool.size" (flattened merged) ≡ some (Value.string "5")
unfolding Configs.get flattened
found_size = refl

abbrev ids : List String
ids = "app.yaml" ∷ []

abbrev address : ServerAddr
address = ServerAddr.single "127.0.0.1:8000"

abbrev answering : Server
unfolding via
answering =
    via (λ n. 0) address
      (λ url id. Reply.answered (success (("content", Value.string "name: shop") ∷ [])))

abbrev silent : Server
unfolding via
silent = via (λ n. 0) address (λ url id. Reply.unreachable "connection refused")

abbrev old : Configs
old = record { flatten_config = ("name", Value.string "old") ∷ []; merged_config = [] }

abbrev client : Client
client = record {
  configs = some old;
  listeners = ("app.yaml", 1 ∷ 2 ∷ []) ∷ ("db.yaml", 3 ∷ []) ∷ [];
  calls = [];
}

abbrev change : Reply (Option String)
change = Reply.answered (success (some "app.yaml"))

watch_round-changed_example :
    ((watch_round answering merge ids change client ≡ Run.panicked)
      ⊎ ((t : Client) × (watch_round answering merge ids change client ≡ Run.returned t)))
    × ((t : Client)
        → (watch_round answering merge ids change client ≡ Run.returned t)
          ↔ Renewed answering merge ids old client "app.yaml" t)
unfolding receive success
watch_round-changed_example =
    watch_round-changed answering merge ids old client change "app.yaml" refl refl

-- The first of the two ways out does not come here.
watch_round_runs :
    watch_round answering merge ids change client
    ≡ Run.returned (record client {
      configs = some (flattened merged);
      calls =
          (1, (flattened merged).flatten_config, some (flattened merged))
          ∷ (2, (flattened merged).flatten_config, some (flattened merged))
          ∷ [];
    })
unfolding watch_round receive fetch_all from_contents sources success answering
watch_round_runs = refl

abbrev settings : ConfigConfig
settings = record {
  server_addr = address;
  namespace = "public";
  config_ids = ids;
  auth_token = none;
}

abbrev conreg_config : ConRegConfig
conreg_config = record {
  service_id = "shop";
  client = default_client;
  config = some settings;
  discovery = none;
}

abbrev center : Center
center = record { server_of = λ c. answering; register = λ d req. Run.returned tt }

abbrev process : Process
process = record { client = client; discovery = none; tasks = [] }

-- A node with one configuration, in a namespace that asks for no token.
abbrev stocked : App
stocked = record empty { config = entry ∷ [] }

abbrev anonymous : Headers
anonymous = record { token = none; console = false; ns_token = none }

abbrev node_server : ApiServer
node_server = record {
  cluster = leader;
  library = library;
  codec = record { to_vec = λ e. e.k; from_slice = λ text. none };
  md5_hex = digest;
  debug = debug;
  from_value = λ v. none;
  meta_from_json = λ text. none;
}

abbrev shop : DiscoveryClient
shop = record {
  service_id = "shop";
  client = default_client;
  config = record { server_addr = address; namespace = "public"; meta = []; auth_token = none };
}

-- A node with a registry of the namespace, and nothing in it.
abbrev watching : App
watching = record empty { discoveries = ("public", record { services = [] }) ∷ [] }

-- The id that the client sends.
abbrev shop_id : String
shop_id = gen_instance_id digest default_client

IsCoherent-stocked : IsCoherent stocked
unfolding DashMap.get
IsCoherent-stocked = record { at_key = λ n i v h. absurd (ground arith) }

fetch_config-node_example :
    fetch_config
      (node node_server 5 1 "t1"
        (λ filter e. true)
        anonymous
        (λ n. "2025-01-01")
        (λ status. "401 Unauthorized")
        "public"
        stocked)
      "app.yaml"
    ≡ expected
        (λ status. "401 Unauthorized")
        "app.yaml"
        (Outcome.success tt)
        (row stocked "public" "app.yaml")
unfolding admit
fetch_config-node_example =
    fetch_config-node node_server 5 1 "t1" (λ filter e. true) anonymous (λ n. "2025-01-01")
      (λ status. "401 Unauthorized") "public" stocked "app.yaml" (Outcome.success tt) stocked refl
      IsCoherent-stocked

-- A disk with the second of the two files.
abbrev disk : Disk
disk = record {
  exists = λ path. path == "bootstrap.yml";
  read_to_string = λ path. if path == "bootstrap.yml" then ok "conreg:" else err "not found";
  from_str = λ s. ok conreg_config;
}

init_from_file_lem_example :
    (disk.exists "mine.yaml" ≡ false
      → init_from_file center merge disk "mine.yaml" process
        ≡ init_from_file center merge disk "bootstrap.yml" process)
    × (((init_from_file center merge disk "mine.yaml" process).0 ≡ Started.running)
        ↔ StartsFrom center merge disk "bootstrap.yml" process)
    × ((e : String)
        → disk.exists "mine.yaml" ≡ true
        → disk.read_to_string "mine.yaml" ≡ err e
        → init_from_file center merge disk "mine.yaml" process ≡ (Started.exited, process))
    × ((s e : String)
        → disk.exists "mine.yaml" ≡ true
        → disk.read_to_string "mine.yaml" ≡ ok s
        → disk.from_str s ≡ err e
        → init_from_file center merge disk "mine.yaml" process ≡ (Started.exited, process))
init_from_file_lem_example = init_from_file_lem center merge disk "mine.yaml" process
