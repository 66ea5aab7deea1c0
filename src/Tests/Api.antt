-- ===== src/Tests/Api.antt =====
-- Runs of the routes (the files api.rs of conreg-server/src).
use conreg.Prelude.{
  String, Bool, true, false, none, some, [], ◌∷◌, ◌++◌, ◌&&◌, if◌then◌else◌, ◌≡◌, refl, ◌==◌, ok,
  err, arith, eq_iff, string_eq,
}
use conreg.App.{App}
use conreg.Api.Config
use conreg.Api.Discovery.{RegisterServiceInstanceReq, register_instance}
use conreg.Api.Effects.{is_admin_only, refusal, serve-not_admin}
use conreg.Api.Login.{needs_login, IsAnonymous, Rejected, serve-anonymous}
use conreg.Api.Namespace.{UpsertNamespaceReq}
use conreg.Api.Reply.{Server}
use conreg.Api.Routes.{Headers, Request, serve}
use conreg.Auth.Guard.{Outcome, UserPrincipal, require_login}
use conreg.Cache.Local
use conreg.Cache.Local.{LocalCache, CacheEntry}
use conreg.Config.Entry.{ConfigEntry}
use conreg.Config.Transfer.{Archiver}
use conreg.DashMap
use conreg.Discovery.Instance.{InstanceStatus}
use conreg.Discovery.Registry.{Discovery, check_heartbeats, heartbeat}
use conreg.Discovery.View.{view}
use conreg.Event.{handle_raft_request}
use conreg.Event.Registration.{arrived, register_instance-arrives}
use conreg.Prelude.Int.{ℤ}
use conreg.Raft.{RaftRequest}
use conreg.User.Manager.{admin_username, token_key}
use conreg.Values.{Value}
use conreg.Tests.Node.{empty, namespace, leader, library, digest, debug}

abbrev server : Server
server = record {
  cluster = leader;
  library = library;
  codec = record { to_vec = λ e. e.k; from_slice = λ text. none };
  md5_hex = digest;
  debug = debug;
  from_value = λ v. elim v [ Value.string name ↦ some name | _ ↦ none ];
  meta_from_json = λ text. none;
}

abbrev alice : UserPrincipal
alice = record { username = "alice"; token = "t1" }

abbrev from_alice : Headers
from_alice = record { token = some "t1"; console = true; ns_token = none }

abbrev from_nobody : Headers
from_nobody = record { token = some "t2"; console = true; ns_token = none }

abbrev like : String → ConfigEntry → Bool
like filter e = e.id == filter

-- A node with the session of one user and one namespace.
abbrev logged_in : App
logged_in = record empty {
  namespace = namespace ∷ [];
  namespace_cache = (("team", namespace) ∷ []);
  cache = record {
    memory_cache =
        ((
          token_key "t1",
          record { k = token_key "t1"; v = Value.string "alice"; ct = 1; ttl = ℤ.negsuc 0 },
        )
          ∷ []);
    disk_db = [];
    pending = [];
  };
}

abbrev request : UpsertNamespaceReq
request = record {
  id = "team";
  name = "ours";
  description = none;
  is_auth = false;
  auth_token = none;
}

abbrev archiver : Archiver
archiver = record {
  zip = λ files. err "full";
  unzip = λ bytes. ok [];
  to_yaml = λ metadata. "";
  from_yaml = λ text. ok [];
}

serve-anonymous_example :
    Rejected
      (serve server 5 1 "t3" like from_nobody (Request.namespace_delete "team") logged_in)
      logged_in
    × Rejected (Config.export server archiver 5 (some "t2") "team" [] true logged_in) logged_in
    × Rejected
        (Config.import server archiver 5
          (some "t2")
          (λ n. n)
          (λ n. n)
          "team"
          "app.zip"
          true
          logged_in)
        logged_in
unfolding Local.get needs_login
serve-anonymous_example =
    serve-anonymous server 5 from_nobody logged_in 1 "t3" like (Request.namespace_delete "team")
      archiver (λ n. n) (λ n. n) "team" "app.zip" [] true true refl
      (IsAnonymous.no_session "t2" refl refl)

serve-not_admin_example :
    serve server 5 1 "t3" like from_alice (Request.user_delete "bob") logged_in
    ≡ (Outcome.success (refusal (Request.user_delete "bob")), logged_in)
unfolding require_login is_admin_only
serve-not_admin_example =
    serve-not_admin server 5 logged_in from_alice 1 "t3" like logged_in alice
      (Request.user_delete "bob") refl refl (λ e. ground (arith, e, eq_iff "alice" admin_username))

abbrev asking : RegisterServiceInstanceReq
asking = record {
  namespace_id = "public";
  service_id = "shop";
  ip = "10.0.0.1";
  port = 80;
  meta = [];
}

-- A node with a registry of the namespace, and nothing in it.
abbrev watching : App
watching = record empty { discoveries = ("public", record { services = [] }) ∷ [] }

register_instance-arrives_example :
    let i = arrived digest asking in
    ((register_instance server 100000 asking watching).1.submitted
      ≡ [] ++ (RaftRequest.register_service_instance "public" i ∷ []))
    × (e : Discovery) × (DashMap.get "public"
          (handle_raft_request library
            (λ meta. "")
            100001
            (RaftRequest.register_service_instance "public" i)
            watching).discoveries
        ≡ some e)
    × ((v j : String)
        → view e v j
          ≡ (if "shop" == v && i.id == j then some i else view (record { services = [] }) v j))
    × (view (check_heartbeats 100010 30000 e) "shop" i.id
        ≡ some
            (record i { lost_heartbeats = 1; status = InstanceStatus.sick "lost heartbeats(1)" }))
    × (view (check_heartbeats 100010 30000 (heartbeat 100005 "shop" i.id e).1) "shop" i.id
        ≡ some (record i { last_heartbeat = 100005; status = InstanceStatus.up }))
unfolding DashMap.get
register_instance-arrives_example =
    register_instance-arrives server asking library (λ meta. "") 100000 100001 100005 100010 30000
      watching watching (record { services = [] }) (record { services = [] }) refl refl
      (omega arith) (omega arith)
