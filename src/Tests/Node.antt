-- ===== src/Tests/Node.antt =====
-- A node, a leader and entries for the runs.
use conreg.Prelude.{String, true, false, Option, none, some, [], ◌∷◌, ok, err, concat}
use conreg.App.{App}
use conreg.Config.Entry.{ConfigEntry}
use conreg.Namespace.Entry.{Namespace}
use conreg.Raft.{RaftResponse}
use conreg.Raft.Write.{Cluster, Reply, RaftError, ClientWriteError}
use conreg.User.Manager.{Library}
use conreg.Values.{Value}

abbrev pub digest : String → String
digest s = s

abbrev pub debug : Option String → String
debug none = "None"
debug (some s) = concat "Some " s

abbrev pub response : RaftResponse
response = record { value = none }

abbrev pub leader : Cluster
leader = record {
  client_write = λ req. ok response;
  post = λ url request. Reply.unreachable;
  status_text = λ status. "status";
}

-- A node that is not the leader, and the leader that it knows.
abbrev pub follower : Cluster
follower = record {
  client_write = λ req.
      err (RaftError.api_error (ClientWriteError.forward_to_leader (some (2, "10.0.0.2:8000"))));
  post = λ url request. Reply.answered (record { code = 0; msg = ""; content = some response });
  status_text = λ status. "status";
}

abbrev pub library : Library
library = record {
  hash = λ p. some (concat "hash of " p);
  verify = λ p h. true;
  to_json = λ ps. elim ps [ [] ↦ "[]" | p ∷ rest ↦ p ];
  from_json = λ text. some (text ∷ []);
  principal = λ name. Value.string name;
}

abbrev pub entry : ConfigEntry
entry = record {
  id_ = 1;
  namespace_id = "public";
  id = "app.yaml";
  content = "a: 1";
  create_time = 100;
  update_time = 100;
  description = none;
  format = "yaml";
  md5 = "a: 1None";
}

abbrev pub update : ConfigEntry
update = record entry { content = "a: 2"; update_time = 200; md5 = "a: 2None" }

abbrev pub namespace : Namespace
namespace = record {
  id = "team";
  name = "team";
  description = none;
  is_auth = true;
  auth_token = some "secret";
  create_time = 10;
  update_time = 10;
}

abbrev pub empty : App
empty = record {
  enable_cache_config = false;
  config = [];
  config_history = [];
  namespace = [];
  service = [];
  user = [];
  config_cache = [];
  namespace_cache = [];
  discoveries = [];
  cache = record { memory_cache = []; disk_db = []; pending = [] };
  changes = [];
  submitted = [];
}

abbrev pub caching : App
caching = record empty { enable_cache_config = true }
