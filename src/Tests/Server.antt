-- ===== src/Tests/Server.antt =====
-- Runs of the start of a node (conreg-server/src/main.rs).
use conreg.Prelude.{
  ℕ, String, Bool, true, false, none, some, [], ok, err, is_some, string_eq, ◌==◌, ◌≡◌, refl,
}
use conreg.Run.{Run}
use conreg.Server.Args.{Args, Mode, validate}
use conreg.Server.Boot.{main-returned}
use conreg.Server.Restart.{after_http_server_start-again}
use conreg.Server.Setup.{RaftNode, Banner, after_http_server_start}
use conreg.Server.Start.{Machine, Node, main, db_url}

abbrev alone : Args
alone = record {
  address = "127.0.0.1";
  port = 8000;
  data_dir = "./data";
  node_id = 1;
  mode = Mode.standalone;
  enable_cache_config = false;
}

-- A Raft that keeps whether it was initialised, and a machine on which everything works.
abbrev raft : RaftNode Bool
raft = record {
  is_initialized = λ w. ok w;
  initialize = λ nodes w. (ok tt, true);
  current_leader = λ w. some 1;
  nodes_count = λ w. 1;
}

abbrev machine : Machine ℕ Bool
machine = record {
  is_ip = λ s. s == "127.0.0.1";
  disk = record {
    create_dir_all = λ p d. (ok tt, d);
    create = λ p d. (ok tt, d);
    exists = λ p d. true;
  };
  connect = λ url d. (ok tt, d);
  run_init_sql = λ d. (ok tt, d);
  open_cache = λ p d. (ok [], d);
  codec = record { to_vec = λ e. "{}"; from_slice = λ bytes. none };
  new_app = λ a d. (Run.returned false, d);
  raft = raft;
  bind = λ a w. ok tt;
  serve = λ w. (ok tt, w);
  trigger_snapshot = λ w. (ok tt, w);
}

abbrev blank : Node ℕ Bool
blank = record { files = 0; db_pool = none; cache = none; app = none }

after_http_server_start-again_example :
    (Banner.standalone alone true ≡ Banner.standalone alone true)
    × (after_http_server_start raft alone (after_http_server_start raft alone false).1
        ≡ (ok (Banner.standalone alone true), (after_http_server_start raft alone false).1))
    × (raft.is_initialized false ≡ ok true → (after_http_server_start raft alone false).1 ≡ false)
    × (raft.is_initialized false ≡ ok false → (after_http_server_start raft alone false).1 ≡ true)
unfolding after_http_server_start
after_http_server_start-again_example =
    after_http_server_start-again raft (record { lasting = λ nodes w h. refl }) alone false
      (Banner.standalone alone true) refl refl

main-returned_example :
    ((e : String)
      → validate machine.is_ip alone ≡ err e
      → main machine 5 alone blank ≡ (Run.failed e, blank))
    × ((main machine 5 alone blank).0 ≡ Run.returned tt
        → (validate machine.is_ip alone ≡ ok tt)
          × (blank.db_pool ≡ none)
          × (blank.cache ≡ none)
          × ((main machine 5 alone blank).1.db_pool ≡ some (db_url alone))
          × (is_some (main machine 5 alone blank).1.cache ≡ true)
          × (is_some (main machine 5 alone blank).1.app ≡ true))
main-returned_example = main-returned machine 5 alone blank

started : (main machine 5 alone blank).0 ≡ Run.returned tt
unfolding main
started = refl
