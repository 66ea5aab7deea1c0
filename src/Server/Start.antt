-- ===== src/Server/Start.antt =====
-- The start and the end of a node (`main` of conreg-server/src/main.rs, conreg-server/src/db/mod.rs, `init` and
-- `clean` of conreg-server/src/app.rs). A `Machine` is what the node calls of its surroundings: the files, SQLite,
-- sled, the making of the node's parts (`App::new`), Rocket and openraft. The log and the generator of ids leave
-- nothing behind that is read here.
use conreg.Prelude.{ℕ, String, Bool, Option, none, some, Anyhow, ok, err, concat}
use conreg.Cache.Global
use conreg.Cache.Global.{Cell}
use conreg.Cache.Local.{Codec}
use conreg.DashMap.{DashMap}
use conreg.Run.{Run}
use conreg.Server.Args.{Args, validate}
use conreg.Server.Files.{Disk, init_dir, join}
use conreg.Server.Setup.{RaftNode, after_http_server_start}

pub record Machine (D W : Type 0) : Type 0 where
  pub is_ip : String → Bool
  pub disk : Disk D
  -- SQLite opens a database, and runs init.sql
  pub connect : String → D → Anyhow (Unit {0}) × D
  pub run_init_sql : D → Anyhow (Unit {0}) × D
  -- what sled finds in a folder
  pub open_cache : String → D → Anyhow (DashMap String String) × D
  pub codec : Codec
  pub new_app : Args → D → Run W × D
  pub raft : RaftNode W
  -- Rocket takes the port, and serves until it is told to stop
  pub bind : Args → W → Anyhow (Unit {0})
  pub serve : W → Anyhow (Unit {0}) × W
  pub trigger_snapshot : W → Anyhow (Unit {0}) × W

-- The cells `DB_POOL`, `CACHE` and `APP`, and the files.
pub record Node (D W : Type 0) : Type 0 where
  pub files : D
  pub db_pool : Option String
  pub cache : Cell
  pub app : Option W

abbrev pub Start : Type 0 → Type 0 → Type 0
Start S A = S → Run A × S

abbrev then_run : {S A B : Type 0} → Run A × S → (A → Start S B) → Run B × S
then_run (Run.returned a, s) f = f a s
then_run (Run.failed e, s) f = (Run.failed e, s)
then_run (Run.panicked, s) f = (Run.panicked, s)

infixl 10 ◌>>◌
abbrev pub ◌>>◌ : {S B : Type 0} → Start S (Unit {0}) → Start S B → Start S B
◌>>◌ m k s = then_run (m s) (λ _. k)

-- `?`
abbrev run : {A : Type 0} → Anyhow A → Run A
run (ok a) = Run.returned a
run (err e) = Run.failed e

abbrev pub db_url : Args → String
db_url a = concat "sqlite:" (concat a.data_dir "/db/conreg.db")

module _ {D W : Type 0} (m : Machine D W) where
  abbrev pub on_files : {A : Type 0} → (D → Anyhow A × D) → Start (Node D W) A
  on_files f n = let (res, d) = f n.files in (run res, record n { files = d })

  abbrev on_app : {A : Type 0} → (W → Run A × W) → Start (Node D W) A
  on_app f n = elim n.app [
    | none ↦ (Run.panicked, n)
    | some w ↦ let (res, w') = f w in (res, record n { app = some w' })
  ]

  -- `DB_POOL.set`
  unfoldable pub set_pool : String → Start (Node D W) (Unit {0})
  set_pool url n = elim n.db_pool [
    | none ↦ (Run.returned tt, record n { db_pool = some url })
    | some old ↦ (Run.failed "database already initialized", n)
  ]

  -- `db::init`
  unfoldable pub db_init : Args → Start (Node D W) (Unit {0})
  unfolding set_pool
  db_init a = do on_files (m.connect (db_url a)); on_files m.run_init_sql; set_pool (db_url a)

  -- `cache::init`
  unfoldable pub cache_init : ℕ → Args → Start (Node D W) (Unit {0})
  unfolding Global.init
  cache_init now a n =
      let (rows, d) = m.open_cache (join a.data_dir "cache") n.files in
      let (res, cell) = Global.init m.codec now rows n.cache in
      (run res, record n { files = d; cache = cell })

  -- `app::init`: a node that is there is kept
  unfoldable pub app_init : Args → Start (Node D W) (Unit {0})
  app_init a n =
      let (made, d) = m.new_app a n.files in
      elim made [
        | Run.failed e ↦ (Run.failed e, record n { files = d })
        | Run.panicked ↦ (Run.panicked, record n { files = d })
        | Run.returned w ↦ (
          Run.returned tt,
          record n { files = d; app = elim n.app [ none ↦ some w | some old ↦ some old ] },
        )
      ]

  abbrev lifted_off : Args → W → Run (Unit {0}) × W
  lifted_off a w =
      let (res, w') = after_http_server_start m.raft a w in
      elim res [
        | err e ↦ (Run.panicked, w')
        | ok banner ↦ let (served, w'') = m.serve w' in (run served, w'')
      ]

  abbrev launched : Args → W → Run (Unit {0}) × W
  launched a w = elim (m.bind a w) [ err e ↦ (Run.failed e, w) | ok _ ↦ lifted_off a w ]

  unfoldable pub start_http_server : Args → Start (Node D W) (Unit {0})
  unfolding after_http_server_start
  start_http_server a = on_app (launched a)

  -- `app::cleanup`: an error of the snapshot is logged
  unfoldable pub cleanup : Start (Node D W) (Unit {0})
  cleanup = on_app λ w. let (res, w') = m.trigger_snapshot w in (Run.returned tt, w')

  abbrev pub check_args : Args → Start (Node D W) (Unit {0})
  check_args a n = (run (validate m.is_ip a), n)

  unfoldable pub main : ℕ → Args → Start (Node D W) (Unit {0})
  unfolding validate init_dir db_init cache_init app_init start_http_server cleanup
  main now a = do
    check_args a
    on_files (init_dir m.disk a)
    db_init a
    cache_init now a
    app_init a
    start_http_server a
    cleanup
