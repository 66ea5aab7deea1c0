-- ===== src/Server/Setup.antt =====
-- What a node does once it listens (`after_http_server_start` of conreg-server/src/main.rs). openraft is a
-- `RaftNode`, over whatever state it has. The lines of the log are a `Banner`.
use conreg.Prelude.{
  ℕ, String, Bool, Option, none, some, [], ◌∷◌, Anyhow, concat, to_string, if◌then◌else◌,
}
use conreg.DashMap.{DashMap}
use conreg.Exec.{Exec, pure, gets, ◌>>=◌, ◌>>◌}
use conreg.Server.Args.{Args, Mode}

pub record RaftNode (W : Type 0) : Type 0 where
  pub is_initialized : W → Anyhow Bool
  pub initialize : DashMap ℕ String → W → Anyhow (Unit {0}) × W
  pub current_leader : W → Option ℕ
  pub nodes_count : W → ℕ

pub data Banner : Type 0 where
  standalone : Args → Bool → Banner
  cluster : Args → Bool → String → ℕ → Banner

unfoldable pub own_address : Args → String
unfolding to_string
own_address a = concat a.address (concat ":" (to_string a.port))

-- The text of the leader in the log.
abbrev leader_text : Option ℕ → String
leader_text none = "No Leader"
leader_text (some id) = to_string id

module _ {W : Type 0} (raft : RaftNode W) where
  abbrev initialized : Exec W Bool
  initialized w = (raft.is_initialized w, w)

  -- A node that is not initialised becomes the only one of its cluster.
  unfoldable pub ensure_initialized : Args → Bool → Exec W (Unit {0})
  unfolding own_address
  ensure_initialized a there =
      if there then pure tt else raft.initialize ((a.node_id, own_address a) ∷ [])

  unfoldable pub stand_alone : Args → Exec W Banner
  unfolding ensure_initialized
  stand_alone a = do
    there ← initialized
    ensure_initialized a there
    now ← initialized
    pure (Banner.standalone a now)

  unfoldable pub join_cluster : Args → Exec W Banner
  unfolding to_string
  join_cluster a = do
    there ← initialized
    leader ← gets raft.current_leader
    count ← gets raft.nodes_count
    pure (Banner.cluster a there (leader_text leader) count)

  abbrev started : Mode → Args → Exec W Banner
  started Mode.standalone a = stand_alone a
  started Mode.cluster a = join_cluster a

  unfoldable pub after_http_server_start : Args → Exec W Banner
  unfolding stand_alone join_cluster
  after_http_server_start a = started a.mode a
