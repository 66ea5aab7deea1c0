-- ===== src/App.antt =====
-- The state of one node: its database, the managers' caches, and what it has handed on. `get_app()`
-- is this state, which every handler of a request reads and writes
-- (conreg-server/src/app.rs, conreg-server/src/db/init.sql).
use conreg.Prelude.{String, Bool, Option, List, ◌++◌, ◌∷◌, [], concat, ok, err, if◌then◌else◌}
use conreg.DashMap.{DashMap}
use conreg.Exec.{Exec}
use conreg.Cache.Local.{LocalCache}
use conreg.Config.Entry.{ConfigEntry, ConfigChangeEvent}
use conreg.Discovery.Registry.{Discovery}
use conreg.Discovery.Service.{ServiceRow}
use conreg.Namespace.Entry.{Namespace}
use conreg.Protocol.{is_success}
use conreg.Raft.{RaftRequest}
use conreg.Raft.Write.{Cluster, raft_write}
use conreg.User.Entry.{User}

pub record App : Type 0 where
  -- the argument `--enable-cache-config`
  pub enable_cache_config : Bool
  -- the tables
  pub config : List ConfigEntry
  pub config_history : List ConfigEntry
  pub namespace : List Namespace
  pub service : List ServiceRow
  pub user : List User
  -- `ConfigManager.config_cache`, `NamespaceManager.cache`, `DiscoveryManager.discoveries`
  pub config_cache : DashMap (String × String) (Option ConfigEntry)
  pub namespace_cache : DashMap String Namespace
  pub discoveries : DashMap String Discovery
  -- the local cache
  pub cache : LocalCache
  -- the events that went to `ConfigManager.sender`, and the requests that went to `raft_write`
  pub changes : List ConfigChangeEvent
  pub submitted : List RaftRequest

-- The managers' `sync`: hand a request to Raft, and fail with Raft's message.
unfoldable pub sync : Cluster → String → RaftRequest → Exec App (Unit {0})
unfolding raft_write is_success
sync c prefix req s =
    let res = raft_write c req in
    let s' = record s { submitted = s.submitted ++ (req ∷ []) } in
    if is_success res then (ok tt, s') else (err (concat prefix res.msg), s')
