-- ===== src/Config/Manager.antt =====
-- `ConfigManager` (conreg-server/src/config/server/mod.rs, lines 49 to 434). Reads go through the
-- cache when it is enabled. Writes are handed to Raft, and `insert_config`, `update_config` and
-- `delete_config` run on every node when the request is applied. `now` is `Local::now()`, `id_` what
-- the id generator returns. The database fails on a unique column only.
use conreg.Prelude.{
  ℕ, ◌+◌, String, Bool, Option, none, some, List, [], ◌∷◌, ◌++◌, ◌==◌, nat_eq, string_eq, pair_eq,
  ◌&&◌, ◌||◌, if◌then◌else◌, ok, err, length, retain, concat, to_string,
}
use conreg.DashMap
use conreg.Exec.{Exec, pure, modify, ◌>>=◌, ◌>>◌}
use conreg.Sql.{fetch_optional, update_where, delete_where, insert_row, order_desc, page_of}
use conreg.App.{App, sync}
use conreg.Config.Entry.{ConfigEntry, gen_md5}
use conreg.Raft.{RaftRequest}
use conreg.Raft.Write.{Cluster}

-- `WHERE namespace_id = ? AND id = ?`
abbrev pub at_id : String → String → ConfigEntry → Bool
at_id namespace_id id e = e.namespace_id == namespace_id && e.id == id

-- `id_ integer primary key` and `unique (namespace_id, id)` of the table `config`
abbrev pub clash : ConfigEntry → ConfigEntry → Bool
clash old new = old.id_ == new.id_ || at_id new.namespace_id new.id old

-- The only unique column of `config_history` is `id_`.
abbrev pub clash_history : ConfigEntry → ConfigEntry → Bool
clash_history old new = old.id_ == new.id_

unfoldable pub notify_config_change : String → String → Exec App (Unit {0})
notify_config_change namespace_id config_id = modify (λ s. record s {
  changes = s.changes ++ (record { namespace_id = namespace_id; config_id = config_id } ∷ []);
})

unfoldable pub get_config : String → String → Exec App (Option ConfigEntry)
unfolding DashMap.get DashMap.insert
get_config namespace_id config_id s =
    if s.enable_cache_config
    then elim (DashMap.get (namespace_id, config_id) s.config_cache) [
      | some config ↦ (ok config, s)
      | none ↦
          let config = fetch_optional (at_id namespace_id config_id) s.config in
          (
            ok config,
            record s {
              config_cache = DashMap.insert (namespace_id, config_id) config s.config_cache;
            },
          )
    ]
    else (ok (fetch_optional (at_id namespace_id config_id) s.config), s)

-- The row that goes to `config_history`, under an id computed from the entry.
unfoldable pub history_row : ConfigEntry → ConfigEntry
history_row e = record e { id_ = e.id_ + e.update_time }

unfoldable pub append_history : ConfigEntry → Exec App (Unit {0})
unfolding history_row insert_row
append_history e s = elim (insert_row clash_history (history_row e) s.config_history) [
  | none ↦ (err "UNIQUE constraint failed: config_history.id_", s)
  | some rows ↦ (ok tt, record s { config_history = rows })
]

unfoldable pub delete_history : String → String → Exec App (Unit {0})
delete_history namespace_id id =
    modify
      (λ s. record s { config_history = delete_where (at_id namespace_id id) s.config_history })

-- The `INSERT` of `insert_config`.
unfoldable pub insert_row_config : ConfigEntry → Exec App (Unit {0})
unfolding insert_row
insert_row_config e s = elim (insert_row clash e s.config) [
  | none ↦ (err "UNIQUE constraint failed: config", s)
  | some rows ↦ (ok tt, record s { config = rows })
]

unfoldable pub insert_config : ConfigEntry → Exec App (Unit {0})
unfolding insert_row_config append_history notify_config_change
insert_config e = do insert_row_config e; append_history e; notify_config_change e.namespace_id e.id

-- What the `UPDATE` of `update_config` sets.
unfoldable pub updated : ConfigEntry → ConfigEntry → ConfigEntry
updated e old = record old {
  content = e.content;
  description = e.description;
  update_time = e.update_time;
  format = e.format;
  md5 = e.md5;
}

unfoldable pub forget : String → String → Exec App (Unit {0})
unfolding DashMap.remove
forget namespace_id id = modify (λ s.
    if s.enable_cache_config
    then record s { config_cache = DashMap.remove (namespace_id, id) s.config_cache }
    else s)

unfoldable pub update_config : ConfigEntry → Exec App (Unit {0})
unfolding updated append_history forget notify_config_change
update_config e = do
  modify (λ s. record s { config = update_where (λ r. r.id_ == e.id_) (updated e) s.config })
  append_history e
  forget e.namespace_id e.id
  notify_config_change e.namespace_id e.id

unfoldable pub delete_config : String → String → Exec App (Unit {0})
unfolding delete_history
delete_config namespace_id config_id = do
  modify (λ s. record s { config = delete_where (at_id namespace_id config_id) s.config })
  delete_history namespace_id config_id

unfoldable pub get_history : String → String → App → List ConfigEntry
unfolding order_desc page_of
get_history namespace_id config_id s =
    order_desc (λ e. e.id_) (retain (at_id namespace_id config_id) s.config_history)

unfoldable pub get_history_by_id_ : ℕ → App → Option ConfigEntry
get_history_by_id_ id_ s = fetch_optional (λ e. e.id_ == id_) s.config_history

module _ (c : Cluster) (md5_hex : String → String) (debug : Option String → String) where
  -- What `upsert_config_and_sync` does with the old configuration.
  unfoldable pub submit_change :
      ℕ
      → ℕ
      → String
      → String
      → String
      → Option String
      → String
      → Option ConfigEntry
      → Exec App (Unit {0})
  unfolding gen_md5 sync
  submit_change id_ now namespace_id config_id content description format none =
      sync c "sync config error: " (
        RaftRequest.set_config (record {
          id_ = id_;
          namespace_id = namespace_id;
          id = config_id;
          content = content;
          create_time = now;
          update_time = now;
          description = description;
          format = format;
          md5 = gen_md5 md5_hex debug content description;
        }))
  submit_change id_ now namespace_id config_id content description format (some old) =
      let md5 = gen_md5 md5_hex debug content description in
      if old.md5 == md5
      then pure tt
      else sync c "sync config error: " (
          RaftRequest.update_config (record {
            id_ = old.id_;
            namespace_id = namespace_id;
            id = config_id;
            content = content;
            create_time = old.create_time;
            update_time = now;
            description = description;
            format = format;
            md5 = md5;
          }))

  unfoldable pub upsert_config_and_sync :
      ℕ → ℕ → String → String → String → Option String → String → Exec App (Unit {0})
  unfolding get_config submit_change
  upsert_config_and_sync id_ now namespace_id config_id content description format = do
    old ← get_config namespace_id config_id
    submit_change id_ now namespace_id config_id content description format old

  unfoldable pub delete_config_and_sync : String → String → Exec App (Unit {0})
  unfolding sync
  delete_config_and_sync namespace_id config_id =
      sync c "sync config error: " (RaftRequest.delete_config namespace_id config_id)

  unfoldable pub recovery : ℕ → ℕ → ℕ → Exec App (Unit {0})
  unfolding upsert_config_and_sync to_string
  recovery new_id now id_ s = elim (fetch_optional (λ e. e.id_ == id_) s.config_history) [
    | none ↦ (err (concat "No history config found with id " (to_string id_)), s)
    | some h ↦
        upsert_config_and_sync new_id now h.namespace_id h.id h.content h.description h.format s
  ]

-- Pages, newest first; page 1 is the first. `matches` is the `LIKE` of the filter, if there is one.
unfoldable pub list_configs_with_page :
    String → ℕ → ℕ → (ConfigEntry → Bool) → App → ℕ × List ConfigEntry
unfolding order_desc page_of
list_configs_with_page namespace_id page_num page_size matches s =
    let rows = retain (λ e. e.namespace_id == namespace_id && matches e) s.config in
    (length rows, page_of page_num page_size (order_desc (λ e. e.id_) rows))

unfoldable pub list_config_history_with_page : String → String → ℕ → ℕ → App → ℕ × List ConfigEntry
unfolding order_desc page_of
list_config_history_with_page namespace_id id page_num page_size s =
    let rows = retain (at_id namespace_id id) s.config_history in
    (length rows, page_of page_num page_size (order_desc (λ e. e.id_) rows))
