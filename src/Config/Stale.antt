-- ===== src/Config/Stale.antt =====
-- The cache of configurations after the three writes
-- (conreg-server/src/config/server/mod.rs, lines 86 to 255).
use conreg.Prelude.{
  String, true, false, Option, none, some, ◌==◌, nat_eq, string_eq, pair_eq, ok, ◌≡◌, refl, arith,
  eq_refl, find, is_ok,
}
use conreg.DashMap
use conreg.DashMap.{get-insert, get-insert_self}
use conreg.Sql.{insert_row}
use conreg.App.{App}
use conreg.Config.Entry.{ConfigEntry}
use conreg.Config.Manager.{
  clash_history, get_config, history_row, insert_config, updated, update_config, delete_config,
}
use conreg.Config.Reads.{row, find-update}
use conreg.Config.Writes.{insert_config-ok, insert_config-args, delete_config_lem}

-- With the cache on, a key that was read while it had no row keeps being read as missing after its
-- insertion has succeeded, although the table has the row.
pub insert-stale :
    (e : ConfigEntry) (s : App)
    → s.enable_cache_config ≡ true
    → DashMap.get (e.namespace_id, e.id) s.config_cache ≡ none
    → (get_config e.namespace_id e.id s).0 ≡ ok none
    → (insert_config e (get_config e.namespace_id e.id s).1).0 ≡ ok tt
    → ((get_config e.namespace_id e.id (insert_config e (get_config e.namespace_id e.id s).1).1).0
        ≡ ok none)
      × (row (insert_config e (get_config e.namespace_id e.id s).1).1 e.namespace_id e.id ≡ some e)
unfolding get_config
insert-stale e s on miss absent done =
    let t = (get_config e.namespace_id e.id s).1 in
    let after = insert_config-ok e t done in
    ground (
      arith,
      after.1 e.namespace_id e.id,
      after.4,
      insert_config-args e t,
      get-insert_self (e.namespace_id, e.id) (row s e.namespace_id e.id) s.config_cache,
      eq_refl e.namespace_id,
      eq_refl e.id,
    )

-- With the cache on, a key that was read keeps being read with its old row after its deletion.
pub delete-stale :
    (n i : String) (v : Option ConfigEntry) (s : App)
    → s.enable_cache_config ≡ true
    → DashMap.get (n, i) s.config_cache ≡ some v
    → ((delete_config n i s).0 ≡ ok tt)
      × ((get_config n i (delete_config n i s).1).0 ≡ ok v)
      × (row (delete_config n i s).1 n i ≡ none)
unfolding get_config
delete-stale n i v s on cached = ground (
  arith,
  (delete_config_lem n i s).0,
  (delete_config_lem n i s).1 n i,
  (delete_config_lem n i s).4,
  delete-args n i s,
  eq_refl n,
  eq_refl i,
)
  where
    delete-args :
        (n i : String) (s : App)
        → (delete_config n i s).1.enable_cache_config ≡ s.enable_cache_config
    delete-args n i s = unfold delete_config in refl

-- Where the history holds a row with the id that an update computes for its own, the update fails, but
-- only after the row is changed: the cache keeps the old content, and no change is announced.
pub update-history_clash :
    (e r old : ConfigEntry) (s : App)
    → find (λ h. clash_history h (history_row e)) s.config_history ≡ some old
    → row s e.namespace_id e.id ≡ some r
    → (r.id_ == e.id_) ≡ true
    → (is_ok (update_config e s).0 ≡ false)
      × (row (update_config e s).1 e.namespace_id e.id ≡ some (updated e r))
      × ((update_config e s).1.config_cache ≡ s.config_cache)
      × ((update_config e s).1.changes ≡ s.changes)
unfolding update_config insert_row
update-history_clash e r old s taken there same =
    ground (arith, find-update e e.namespace_id e.id s.config)
