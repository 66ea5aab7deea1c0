-- ===== src/Config/Writes.antt =====
-- The writes that every node applies: `insert_config`, `update_config` and `delete_config`
-- (conreg-server/src/config/server/mod.rs, lines 171 to 318).
use conreg.Prelude.{
  String, true, false, none, some, List, [], ◌∷◌, ◌++◌, ◌==◌, nat_eq, string_eq, pair_eq, ◌&&◌,
  if◌then◌else◌, ok, ◌≡◌, refl, arith, eq_iff, inl, inr, Option-cases, find,
}
use conreg.DashMap.{get-remove}
use conreg.Sql.{delete_where, insert_row, find-snoc}
use conreg.App.{App}
use conreg.Config.Entry.{ConfigEntry, ConfigChangeEvent}
use conreg.Config.Manager.{
  at_id, clash, get_config, history_row, insert_config, updated, update_config, delete_config,
}
use conreg.Config.Reads.{row, IsCoherent, find-update}

abbrev pub event : ConfigEntry → ConfigChangeEvent
event e = record { namespace_id = e.namespace_id; config_id = e.id }

row_clash :
    (e : ConfigEntry) (rows : List ConfigEntry)
    → find (λ old. clash old e) rows ≡ none
    → find (at_id e.namespace_id e.id) rows ≡ none
row_clash e [] h = refl
row_clash e (r ∷ rows) h = ground (arith, row_clash e rows)

-- An insertion that succeeds found no row under its key, and then its entry is the row of its key, all
-- other rows are as they were, its history row is the last of the history, the change is announced,
-- and the cache is untouched.
pub insert_config-ok :
    (e : ConfigEntry) (s : App)
    → (insert_config e s).0 ≡ ok tt
    → (row s e.namespace_id e.id ≡ none)
      × ((n i : String)
          → row (insert_config e s).1 n i ≡ (if at_id n i e then some e else row s n i))
      × ((insert_config e s).1.config_history ≡ s.config_history ++ (history_row e ∷ []))
      × ((insert_config e s).1.changes ≡ s.changes ++ (event e ∷ []))
      × ((insert_config e s).1.config_cache ≡ s.config_cache)
unfolding insert_config insert_row
insert_config-ok e s done = (
  ground (arith, row_clash e s.config),
  λ n i. ground (
    arith,
    find-snoc (at_id n i) s.config e,
    row_clash e s.config,
    eq_iff e.namespace_id n,
    eq_iff e.id i,
  ),
  ground arith,
  ground arith,
  ground arith,
)

pub insert_config-args :
    (e : ConfigEntry) (s : App) → (insert_config e s).1.enable_cache_config ≡ s.enable_cache_config
unfolding insert_config insert_row
insert_config-args e s = ground arith

-- After a successful insertion the entry is what a read of its key returns, if the cache is off.
pub get_config-insert_config :
    (e : ConfigEntry) (s : App)
    → s.enable_cache_config ≡ false
    → (insert_config e s).0 ≡ ok tt
    → (n i : String)
    → (get_config n i (insert_config e s).1).0 ≡ ok (if at_id n i e then some e else row s n i)
unfolding get_config
get_config-insert_config e s off done n i =
    ground (arith, (insert_config-ok e s done).1 n i, insert_config-args e s)

-- An entry that an update may carry: the row with its id is the row of its key.
abbrev pub Owns : ConfigEntry → App → Type 0
Owns e s = (n i : String) (r : ConfigEntry) → row s n i ≡ some r → (r.id_ == e.id_) ≡ at_id n i e

-- An update whose id is the id of the row of its key and of no other row, and that succeeds, changes that
-- row and no other, makes no row for a key that had none, adds its history row, announces the change, and
-- keeps a coherent cache coherent where it is on, also for the key that it changed.
pub update_config-ok :
    (e : ConfigEntry) (s : App)
    → Owns e s
    → (update_config e s).0 ≡ ok tt
    → ((n i : String) (r : ConfigEntry)
        → row s n i ≡ some r
        → row (update_config e s).1 n i ≡ some (if at_id n i e then updated e r else r))
      × ((n i : String) → row s n i ≡ none → row (update_config e s).1 n i ≡ none)
      × ((update_config e s).1.config_history ≡ s.config_history ++ (history_row e ∷ []))
      × ((update_config e s).1.changes ≡ s.changes ++ (event e ∷ []))
      × (s.enable_cache_config ≡ true → IsCoherent s → IsCoherent (update_config e s).1)
unfolding update_config insert_row
update_config-ok e s owns done = (
  λ n i r h. ground (arith, find-update e n i s.config, owns n i r h),
  λ n i h. ground (arith, find-update e n i s.config),
  ground arith,
  ground arith,
  λ on c. record {
    at_key = λ n i v p. elim (Option-cases (row s n i)) [
      | inl h ↦ ground (
        arith,
        find-update e n i s.config,
        get-remove (e.namespace_id, e.id) (n, i) s.config_cache,
        c.at_key n i v,
      )
      | inr (r, h) ↦ ground (
        arith,
        find-update e n i s.config,
        owns n i r h,
        get-remove (e.namespace_id, e.id) (n, i) s.config_cache,
        c.at_key n i v,
      )
    ];
  },
)

find-delete :
    (n i m j : String) (rows : List ConfigEntry)
    → find (at_id m j) (delete_where (at_id n i) rows)
      ≡ (if n == m && i == j then none else find (at_id m j) rows)
find-delete n i m j [] = ground arith
find-delete n i m j (r ∷ rows) = ground (
  arith,
  find-delete n i m j rows,
  eq_iff r.namespace_id n,
  eq_iff r.id i,
  eq_iff r.namespace_id m,
  eq_iff r.id j,
  eq_iff n m,
  eq_iff i j,
)

-- A deletion always succeeds, and leaves neither the row nor a history row of its key; the rows and
-- the history rows of other keys stay. It announces nothing and leaves the cache as it is.
pub delete_config_lem :
    (n i : String) (s : App)
    → ((delete_config n i s).0 ≡ ok tt)
      × ((m j : String)
          → row (delete_config n i s).1 m j ≡ (if n == m && i == j then none else row s m j))
      × ((m j : String)
          → find (at_id m j) (delete_config n i s).1.config_history
            ≡ (if n == m && i == j then none else find (at_id m j) s.config_history))
      × ((delete_config n i s).1.changes ≡ s.changes)
      × ((delete_config n i s).1.config_cache ≡ s.config_cache)
unfolding delete_config
delete_config_lem n i s = (
  refl,
  λ m j. find-delete n i m j s.config,
  λ m j. find-delete n i m j s.config_history,
  refl,
  refl,
)
