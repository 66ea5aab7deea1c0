-- ===== src/Config/Reads.antt =====
-- What `get_config` returns, and whether the cache agrees with the table
-- (conreg-server/src/config/server/mod.rs, lines 86 to 255).
use conreg.Prelude.{
  String, Option, none, some, List, [], ◌∷◌, ◌==◌, nat_eq, string_eq, pair_eq, pair_beq_iff,
  if◌then◌else◌, ok, ◌≡◌, refl, arith, eq_iff, inl, inr, Option-cases, Bool-cases, find,
}
use conreg.DashMap
use conreg.DashMap.{get-insert, get-remove, get-remove_self}
use conreg.Sql.{fetch_optional, update_where}
use conreg.App.{App}
use conreg.Config.Entry.{ConfigEntry}
use conreg.Config.Manager.{at_id, get_config, updated}

abbrev pub row : App → String → String → Option ConfigEntry
row s n i = fetch_optional (at_id n i) s.config

-- Whatever the cache holds for a key is what the table holds.
pub record IsCoherent (s : App) : Type 0 where
  pub at_key :
      (n i : String) (v : Option ConfigEntry)
      → DashMap.get (n, i) s.config_cache ≡ some v
      → v ≡ row s n i

-- With a coherent cache, or none, a read returns the row of the table, changes no table, and leaves
-- the cache coherent.
pub get_config-row :
    (n i : String) (s : App)
    → IsCoherent s
    → ((get_config n i s).0 ≡ ok (row s n i))
      × ((get_config n i s).1.config ≡ s.config)
      × ((get_config n i s).1.config_history ≡ s.config_history)
      × IsCoherent (get_config n i s).1
unfolding get_config
get_config-row n i s h = elim (Bool-cases s.enable_cache_config) [
  | inl on ↦ elim (Option-cases (DashMap.get (n, i) s.config_cache)) [
    | inl e ↦ (
      ground arith,
      ground arith,
      ground arith,
      record {
        at_key = λ m j v p. ground (
          arith,
          get-insert (n, i) (m, j) (row s n i) s.config_cache,
          pair_beq_iff (n, i) (m, j),
          h.at_key m j v,
          eq_iff n m,
          eq_iff i j,
        );
      },
    )
    | inr (v, e) ↦ (
      ground (arith, h.at_key n i v e),
      ground arith,
      ground arith,
      record { at_key = λ m j u p. ground (arith, h.at_key m j u) },
    )
  ]
  | inr off ↦ (
    ground arith,
    ground arith,
    ground arith,
    record { at_key = λ m j u p. ground (arith, h.at_key m j u) },
  )
]

pub find-update :
    (e : ConfigEntry) (n i : String) (rows : List ConfigEntry)
    → find (at_id n i) (update_where (λ r. r.id_ == e.id_) (updated e) rows)
      ≡ elim (find (at_id n i) rows) [
        | none ↦ none
        | some r ↦ some (if r.id_ == e.id_ then updated e r else r)
      ]
unfolding updated
find-update e n i [] = refl
find-update e n i (r ∷ rows) = ground (arith, find-update e n i rows)
