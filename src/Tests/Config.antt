-- ===== src/Tests/Config.antt =====
-- Runs of the configuration centre (conreg-server/src/config/server/mod.rs).
use conreg.Prelude.{
  ℕ, ◌≤◌, Bool, length, ◌+◌, String, true, false, List, err, map, none, some, [], ◌∷◌, ◌++◌, ◌==◌,
  string_eq, nat_eq, pair_eq, if◌then◌else◌, ok, ◌≡◌, refl, arith, is_ok, find,
}
use conreg.DashMap
use conreg.DashMap.{DashMap}
use conreg.Sql.{insert_row}
use conreg.App.{App}
use conreg.Config.Entry.{ConfigEntry, gen_md5}
use conreg.Config.Manager
use conreg.Config.Manager.{
  at_id, get_config, insert_config, update_config, delete_config, updated, history_row,
}
use conreg.Config.Reads.{row, IsCoherent}
use conreg.Config.Writes.{event, Owns, get_config-insert_config, update_config-ok}
use conreg.Config.Sync.{
  request, handed, upsert_config_and_sync-handed, handle_raft_request-set_config,
}
use conreg.Event.{handle_raft_request}
use conreg.Raft.{RaftRequest}
use conreg.Config.Transfer.{
  Archiver, Item, metadata_file, file_of, metadata_of, pack, reverse, import,
}
use conreg.Config.Restore.{IsFaithful, restore_all, import-pack}
use conreg.Config.Pages.{matching, page, list_configs_with_page-all}
use conreg.Sql.Pages.{pages, IsDescending}
use mathlib.Core.List.{Perm}
use conreg.Tests.Node.{entry, update, empty, caching, leader, digest, debug, library}

program : Unit {0}
unfolding insert_config update_config delete_config get_config insert_row
    Manager.upsert_config_and_sync handle_raft_request history_row updated request handed gen_md5
program = tt

-- Nodes that have the entry, with and without a cache, and one that has read it before it was there.
abbrev holding : App
unfolding program
holding = (insert_config entry empty).1

abbrev cached : App
unfolding program
cached = (get_config "public" "app.yaml" (insert_config entry caching).1).1

IsCoherent-empty : IsCoherent empty
unfolding DashMap.get
IsCoherent-empty = record { at_key = λ n i v h. absurd (ground arith) }

get_config-insert_config_example :
    (get_config "public" "app.yaml" (insert_config entry empty).1).0 ≡ ok (some entry)
unfolding program
get_config-insert_config_example =
    get_config-insert_config entry empty refl refl "public" "app.yaml"

found_only :
    (n i : String) (r : ConfigEntry)
    → find (at_id n i) (entry ∷ []) ≡ some r
    → (r.id_ == update.id_) ≡ at_id n i update
found_only n i r h = ground arith

owns : Owns update holding
unfolding program
owns = found_only

update_config-ok_example :
    ((n i : String) (r : ConfigEntry)
      → row holding n i ≡ some r
      → row (update_config update holding).1 n i
        ≡ some (if at_id n i update then updated update r else r))
    × ((n i : String) → row holding n i ≡ none → row (update_config update holding).1 n i ≡ none)
    × ((update_config update holding).1.config_history
        ≡ holding.config_history ++ (history_row update ∷ []))
    × ((update_config update holding).1.changes ≡ holding.changes ++ (event update ∷ []))
    × (holding.enable_cache_config ≡ true
        → IsCoherent holding
        → IsCoherent (update_config update holding).1)
unfolding program
update_config-ok_example = update_config-ok update holding owns refl

upsert_config_and_sync-handed_example :
    (is_ok
        (Manager.upsert_config_and_sync leader digest debug 1 100 "public" "app.yaml" "a: 1" none
          "yaml" empty).0
      ≡ true)
    × ((Manager.upsert_config_and_sync leader digest debug 1 100 "public" "app.yaml" "a: 1" none
          "yaml" empty).1.submitted
        ≡ RaftRequest.set_config entry ∷ [])
    × ((Manager.upsert_config_and_sync leader digest debug 1 100 "public" "app.yaml" "a: 1" none
          "yaml" empty).1.config
        ≡ [])
unfolding program
upsert_config_and_sync-handed_example =
    upsert_config_and_sync-handed leader digest debug 1 100 "public" "app.yaml" "a: 1" none "yaml"
      empty IsCoherent-empty

handle_raft_request-set_config_example :
    let t = handle_raft_request library (λ m. "") 300 (RaftRequest.set_config entry) empty in
    ((n i : String) → row t n i ≡ (if at_id n i entry then some entry else row empty n i))
    × (t.config_history ≡ [] ++ (history_row entry ∷ []))
    × (t.changes ≡ [] ++ (event entry ∷ []))
    × (t.config_cache ≡ [])
    × (false ≡ false
        → (n i : String)
        → (get_config n i t).0 ≡ ok (if at_id n i entry then some entry else row empty n i))
handle_raft_request-set_config_example =
    handle_raft_request-set_config library (λ m. "") 300 entry empty refl refl refl

-- An archiver for one configuration: its archive names the first file, and is read as that of this
-- configuration.
abbrev metadata_text : DashMap String (List Item) → String
metadata_text metadata = "metadata"

abbrev one : List ConfigEntry
one = entry ∷ []

abbrev archiver : Archiver
archiver = record {
  zip = λ files. elim files [ [] ↦ err "no file" | f ∷ fs ↦ ok f.0 ];
  unzip = λ bytes. ok (map file_of one ++ ((metadata_file, "metadata") ∷ []));
  to_yaml = metadata_text;
  from_yaml = λ text. ok (metadata_of one);
}

IsFaithful-archiver : IsFaithful archiver one
IsFaithful-archiver = record { unzips = λ bytes packed. refl; yaml = refl }

abbrev counted : ℕ → ℕ
counted step = 7 + step

import-pack_example :
    import leader digest debug counted counted "team" false archiver "app.yaml" empty
    ≡ restore_all leader digest debug counted counted "team" false (reverse one) empty
unfolding pack
import-pack_example =
    import-pack archiver leader digest debug counted counted "team" false one "app.yaml" empty
      IsFaithful-archiver (refl, tt) refl refl

abbrev all : ConfigEntry → Bool
all e = true

list_configs_with_page-all_example :
    ((p : ℕ)
      → (length (page "public" 1 all holding p) ≤ 1)
        × ((Manager.list_configs_with_page "public" p 1 all holding).0
            ≡ length (matching "public" all holding)))
    × Perm (pages (page "public" 1 all holding) 1) (matching "public" all holding)
    × IsDescending (λ e. e.id_) (pages (page "public" 1 all holding) 1)
unfolding program
list_configs_with_page-all_example =
    list_configs_with_page-all "public" 1 1 all holding (omega arith) (omega arith) (omega arith)
