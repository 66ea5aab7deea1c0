-- ===== src/Config/Transfer.antt =====
-- Export and import of configurations (`export` and `import` of conreg-server/src/config/server/mod.rs). `Archiver`
-- is the crate `zip` on files of text, and serde_yaml: to make an archive may fail, and so may reading one.
-- The multipart upload is the text of the archive. An item of the metadata without an id, on which `import`
-- unwraps, is an error here.
use conreg.Prelude.{
  ℕ, String, Bool, true, Option, none, some, List, [], ◌∷◌, ◌++◌, map, Anyhow, ok, err, string_eq,
  not, ◌&&◌, is_some, if◌then◌else◌, unwrap_or, length,
}
use conreg.App.{App}
use conreg.Config.Entry.{ConfigEntry}
use conreg.Config.Manager.{get_config, list_configs_with_page, upsert_config_and_sync}
use conreg.DashMap
use conreg.DashMap.{DashMap}
use conreg.Exec.{Exec, pure, context, ◌>>=◌, ◌>>◌}
use conreg.Raft.Write.{Cluster}

abbrev pub Item : Type 0
Item = DashMap String String

pub record Archiver : Type 0 where
  pub zip : DashMap String String → Anyhow String
  pub unzip : String → Anyhow (DashMap String String)
  pub to_yaml : DashMap String (List Item) → String
  pub from_yaml : String → Anyhow (DashMap String (List Item))

abbrev pub metadata_file : String
metadata_file = ".metadata.yaml"

unfoldable pub item_of : ConfigEntry → Item
item_of e = ("id", e.id) ∷ ("format", e.format) ∷ ("description", unwrap_or e.description "") ∷ []

abbrev pub file_of : ConfigEntry → String × String
file_of e = (e.id, e.content)

unfoldable pub selected : String → List String → Exec App (List ConfigEntry)
unfolding get_config
selected namespace_id [] s = (ok [], s)
selected namespace_id (id ∷ ids) s =
    let (found, s') = get_config namespace_id id s in
    let (rest, s'') = selected namespace_id ids s' in
    elim found [
      | err e ↦ (err e, s')
      | ok config ↦ elim rest [
        | err e ↦ (err e, s'')
        | ok list ↦ (ok (elim config [ none ↦ list | some c ↦ c ∷ list ]), s'')
      ]
    ]

abbrev pub metadata_of : List ConfigEntry → DashMap String (List Item)
metadata_of list = ("metadata", map item_of list) ∷ []

module _ (a : Archiver) where
  abbrev pub files_of : List ConfigEntry → DashMap String String
  files_of list = map file_of list ++ ((metadata_file, a.to_yaml (metadata_of list)) ∷ [])

  unfoldable pub pack : List ConfigEntry → Anyhow String
  unfolding item_of
  pack list = a.zip (files_of list)

  -- All is at most ten thousand.
  unfoldable pub export : String → List String → Bool → Exec App String
  unfolding selected pack list_configs_with_page
  export namespace_id ids is_all s =
      if is_all
      then (pack (list_configs_with_page namespace_id 1 10000 (λ e. true) s).1, s)
      else (let (list, s') = selected namespace_id ids s in
          elim list [ err e ↦ (err e, s') | ok configs ↦ (pack configs, s') ])

-- `Vec::reverse`
abbrev pub reverse {ℓ} : {A : Type ℓ} → List A → List A
reverse [] = []
reverse (x ∷ xs) = reverse xs ++ (x ∷ [])

-- The ids and times of the configurations that an import makes are those of its steps, counted down.
module _ (c : Cluster) (md5_hex : String → String) (debug : Option String → String) (fresh : ℕ → ℕ)
    (now : ℕ → ℕ) (namespace_id : String) (is_overwrite : Bool) where
  -- What is not skipped.
  unfoldable pub write_item : DashMap String String → ℕ → String → Item → Exec App (Unit {0})
  unfolding upsert_config_and_sync DashMap.get
  write_item files step id item = do
    format ← context (DashMap.get "format" item) "no format"
    content ← context (DashMap.get id files) "specified file not found in archive"
    upsert_config_and_sync c md5_hex debug (fresh step) (now step) namespace_id id content
        (DashMap.get "description" item) format

  unfoldable pub import_item : DashMap String String → ℕ → Item → Exec App (Unit {0})
  unfolding get_config write_item DashMap.get
  import_item files step item = do
    id ← context (DashMap.get "id" item) "no id"
    old ← get_config namespace_id id
    (if is_some old && not is_overwrite then pure tt else write_item files step id item)

  -- The loop, which stops at the first error.
  unfoldable pub import_items : DashMap String String → List Item → Exec App (Unit {0})
  unfolding import_item
  import_items files [] = pure tt
  import_items files (item ∷ items) = do
    import_item files (length items) item
    import_items files items

  unfoldable pub import : Archiver → String → Exec App (Unit {0})
  unfolding import_items DashMap.get
  import a file s = elim (a.unzip file) [
    | err e ↦ (err e, s)
    | ok files ↦ elim (DashMap.get metadata_file files) [
      | none ↦ (err "specified file not found in archive", s)
      | some text ↦ elim (a.from_yaml text) [
        | err e ↦ (err e, s)
        | ok metadata ↦ elim (DashMap.get "metadata" metadata) [
          | none ↦ (err "no metadata", s)
          | some items ↦ import_items files (reverse items) s
        ]
      ]
    ]
  ]
