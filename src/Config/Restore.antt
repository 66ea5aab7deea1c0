-- ===== src/Config/Restore.antt =====
-- An import of what was exported (conreg-server/src/config/server/mod.rs).
use conreg.Prelude.{
  ℕ, String, Bool, false, Option, some, List, [], ◌∷◌, ◌++◌, map, ok, ◌≡◌, refl, ap, ◌∙◌, sym,
  arith, string_eq, not, ◌&&◌, is_some, if◌then◌else◌, unwrap_or, length, length-map, map-append,
  All, NoRepeat, contains, All-append, eq_iff,
}
use conreg.App.{App}
use conreg.Config.Entry.{ConfigEntry}
use conreg.Config.Manager.{get_config, upsert_config_and_sync}
use conreg.Config.Transfer.{
  Archiver, metadata_file, item_of, file_of, metadata_of, files_of, pack, reverse, write_item,
  import_item, import_items, import,
}
use conreg.DashMap
use conreg.DashMap.{DashMap}
use conreg.Exec.{Exec, pure, ◌>>=◌, ◌>>◌}
use conreg.Raft.Write.{Cluster}

-- What the program relies on: the archive of some configurations is read as it was written, and so is their
-- metadata.
pub record IsFaithful (a : Archiver) (list : List ConfigEntry) : Type 0 where
  pub unzips :
      (bytes : String) → a.zip (files_of a list) ≡ ok bytes → a.unzip bytes ≡ ok (files_of a list)
  pub yaml : a.from_yaml (a.to_yaml (metadata_of list)) ≡ ok (metadata_of list)

abbrev pub ids_of : List ConfigEntry → List String
ids_of list = map (λ e. e.id) list

abbrev Stored : DashMap String String → ConfigEntry → Type 0
Stored files e = DashMap.get e.id files ≡ some e.content

-- A file in front changes no other.
Stored-cons :
    (x : ConfigEntry) (files : DashMap String String) (es : List ConfigEntry)
    → contains (ids_of es) x.id ≡ false
    → All (Stored files) es
    → All (Stored (file_of x ∷ files)) es
unfolding DashMap.get
Stored-cons x files [] h all = tt
Stored-cons x files (e ∷ es) h (here, all) = (
  ground (arith, h, here, eq_iff e.id x.id, eq_iff x.id e.id),
  Stored-cons x files es (ground (arith, h)) all,
)

Stored-files :
    (es : List ConfigEntry) (rest : DashMap String String)
    → NoRepeat (ids_of es)
    → All (Stored (map file_of es ++ rest)) es
unfolding DashMap.get
Stored-files [] rest h = tt
Stored-files (e ∷ es) rest (new, h) = (
  ground (arith, eq_iff e.id e.id),
  Stored-cons e (map file_of es ++ rest) es new (Stored-files es rest h),
)

get-metadata_file :
    (es : List ConfigEntry) (text : String)
    → contains (ids_of es) metadata_file ≡ false
    → DashMap.get metadata_file (map file_of es ++ ((metadata_file, text) ∷ [])) ≡ some text
unfolding DashMap.get
get-metadata_file [] text h = refl
get-metadata_file (e ∷ es) text h =
    ground (arith, h, get-metadata_file es text, eq_iff e.id metadata_file)

module _ (c : Cluster) (md5_hex : String → String) (debug : Option String → String) (fresh : ℕ → ℕ)
    (now : ℕ → ℕ) (namespace_id : String) (is_overwrite : Bool) where
  -- A configuration is submitted again, unless there is one that may not be overwritten.
  unfoldable pub restore : ConfigEntry → ℕ → Exec App (Unit {0})
  unfolding get_config upsert_config_and_sync
  restore e step = do
    old ← get_config namespace_id e.id
    (if is_some old && not is_overwrite
        then pure tt
        else upsert_config_and_sync c md5_hex debug (fresh step) (now step) namespace_id e.id
            e.content (some (unwrap_or e.description "")) e.format)

  unfoldable pub restore_all : List ConfigEntry → Exec App (Unit {0})
  unfolding restore
  restore_all [] = pure tt
  restore_all (e ∷ es) = do restore e (length es); restore_all es

  write_item-upsert :
      (files : DashMap String String) (e : ConfigEntry) (step : ℕ) (s : App)
      → Stored files e
      → write_item c md5_hex debug fresh now namespace_id is_overwrite files step e.id (item_of e) s
        ≡ upsert_config_and_sync c md5_hex debug
            (fresh step)
            (now step)
            namespace_id
            e.id
            e.content
            (some (unwrap_or e.description ""))
            e.format
            s
  unfolding write_item item_of DashMap.get
  write_item-upsert files e step s stored = ground (arith, stored)

  import_item-restore :
      (files : DashMap String String) (e : ConfigEntry) (step : ℕ) (s : App)
      → Stored files e
      → import_item c md5_hex debug fresh now namespace_id is_overwrite files step (item_of e) s
        ≡ restore e step s
  unfolding import_item restore item_of DashMap.get
  import_item-restore files e step s stored =
      ground (arith, write_item-upsert files e step (get_config namespace_id e.id s).1 stored)

  import_items-restore_all :
      (files : DashMap String String) (es : List ConfigEntry) (s : App)
      → All (Stored files) es
      → import_items c md5_hex debug fresh now namespace_id is_overwrite files (map item_of es) s
        ≡ restore_all es s
  unfolding import_items restore_all
  import_items-restore_all files [] s all = refl
  import_items-restore_all files (e ∷ es) s (here, all) = ground (
    arith,
    length-map item_of es,
    import_item-restore files e (length es) s here,
    import_items-restore_all files es (restore e (length es) s).1 all,
  )

map-reverse : {A B : Type 0} (f : A → B) (xs : List A) → map f (reverse xs) ≡ reverse (map f xs)
map-reverse f [] = refl
map-reverse f (x ∷ xs) =
    map-append f (reverse xs) (x ∷ []) ∙ ap (λ ys. ys ++ (f x ∷ [])) (map-reverse f xs)

All-reverse : {A : Type 0} (P : A → Type 0) (xs : List A) → All P xs → All P (reverse xs)
All-reverse P [] all = tt
All-reverse P (x ∷ xs) (here, all) =
    All-append P (reverse xs) (x ∷ []) (All-reverse P xs all) (here, tt)

-- An archive of configurations whose ids differ from each other and from the name of the metadata's file
-- is imported by submitting each of them again, the last one first, with its content and its format;
-- without the right to overwrite, those that exist are skipped. A description that was missing comes back as
-- an empty text.
pub import-pack :
    (a : Archiver) (c : Cluster) (md5_hex : String → String) (debug : Option String → String)
    (fresh now : ℕ → ℕ) (namespace_id : String) (is_overwrite : Bool) (list : List ConfigEntry)
    (bytes : String) (s : App)
    → IsFaithful a list
    → NoRepeat (ids_of list)
    → contains (ids_of list) metadata_file ≡ false
    → pack a list ≡ ok bytes
    → import c md5_hex debug fresh now namespace_id is_overwrite a bytes s
      ≡ restore_all c md5_hex debug fresh now namespace_id is_overwrite (reverse list) s
unfolding import pack DashMap.get
import-pack a c md5_hex debug fresh now namespace_id is_overwrite list bytes s faithful new plain
      packed =
    let last : DashMap String String = (metadata_file, a.to_yaml (metadata_of list)) ∷ [] in
    let files = files_of a list in
    let stored : All (Stored files) (reverse list) =
      All-reverse (Stored files) list (Stored-files list last new) in
    ground (
      arith,
      faithful.unzips bytes packed,
      get-metadata_file list (a.to_yaml (metadata_of list)) plain,
      faithful.yaml,
    )
    ∙ ap (λ items. import_items c md5_hex debug fresh now namespace_id is_overwrite files items s)
        (sym (map-reverse item_of list))
    ∙ import_items-restore_all c md5_hex debug fresh now namespace_id is_overwrite files
        (reverse list) s stored
