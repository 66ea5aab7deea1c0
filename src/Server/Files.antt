-- ===== src/Server/Files.antt =====
-- The folders of a node (`init_dir` of conreg-server/src/main.rs). The file system is a `Disk`, over whatever it
-- holds.
use conreg.Prelude.{
  String, string_eq, Bool, true, Anyhow, ok, err, concat, if◌then◌else◌, ◌≡◌, arith,
}
use conreg.Exec.{Exec, ◌>>◌}
use conreg.Server.Args.{Args}

pub record Disk (D : Type 0) : Type 0 where
  -- `fs::create_dir_all`, `File::create` and `Path::exists`
  pub create_dir_all : String → D → Anyhow (Unit {0}) × D
  pub create : String → D → Anyhow (Unit {0}) × D
  pub exists : String → D → Bool

-- `Path::join` below a folder whose name does not end in a slash
abbrev pub join : String → String → String
join folder name = concat folder (concat "/" name)

abbrev pub db_folder : Args → String
db_folder a = join a.data_dir "db"

abbrev pub db_file : Args → String
db_file a = join (db_folder a) "conreg.db"

abbrev pub raft_folder : Args → String
raft_folder a = join a.data_dir "raft"

module _ {D : Type 0} (disk : Disk D) where
  abbrev unless_exists : String → Exec D (Unit {0}) → Exec D (Unit {0})
  unless_exists path make d = if disk.exists path d then (ok tt, d) else make d

  -- `context` puts its message in the place of the error's.
  abbrev in_context : String → Exec D (Unit {0}) → Exec D (Unit {0})
  in_context message m d =
      let (res, d') = m d in (elim res [ ok _ ↦ ok tt | err e ↦ err message ], d')

  unfoldable pub init_dir : Args → Exec D (Unit {0})
  init_dir a = do
    in_context "Failed to create data dir" (disk.create_dir_all a.data_dir)
    unless_exists (db_file a) (do disk.create_dir_all (db_folder a); disk.create (db_file a))
    unless_exists (raft_folder a) (disk.create_dir_all (raft_folder a))

-- What a file system does with what is there: a folder or file that was made exists, a folder that exists
-- is not made again, and nothing that exists goes away.
pub record IsKept {D : Type 0} (disk : Disk D) : Type 0 where
  pub made_dir :
      (p : String) (d : D)
      → (disk.create_dir_all p d).0 ≡ ok tt
      → disk.exists p (disk.create_dir_all p d).1 ≡ true
  pub made_file :
      (p : String) (d : D) → (disk.create p d).0 ≡ ok tt → disk.exists p (disk.create p d).1 ≡ true
  pub again : (p : String) (d : D) → disk.exists p d ≡ true → disk.create_dir_all p d ≡ (ok tt, d)
  pub kept_dir :
      (p q : String) (d : D)
      → disk.exists q d ≡ true
      → disk.exists q (disk.create_dir_all p d).1 ≡ true
  pub kept_file :
      (p q : String) (d : D) → disk.exists q d ≡ true → disk.exists q (disk.create p d).1 ≡ true

module _ {D : Type 0} (disk : Disk D) (keeps : IsKept disk) (a : Args) where
  -- A node whose folders are there changes nothing: above all, it does not create its database anew.
  pub init_dir-there :
      (d : D)
      → disk.exists a.data_dir d ≡ true
      → disk.exists (db_file a) d ≡ true
      → disk.exists (raft_folder a) d ≡ true
      → init_dir disk a d ≡ (ok tt, d)
  unfolding init_dir
  init_dir-there d p q r = ground (arith, keeps.again a.data_dir d)

  -- Folders that were made are there.
  pub there-init_dir :
      (d : D)
      → (init_dir disk a d).0 ≡ ok tt
      → (disk.exists a.data_dir (init_dir disk a d).1 ≡ true)
        × (disk.exists (db_file a) (init_dir disk a d).1 ≡ true)
        × (disk.exists (raft_folder a) (init_dir disk a d).1 ≡ true)
  unfolding init_dir
  there-init_dir d h =
      let d₁ = (disk.create_dir_all a.data_dir d).1 in
      let d₂ = (disk.create_dir_all (db_folder a) d₁).1 in
      let d₃ = (disk.create (db_file a) d₂).1 in
      (
        ground (
          arith,
          keeps.made_dir a.data_dir d,
          keeps.kept_dir (db_folder a) a.data_dir d₁,
          keeps.kept_file (db_file a) a.data_dir d₂,
          keeps.kept_dir (raft_folder a) a.data_dir d₁,
          keeps.kept_dir (raft_folder a) a.data_dir d₃,
        ),
        ground (
          arith,
          keeps.made_file (db_file a) d₂,
          keeps.kept_dir (raft_folder a) (db_file a) d₁,
          keeps.kept_dir (raft_folder a) (db_file a) d₃,
        ),
        ground (arith, keeps.made_dir (raft_folder a) d₁, keeps.made_dir (raft_folder a) d₃),
      )

  -- Making the folders of a node again changes nothing.
  pub init_dir-again :
      (d : D)
      → (init_dir disk a d).0 ≡ ok tt
      → init_dir disk a (init_dir disk a d).1 ≡ (ok tt, (init_dir disk a d).1)
  init_dir-again d h =
      let (p, q, r) = there-init_dir d h in init_dir-there (init_dir disk a d).1 p q r
