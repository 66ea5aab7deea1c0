-- ===== src/Client/Start.antt =====
-- The start of the client from a file (`Conreg::init`, `init`, `init_from_file` and `init_with` of
-- conreg-client/src/lib.rs). The file system is `exists` and `read_to_string`, and serde_yaml is `from_str`.
use conreg.Prelude.{
  String, Bool, true, false, Option, none, some, Anyhow, ok, err, not, if◌then◌else◌, unwrap_or,
  ◌≡◌, ◌↔◌, arith, Bool-cases, Result-cases, inl, inr,
}
use conreg.Client.Bootstrap
use conreg.Client.Bootstrap.{Center, Process}
use conreg.Client.Conf.{ConRegConfig}
use conreg.Client.Configs.{Merge}
use conreg.Run.{Run}

pub record Disk : Type 0 where
  pub exists : String → Bool
  pub read_to_string : String → Anyhow String
  pub from_str : String → Anyhow ConRegConfig

-- The end of the start: the process runs on, ends with the code 1, or panics.
pub data Started : Type 0 where
  running exited panicked : Started

abbrev or_exit : Run (Unit {0}) × Process → Started × Process
or_exit (Run.returned _, p) = (Started.running, p)
or_exit (Run.failed e, p) = (Started.exited, p)
or_exit (Run.panicked, p) = (Started.panicked, p)

module _ (center : Center) (merge : Merge) where
  -- the public `init_with`
  unfoldable pub init_with : ConRegConfig → Process → Started × Process
  unfolding Bootstrap.init_with
  init_with config p = or_exit (Bootstrap.init_with center merge config p)

  module _ (disk : Disk) where
    abbrev parsed : Anyhow ConRegConfig → Process → Started × Process
    parsed (err e) p = (Started.exited, p)
    parsed (ok config) p = init_with config p

    abbrev opened : Anyhow String → Process → Started × Process
    opened (err e) p = (Started.exited, p)
    opened (ok s) p = parsed (disk.from_str s) p

    abbrev pub file_of : Option String → String
    file_of given =
        let file = unwrap_or given "bootstrap.yaml" in
        if not (disk.exists file) then "bootstrap.yml" else file

    -- `Conreg::init`, with the exit of its callers
    unfoldable pub start : Option String → Process → Started × Process
    unfolding init_with
    start given p = opened (disk.read_to_string (file_of given)) p

    unfoldable pub init : Process → Started × Process
    unfolding start
    init = start none

    unfoldable pub init_from_file : String → Process → Started × Process
    unfolding start
    init_from_file path = start (some path)

    -- The file that is read for a path: it, if it is there, and `bootstrap.yml` otherwise.
    abbrev pub file_read : String → String
    file_read path = if disk.exists path then path else "bootstrap.yml"

    -- The file can be read, is a configuration, and the client starts with it and runs on.
    abbrev pub StartsFrom : String → Process → Type 0
    StartsFrom file p =
        (s : String) × (config : ConRegConfig) × (disk.read_to_string file ≡ ok s)
        × (disk.from_str s ≡ ok config)
        × ((init_with config p).0 ≡ Started.running)

    opened-StartsFrom :
        (file : String) (p : Process)
        → ((opened (disk.read_to_string file) p).0 ≡ Started.running) ↔ StartsFrom file p
    opened-StartsFrom file p = elim (Result-cases (disk.read_to_string file)) [
      | inl (s, r) ↦ elim (Result-cases (disk.from_str s)) [
        | inl (config, c) ↦ (
          λ h. (s, config, r, c, ground (arith, h, r, c)),
          λ (s', config', r', c', h). ground (arith, h, r, c, r', c'),
        )
        | inr (e, c) ↦ (
          λ h. absurd (ground (arith, h, r, c)),
          λ (s', config', r', c', h). absurd (ground (arith, r, c, r', c')),
        )
      ]
      | inr (e, r) ↦ (
        λ h. absurd (ground (arith, h, r)),
        λ (s', config', r', c', h). absurd (ground (arith, r, r')),
      )
    ]

    start-StartsFrom :
        (path : String) (p : Process)
        → ((init_from_file path p).0 ≡ Started.running) ↔ StartsFrom (file_read path) p
    unfolding init_from_file start
    start-StartsFrom path p = elim (Bool-cases (disk.exists path)) [
      | inl there ↦ rw there (opened-StartsFrom path p)
      | inr gone ↦ rw gone (opened-StartsFrom "bootstrap.yml" p)
    ]

    -- A start from a file that is not there is the start from `bootstrap.yml`, whatever file was asked for. The
    -- process runs on after a start exactly if the file (the one asked for if it is there, and `bootstrap.yml`
    -- otherwise) can be read and is a configuration with which the client starts and runs on. A file that is
    -- there and that cannot be read, or is no configuration, ends the process and changes nothing.
    pub init_from_file_lem :
        (path : String) (p : Process)
        → (disk.exists path ≡ false → init_from_file path p ≡ init_from_file "bootstrap.yml" p)
          × (((init_from_file path p).0 ≡ Started.running) ↔ StartsFrom (file_read path) p)
          × ((e : String)
              → disk.exists path ≡ true
              → disk.read_to_string path ≡ err e
              → init_from_file path p ≡ (Started.exited, p))
          × ((s e : String)
              → disk.exists path ≡ true
              → disk.read_to_string path ≡ ok s
              → disk.from_str s ≡ err e
              → init_from_file path p ≡ (Started.exited, p))
    unfolding init_from_file
    init_from_file_lem path p = (
      λ h. elim (Bool-cases (disk.exists "bootstrap.yml")) [
        | inl e ↦ ground (arith, h, e)
        | inr e ↦ ground (arith, h, e)
      ],
      start-StartsFrom path p,
      λ e h r. ground (arith, h, r),
      λ s e h r c. ground (arith, h, r, c),
    )
