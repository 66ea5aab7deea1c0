-- ===== src/Config/Entry.antt =====
-- A configuration and the event that it changed (conreg-server/src/config/server/mod.rs, lines 19 to
-- 67). Times are milliseconds and ids the numbers that the id generator gives, both from 0 on.
use conreg.Prelude.{ℕ, String, Option, concat}

pub record ConfigEntry : Type 0 where
  pub id_ : ℕ
  pub namespace_id : String
  pub id : String
  pub content : String
  pub create_time : ℕ
  pub update_time : ℕ
  pub description : Option String
  pub format : String
  pub md5 : String

-- `debug` is Rust's `{:?}` of a description, and `md5_hex` the hexadecimal digest of a text.
unfoldable pub gen_md5 :
    (String → String) → (Option String → String) → String → Option String → String
gen_md5 md5_hex debug content description = md5_hex (concat content (debug description))

pub record ConfigChangeEvent : Type 0 where
  pub namespace_id : String
  pub config_id : String
