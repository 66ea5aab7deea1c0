-- ===== src/User/Entry.antt =====
-- A user of the console (conreg-server/src/system/user/mod.rs, lines 15 to 25). The permissions are a
-- JSON list of texts.
use conreg.Prelude.{ℕ, String, Option}

pub record User : Type 0 where
  pub username : String
  pub password : String
  pub permissions : Option String
  pub create_time : ℕ
