-- ===== src/Namespace/Entry.antt =====
-- A namespace (conreg-server/src/namespace/server/mod.rs, lines 13 to 30).
use conreg.Prelude.{ℕ, String, Option, Bool}

pub record Namespace : Type 0 where
  pub id : String
  pub name : String
  pub description : Option String
  pub is_auth : Bool
  pub auth_token : Option String
  pub create_time : ℕ
  pub update_time : ℕ
