-- ===== src/Discovery/Service.antt =====
-- A registered service, as a request carries it and as its table holds it
-- (conreg-server/src/discovery/server/mod.rs, lines 19 to 49, and the `service` table of
-- conreg-server/src/db/init.sql).
use conreg.Prelude.{ℕ, String, Option}
use conreg.DashMap.{DashMap}

pub record State : Type 0 where
  pub total_instances : ℕ
  pub up_instances : ℕ

pub record Service : Type 0 where
  pub service_id : String
  pub namespace_id : String
  pub meta : DashMap String String
  pub create_time : ℕ
  pub state : State

-- A row of the table: `meta` is text, or null.
pub record ServiceRow : Type 0 where
  pub service_id : String
  pub namespace_id : String
  pub meta : Option String
  pub create_time : ℕ
  pub update_time : ℕ
