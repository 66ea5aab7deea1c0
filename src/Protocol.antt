-- ===== src/Protocol.antt =====
-- The responses of the server's interfaces (conreg-server/src/protocol/res.rs). A code that is not 0
-- is an error.
use conreg.Prelude.{ℕ, String, Bool, Option, none, some, ◌==◌, nat_eq}

pub record Res (T : Type 0) : Type 0 where
  pub code : ℕ
  pub msg : String
  pub content : Option T

abbrev pub success_code : ℕ
success_code = 0

abbrev pub error_code : ℕ
error_code = 1

unfoldable pub success : {T : Type 0} → T → Res T
success x = record { code = success_code; msg = ""; content = some x }

unfoldable pub error : {T : Type 0} → String → Res T
error message = record { code = error_code; msg = message; content = none }

unfoldable pub is_success : {T : Type 0} → Res T → Bool
is_success r = r.code == 0
