-- ===== src/Api/Reply.antt =====
-- What the handlers of the routes share: the libraries that they reach (`Server`), the answer to an
-- operation's result, a page (conreg-server/src/protocol/res.rs), and the guard of a route that needs a
-- user who is logged in (conreg-server/src/auth/mod.rs).
use conreg.Prelude.{ℕ, String, Option, List, Anyhow, ok, err}
use conreg.App.{App}
use conreg.Auth.Guard.{Outcome, UserPrincipal}
use conreg.Cache.Local.{Codec}
use conreg.DashMap.{DashMap}
use conreg.Protocol.{Res, success, error}
use conreg.Raft.Write.{Cluster}
use conreg.User.Manager.{Library}
use conreg.Values.{Value}

pub record Server : Type 0 where
  pub cluster : Cluster
  pub library : Library
  pub codec : Codec
  pub md5_hex : String → String
  pub debug : Option String → String
  pub from_value : Value → Option String
  pub meta_from_json : String → Option (DashMap String String)

pub record PageRes (T : Type 0) : Type 0 where
  pub page_num : ℕ
  pub page_size : ℕ
  pub total : ℕ
  pub list : List T

unfoldable pub page : {T : Type 0} → ℕ → ℕ → ℕ × List T → PageRes T
page page_num page_size (total, list) = record {
  page_num = page_num;
  page_size = page_size;
  total = total;
  list = list;
}

-- `Ok(x) => Res::success(x)`, `Err(e) => Res::error(&e.to_string())`
abbrev pub answer : {T : Type 0} → Anyhow T → Res T
answer (ok x) = success x
answer (err e) = error e

abbrev pub respond : {T : Type 0} → Anyhow T × App → Res T × App
respond (r, s) = (answer r, s)

-- A handler behind the guard `UserPrincipal`: it runs where the guard succeeds.
abbrev pub behind :
    {T : Type 0} → Outcome UserPrincipal × App → (UserPrincipal → App → T × App) → Outcome T × App
behind (Outcome.error status, s) handler = (Outcome.error status, s)
behind (Outcome.success user, s) handler = let (x, s') = handler user s in (Outcome.success x, s')
