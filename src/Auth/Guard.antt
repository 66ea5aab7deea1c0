-- ===== src/Auth/Guard.antt =====
-- The guards of requests (conreg-server/src/auth/mod.rs): a user who is logged in, and a client that may
-- read a namespace. `token` is the second word of the header `Authorization`, where there is one, and
-- `from_value` is serde_json, which reads a user's name from the cached value. `namespace_id` is the
-- query's, which may be missing or unreadable.
use conreg.Prelude.{
  String, ℕ, Bool, true, false, Option, none, some, Anyhow, ok, err, if◌then◌else◌,
}
use conreg.App.{App}
use conreg.Cache.Local
use conreg.Cache.Local.{Codec}
use conreg.Namespace.Manager.{auth}
use conreg.User.Manager.{token_key}
use conreg.Values.{Value}

pub data Status : Type 0 where
  unauthorized bad_request internal_server_error : Status

pub data Outcome (A : Type 0) : Type 0 where
  success : A → Outcome A
  error : Status → Outcome A

pub record UserPrincipal : Type 0 where
  pub username : String
  pub token : String

-- The half of `NamespaceAuth::from_request` behind the console's way in.
unfoldable pub check_namespace :
    Option (Anyhow String) → Option String → App → Outcome (Unit {0}) × App
unfolding auth
check_namespace none ns_token s = (Outcome.error Status.bad_request, s)
check_namespace (some (err e)) ns_token s = (Outcome.error Status.unauthorized, s)
check_namespace (some (ok namespace_id)) ns_token s =
    let (answer, s') = auth namespace_id ns_token s in
    elim answer [
      | ok pass ↦ (if pass then Outcome.success tt else Outcome.error Status.unauthorized, s')
      | err e ↦ (Outcome.error Status.internal_server_error, s')
    ]

module _ (codec : Codec) (from_value : Value → Option String) (now : ℕ) where
  -- `UserPrincipal::from_request`
  unfoldable pub require_login : Option String → App → Outcome UserPrincipal × App
  unfolding Local.get
  require_login none s = (Outcome.error Status.unauthorized, s)
  require_login (some token) s =
      let (found, cache) = Local.get codec now (token_key token) s.cache in
      let s' = record s { cache = cache } in
      elim found [
        | none ↦ (Outcome.error Status.unauthorized, s')
        | some v ↦ elim (from_value v) [
          | none ↦ (Outcome.error Status.unauthorized, s')
          | some name ↦ (Outcome.success (record { username = name; token = token }), s')
        ]
      ]

  -- `NamespaceAuth::from_request`
  unfoldable pub admit :
      Bool → Option String → Option (Anyhow String) → Option String → App → Outcome (Unit {0}) × App
  unfolding require_login check_namespace
  admit false token namespace_id ns_token s = check_namespace namespace_id ns_token s
  admit true token namespace_id ns_token s =
      let (user, s') = require_login token s in
      elim user [
        | Outcome.success u ↦ (Outcome.success tt, s')
        | Outcome.error status ↦ check_namespace namespace_id ns_token s'
      ]
