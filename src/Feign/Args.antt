-- ===== src/Feign/Args.antt =====
-- The arguments of the attribute `feign_client` (`parse_feign_client_args`, `parse_string_value`).
use conreg.Prelude.{
  String, Option, none, some, List, [], ◌∷◌, Result, ok, err, string_eq, if◌then◌else◌,
}
use conreg.Feign.Syntax.{Lit, Expr, Meta, is_ident}

pub data Error : Type 0 where
  not_a_string expected_format missing_service_id : Error

unfoldable pub parse_string_value : Expr → Result String Error
parse_string_value (Expr.lit (Lit.str value)) = ok value
parse_string_value (Expr.lit Lit.other) = err Error.not_a_string
parse_string_value Expr.other = err Error.not_a_string

pub record Args : Type 0 where
  pub service_id : Option String
  pub base_path : Option String
  pub url : Option String

unfoldable pub set_arg : List String → String → Args → Args
set_arg path value args =
    if is_ident path "service_id"
    then record args { service_id = some value }
    else if is_ident path "base_path"
    then record args { base_path = some value }
    else if is_ident path "url"
    then record args { url = some value }
    else args

-- The loop over the metas, which stops at the first error.
unfoldable pub read_args : List Meta → Args → Result Args Error
unfolding parse_string_value set_arg
read_args [] args = ok args
read_args (Meta.name_value path value ∷ metas) args = elim (parse_string_value value) [
  | err e ↦ err e
  | ok text ↦ read_args metas (set_arg path text args)
]
read_args (Meta.path path ∷ metas) args = err Error.expected_format
read_args (Meta.list path texts ∷ metas) args = err Error.expected_format

unfoldable pub parse_feign_client_args :
    List Meta → Result (String × Option String × Option String) Error
unfolding read_args
parse_feign_client_args metas =
    elim (read_args metas (record { service_id = none; base_path = none; url = none })) [
      | err e ↦ err e
      | ok args ↦ elim args.service_id [
        | none ↦ err Error.missing_service_id
        | some sid ↦ ok (sid, args.base_path, args.url)
      ]
    ]
