-- ===== src/Feign/Url.antt =====
-- The URL that a generated method asks for (`generate_url_building`, `is_option_type`): the macro writes the
-- code, and `build_url` is what that code computes from the values of the parameters, which are their texts
-- (`Display`), and for an `Option` what it holds.
use conreg.Prelude.{
  String, Bool, false, Option, none, some, List, [], ◌∷◌, concat, string_eq, ◌==◌, if◌then◌else◌,
}
use conreg.Prelude.Text.{replace, join}
use conreg.Feign.Analysis.{ParamAnalysis, Param, placeholder, idents}
use conreg.Feign.Syntax.{Ty}

pub record Values : Type 0 where
  pub text : String → String
  pub held : String → Option String

abbrev pub last_is_option : List String → Bool
last_is_option [] = false
last_is_option (s ∷ []) = s == "Option"
last_is_option (s ∷ t ∷ rest) = last_is_option (t ∷ rest)

unfoldable pub is_option_type : Ty → Bool
is_option_type (Ty.path segments) = last_is_option (idents segments)
is_option_type (Ty.tuple elems) = false
is_option_type Ty.other_type = false

-- `full_path` holds the base path.
unfoldable pub base : Option String → String → String → String
base (some base_url) service_id full_path = concat base_url full_path
base none service_id full_path = concat "lb://" (concat service_id (concat "/" full_path))

module _ (values : Values) where
  -- One `.replace` for each path parameter.
  unfoldable pub fill : List Param → String → String
  unfolding replace
  fill [] url = url
  fill ((name, ty) ∷ params) url = fill params (replace (placeholder name) (values.text name) url)

  unfoldable pub query_parts : List Param → List String
  unfolding is_option_type
  query_parts [] = []
  query_parts ((name, ty) ∷ params) =
      let rest = query_parts params in
      if is_option_type ty
      then (elim (values.held name) [
        | none ↦ rest
        | some val ↦ concat name (concat "=" val) ∷ rest
      ])
      else concat name (concat "=" (values.text name)) ∷ rest

  abbrev pub with_query : String → List String → String
  with_query url [] = url
  with_query url (part ∷ parts) = concat url (concat "?" (join "&" (part ∷ parts)))

  unfoldable pub build_url : ParamAnalysis → String → String → Option String → String
  unfolding base fill query_parts
  build_url a full_path service_id url =
      with_query (fill a.path_params (base url service_id full_path)) (query_parts a.query_params)
