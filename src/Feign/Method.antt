-- ===== src/Feign/Method.antt =====
-- The methods that the macro implements (`extract_http_method_and_path`, `generate_single_method_impl`,
-- `generate_method_impls`).
use conreg.Prelude.{
  String, Bool, true, false, Option, none, some, List, [], ◌∷◌, concat, string_eq, ◌==◌, not,
  if◌then◌else◌, unwrap_or,
}
use conreg.Feign.Analysis.{analyze_parameters, is_method}
use conreg.Feign.Request.{Method, method_of, Call, request_calls, Parsing, response_parsing}
use conreg.Feign.Syntax.{Lit, Expr, Meta, Attribute, TraitItemFn, is_ident}
use conreg.Feign.Url.{Values, build_url}

-- `to_uppercase` of the five words
abbrev to_uppercase : List String → String
to_uppercase [] = ""
to_uppercase (word ∷ rest) =
    if word == "get"
    then "GET"
    else if word == "post"
    then "POST"
    else if word == "put"
    then "PUT"
    else if word == "delete"
    then "DELETE"
    else "PATCH"

-- The first text under the name `path`.
unfoldable pub path_value : List Meta → Option String
path_value [] = none
path_value (Meta.name_value path (Expr.lit (Lit.str text)) ∷ metas) =
    let rest = path_value metas in if is_ident path "path" then some text else rest
path_value (Meta.name_value path (Expr.lit Lit.other) ∷ metas) = path_value metas
path_value (Meta.name_value path Expr.other ∷ metas) = path_value metas
path_value (Meta.list path texts ∷ metas) = path_value metas
path_value (Meta.path path ∷ metas) = path_value metas

abbrev no_metas : Option (List Meta) → Bool
no_metas (some []) = true
no_metas _ = false

-- What the first attribute with a method's name says: nothing where its arguments cannot be read.
unfoldable pub read_method : Attribute → Option (String × String)
unfolding path_value
read_method a =
    let http_method = to_uppercase a.path in
    if no_metas a.metas then some (http_method, "") else elim a.metas [
      | none ↦
          if not a.is_list
          then some (http_method, "")
          else elim a.literal [ none ↦ none | some text ↦ some (http_method, text) ]
      | some metas ↦ elim a.literal [
        | some text ↦ some (http_method, text)
        | none ↦ some (http_method, unwrap_or (path_value metas) "")
      ]
    ]

unfoldable pub extract_http_method_and_path : List Attribute → Option (String × String)
unfolding is_method read_method
extract_http_method_and_path [] = none
extract_http_method_and_path (a ∷ attrs) =
    let rest = extract_http_method_and_path attrs in
    if is_method a.path then read_method a else rest

-- What a generated method does: where it sends which request, and how it reads the response.
pub record MethodImpl : Type 0 where
  pub name : String
  pub http_method : Method
  pub url : Values → String
  pub calls : List Call
  pub parsing : Parsing

module _ (parse_ident : String → Bool) (service_id : String) (base_path url : Option String) where
  abbrev full_path_of : String → String
  full_path_of path = elim base_path [ none ↦ path | some b ↦ concat b path ]

  unfoldable pub generate_single_method_impl : TraitItemFn → String → String → MethodImpl
  unfolding analyze_parameters build_url request_calls response_parsing method_of
  generate_single_method_impl method http_method path =
      let full_path = full_path_of path in
      let analysis = analyze_parameters method full_path in
      record {
        name = method.name;
        http_method = method_of http_method;
        url = λ values. build_url values analysis full_path service_id url;
        calls = request_calls parse_ident analysis;
        parsing = response_parsing method.output;
      }

  unfoldable pub generate_method_impls : List TraitItemFn → List MethodImpl
  unfolding extract_http_method_and_path generate_single_method_impl
  generate_method_impls [] = []
  generate_method_impls (method ∷ methods) =
      let rest = generate_method_impls methods in
      elim (extract_http_method_and_path method.attrs) [
        | none ↦ rest
        | some (http_method, path) ↦ generate_single_method_impl method http_method path ∷ rest
      ]
