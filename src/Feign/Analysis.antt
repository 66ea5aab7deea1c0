-- ===== src/Feign/Analysis.antt =====
-- What each parameter of a method is for (`analyze_parameters`, `extract_param_from_meta`,
-- `is_multipart_form_type`).
use conreg.Prelude.{
  String, Bool, true, false, Option, none, some, List, [], ◌∷◌, ◌++◌, contains, concat, string_eq,
  ◌==◌, ◌||◌, if◌then◌else◌,
}
use conreg.Prelude.Text.{has_part, join}
use conreg.Feign.Syntax.{Lit, Expr, Meta, Attribute, Ty, Segments, FnArg, TraitItemFn, is_ident}
use conreg.Feign.Template.{extract_params_from_template, parse_header_template}

abbrev pub Param : Type 0
Param = String × Ty

pub record ParamAnalysis : Type 0 where
  pub path_params : List Param
  pub query_params : List Param
  pub form_params : List Param
  pub body_param : Option Param
  pub json_param : Option Param
  pub header_params : List (String × String)
  pub has_multipart_form : Bool

unfoldable pub default : ParamAnalysis
default = record {
  path_params = [];
  query_params = [];
  form_params = [];
  body_param = none;
  json_param = none;
  header_params = [];
  has_multipart_form = false;
}

-- What the attributes say.
pub record Templates : Type 0 where
  pub query_params : List String
  pub form_params : List String
  pub header_templates : List String
  pub body_template : Option String
  pub json_template : Option String

unfoldable pub no_templates : Templates
no_templates = record {
  query_params = [];
  form_params = [];
  header_templates = [];
  body_template = none;
  json_template = none;
}

unfoldable pub extract_param_from_meta : List String → Expr → Templates → Templates
unfolding extract_params_from_template
extract_param_from_meta path Expr.other t = t
extract_param_from_meta path (Expr.lit Lit.other) t = t
extract_param_from_meta path (Expr.lit (Lit.str template)) t =
    if is_ident path "query"
    then record t { query_params = extract_params_from_template template }
    else if is_ident path "form"
    then record t { form_params = extract_params_from_template template }
    else if is_ident path "body"
    then record t { body_template = some template }
    else if is_ident path "json"
    then record t { json_template = some template }
    else if is_ident path "headers"
    then record t { header_templates = t.header_templates ++ (template ∷ []) }
    else t

unfoldable pub read_meta : Meta → Templates → Templates
unfolding extract_param_from_meta
read_meta (Meta.name_value path value) t = extract_param_from_meta path value t
read_meta (Meta.list path none) t = t
read_meta (Meta.list path (some texts)) t =
    if is_ident path "headers"
    then record t { header_templates = t.header_templates ++ texts }
    else t
read_meta (Meta.path path) t = t

abbrev read_metas : List Meta → Templates → Templates
unfolding read_meta
read_metas [] t = t
read_metas (m ∷ ms) t = read_metas ms (read_meta m t)

-- `matches!(…, "get" | "post" | "put" | "delete" | "patch")` on a path of one identifier
unfoldable pub is_method : List String → Bool
is_method path =
    is_ident path "get"
    || is_ident path "post"
    || is_ident path "put"
    || is_ident path "delete"
    || is_ident path "patch"

-- The loop over the attributes.
unfoldable pub read_attributes : List Attribute → Templates → Templates
unfolding read_metas is_method
read_attributes [] t = t
read_attributes (a ∷ attrs) t = elim a.metas [
  | none ↦ read_attributes attrs t
  | some metas ↦ read_attributes attrs (if is_method a.path then read_metas metas t else t)
]

abbrev pub idents : Segments → List String
idents Segments.end = []
idents (Segments.segment ident _ rest) = ident ∷ idents rest

unfoldable pub is_multipart_form_type : Ty → Bool
is_multipart_form_type (Ty.path segments) =
    let path_str = join "::" (idents segments) in
    path_str == "reqwest :: multipart :: Form" || path_str == "multipart :: Form"
is_multipart_form_type (Ty.tuple elems) = false
is_multipart_form_type Ty.other_type = false

-- The parameters, or fixed values, of the headers.
unfoldable pub header_param_names : List String → List String
unfolding parse_header_template
header_param_names [] = []
header_param_names (h ∷ hs) =
    let rest = header_param_names hs in
    elim (parse_header_template h) [
      | none ↦ rest
      | some (name, param) ↦ elim param [ none ↦ rest | some p ↦ p ∷ rest ]
    ]

abbrev pub placeholder : String → String
placeholder name = concat "{" (concat name "}")

abbrev pub mentions : Option String → String → Bool
mentions none name = false
mentions (some template) name = has_part name template

module _ (path : String) (t : Templates) where
  -- The first use that fits.
  unfoldable pub classify : Param → ParamAnalysis → ParamAnalysis
  unfolding is_multipart_form_type has_part
  classify (name, ty) a =
      if is_multipart_form_type ty
      then record a { has_multipart_form = true; form_params = a.form_params ++ ((name, ty) ∷ []) }
      else if has_part (placeholder name) path
      then record a { path_params = a.path_params ++ ((name, ty) ∷ []) }
      else if contains t.query_params name
      then record a { query_params = a.query_params ++ ((name, ty) ∷ []) }
      else if mentions t.body_template name
      then record a { body_param = some (name, ty) }
      else if mentions t.json_template name
      then record a { json_param = some (name, ty) }
      else if contains t.form_params name
      then record a { form_params = a.form_params ++ ((name, ty) ∷ []) }
      else a

  -- The loop over the parameters; those of headers are left out.
  unfoldable pub classify_all : List FnArg → ParamAnalysis → ParamAnalysis
  unfolding classify header_param_names
  classify_all [] a = a
  classify_all (FnArg.receiver ∷ inputs) a = classify_all inputs a
  classify_all (FnArg.pattern_argument ty ∷ inputs) a = classify_all inputs a
  classify_all (FnArg.typed name ty ∷ inputs) a =
      classify_all inputs
        (if contains (header_param_names t.header_templates) name then a else classify (name, ty) a)

unfoldable pub header_params : List String → List (String × String)
unfolding parse_header_template
header_params [] = []
header_params (h ∷ hs) =
    let rest = header_params hs in
    elim (parse_header_template h) [
      | none ↦ rest
      | some (name, param) ↦ elim param [ none ↦ rest | some p ↦ (name, p) ∷ rest ]
    ]

unfoldable pub analyze_parameters : TraitItemFn → String → ParamAnalysis
unfolding default no_templates read_attributes classify_all header_params
analyze_parameters method path =
    let t = read_attributes method.attrs no_templates in
    record (classify_all path t method.inputs default) {
      header_params = header_params t.header_templates;
    }
