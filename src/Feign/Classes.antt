-- ===== src/Feign/Classes.antt =====
-- How `analyze_parameters` sorts the parameters.
use conreg.Prelude.{
  String, Bool, true, false, Option, none, some, Bool-cases, inl, inr, List, [], ◌∷◌, ◌++◌, ◌≡◌,
  refl, ap, ◌∙◌, sym, contains, string_eq, if◌then◌else◌, append_assoc, append_nil,
}
use conreg.Prelude.Text.{has_part}
use conreg.Feign.Analysis.{
  Param, ParamAnalysis, Templates, default, no_templates, classify, classify_all,
  analyze_parameters, header_param_names, read_attributes, is_multipart_form_type, mentions,
  placeholder,
}
use conreg.Feign.Syntax.{Ty, FnArg, TraitItemFn}

-- What a parameter is for.
pub data Use : Type 0 where
  header part path query body json form unused : Use

-- The uses, in the order in which they have precedence.
abbrev pub precedence : List Use
precedence = Use.header ∷ Use.part ∷ Use.path ∷ Use.query ∷ Use.body ∷ Use.json ∷ Use.form ∷ []

-- The first of some uses that fits.
abbrev first_fit : (Use → Bool) → List Use → Use
first_fit fits [] = Use.unused
first_fit fits (u ∷ us) = if fits u then u else first_fit fits us

module _ (path : String) (t : Templates) where
  -- Whether a parameter can have a use: its name stands in the template of that use, or, for a part of a
  -- form, its type is that of a multipart form.
  unfoldable pub fits : String × Ty → Use → Bool
  fits (name, ty) Use.header = contains (header_param_names t.header_templates) name
  fits (name, ty) Use.part = is_multipart_form_type ty
  fits (name, ty) Use.path = has_part (placeholder name) path
  fits (name, ty) Use.query = contains t.query_params name
  fits (name, ty) Use.body = mentions t.body_template name
  fits (name, ty) Use.json = mentions t.json_template name
  fits (name, ty) Use.form = contains t.form_params name
  fits (name, ty) Use.unused = true

  unfoldable pub use_of : String × Ty → Use
  unfolding fits
  use_of x = first_fit (fits x) precedence

-- What becomes of the analysis by the use of one parameter.
unfoldable pub effect : Use → Param → ParamAnalysis → ParamAnalysis
effect Use.header x a = a
effect Use.part x a = record a {
  has_multipart_form = true;
  form_params = a.form_params ++ (x ∷ []);
}
effect Use.path x a = record a { path_params = a.path_params ++ (x ∷ []) }
effect Use.query x a = record a { query_params = a.query_params ++ (x ∷ []) }
effect Use.body x a = record a { body_param = some x }
effect Use.json x a = record a { json_param = some x }
effect Use.form x a = record a { form_params = a.form_params ++ (x ∷ []) }
effect Use.unused x a = a

-- The two ladders of tests, rung by rung.
effect-ladder :
    (h m p q b j f : Bool) (x : Param) (a : ParamAnalysis)
    → (if h
        then a
        else if m
        then record a { has_multipart_form = true; form_params = a.form_params ++ (x ∷ []) }
        else if p
        then record a { path_params = a.path_params ++ (x ∷ []) }
        else if q
        then record a { query_params = a.query_params ++ (x ∷ []) }
        else if b
        then record a { body_param = some x }
        else if j
        then record a { json_param = some x }
        else if f
        then record a { form_params = a.form_params ++ (x ∷ []) }
        else a)
      ≡ effect
          (if h
            then Use.header
            else if m
            then Use.part
            else if p
            then Use.path
            else if q
            then Use.query
            else if b
            then Use.body
            else if j
            then Use.json
            else if f
            then Use.form
            else Use.unused)
          x
          a
unfolding effect
effect-ladder true m p q b j f x a = refl
effect-ladder false true p q b j f x a = refl
effect-ladder false false true q b j f x a = refl
effect-ladder false false false true b j f x a = refl
effect-ladder false false false false true j f x a = refl
effect-ladder false false false false false true f x a = refl
effect-ladder false false false false false false true x a = refl
effect-ladder false false false false false false false x a = refl

module _ (path : String) (t : Templates) where
  -- A parameter's use decides what becomes of the analysis.
  classify-effect :
      (name : String) (ty : Ty) (a : ParamAnalysis)
      → (if contains (header_param_names t.header_templates) name
          then a
          else classify path t (name, ty) a)
        ≡ effect (use_of path t (name, ty)) (name, ty) a
  unfolding classify use_of
  classify-effect name ty a =
      effect-ladder (contains (header_param_names t.header_templates) name)
        (is_multipart_form_type ty) (has_part (placeholder name) path)
        (contains t.query_params name) (mentions t.body_template name)
        (mentions t.json_template name) (contains t.form_params name) (name, ty) a

abbrev pub is_path : Use → Bool
is_path Use.path = true
is_path _ = false

abbrev pub is_query : Use → Bool
is_query Use.query = true
is_query _ = false

abbrev pub is_form : Use → Bool
is_form Use.form = true
is_form Use.part = true
is_form _ = false

abbrev pub is_body : Use → Bool
is_body Use.body = true
is_body _ = false

abbrev pub is_json : Use → Bool
is_json Use.json = true
is_json _ = false

abbrev pub is_part : Use → Bool
is_part Use.part = true
is_part _ = false

-- A parameter in a list of its own, where its use passes a test.
abbrev one : (Use → Bool) → Use → Param → List Param
one f u x = if f u then x ∷ [] else []

effect-path :
    (u : Use) (x : Param) (a : ParamAnalysis)
    → (effect u x a).path_params ≡ a.path_params ++ one is_path u x
unfolding effect
effect-path Use.header x a = sym (append_nil _)
effect-path Use.part x a = sym (append_nil _)
effect-path Use.path x a = refl
effect-path Use.query x a = sym (append_nil _)
effect-path Use.body x a = sym (append_nil _)
effect-path Use.json x a = sym (append_nil _)
effect-path Use.form x a = sym (append_nil _)
effect-path Use.unused x a = sym (append_nil _)

effect-query :
    (u : Use) (x : Param) (a : ParamAnalysis)
    → (effect u x a).query_params ≡ a.query_params ++ one is_query u x
unfolding effect
effect-query Use.header x a = sym (append_nil _)
effect-query Use.part x a = sym (append_nil _)
effect-query Use.path x a = sym (append_nil _)
effect-query Use.query x a = refl
effect-query Use.body x a = sym (append_nil _)
effect-query Use.json x a = sym (append_nil _)
effect-query Use.form x a = sym (append_nil _)
effect-query Use.unused x a = sym (append_nil _)

effect-form :
    (u : Use) (x : Param) (a : ParamAnalysis)
    → (effect u x a).form_params ≡ a.form_params ++ one is_form u x
unfolding effect
effect-form Use.header x a = sym (append_nil _)
effect-form Use.part x a = refl
effect-form Use.path x a = sym (append_nil _)
effect-form Use.query x a = sym (append_nil _)
effect-form Use.body x a = sym (append_nil _)
effect-form Use.json x a = sym (append_nil _)
effect-form Use.form x a = refl
effect-form Use.unused x a = sym (append_nil _)

effect-body :
    (u : Use) (x : Param) (a : ParamAnalysis)
    → (effect u x a).body_param ≡ (if is_body u then some x else a.body_param)
unfolding effect
effect-body Use.header x a = refl
effect-body Use.part x a = refl
effect-body Use.path x a = refl
effect-body Use.query x a = refl
effect-body Use.body x a = refl
effect-body Use.json x a = refl
effect-body Use.form x a = refl
effect-body Use.unused x a = refl

effect-json :
    (u : Use) (x : Param) (a : ParamAnalysis)
    → (effect u x a).json_param ≡ (if is_json u then some x else a.json_param)
unfolding effect
effect-json Use.header x a = refl
effect-json Use.part x a = refl
effect-json Use.path x a = refl
effect-json Use.query x a = refl
effect-json Use.body x a = refl
effect-json Use.json x a = refl
effect-json Use.form x a = refl
effect-json Use.unused x a = refl

effect-part :
    (u : Use) (x : Param) (a : ParamAnalysis)
    → (effect u x a).has_multipart_form ≡ (if is_part u then true else a.has_multipart_form)
unfolding effect
effect-part Use.header x a = refl
effect-part Use.part x a = refl
effect-part Use.path x a = refl
effect-part Use.query x a = refl
effect-part Use.body x a = refl
effect-part Use.json x a = refl
effect-part Use.form x a = refl
effect-part Use.unused x a = refl

-- The last of some parameters.
abbrev pub last_from : Option Param → List Param → Option Param
last_from x [] = x
last_from x (y ∷ ys) = last_from (some y) ys

-- There is one at all.
abbrev pub any_from : Bool → List Param → Bool
any_from b [] = b
any_from b (y ∷ ys) = any_from true ys

module _ (path : String) (t : Templates) where
  -- The parameters of a use, in their order.
  unfoldable pub used : (Use → Bool) → List FnArg → List Param
  unfolding use_of
  used f [] = []
  used f (FnArg.receiver ∷ inputs) = used f inputs
  used f (FnArg.pattern_argument ty ∷ inputs) = used f inputs
  used f (FnArg.typed name ty ∷ inputs) =
      one f (use_of path t (name, ty)) (name, ty) ++ used f inputs

  -- A list of the analysis that each parameter's use extends by the parameter holds those of the use.
  module _ (f : Use → Bool) (list_of : ParamAnalysis → List Param)
      (extends : (u : Use) (x : Param) (a : ParamAnalysis)
        → list_of (effect u x a) ≡ list_of a ++ one f u x) where
    classify_all-used :
        (inputs : List FnArg) (a : ParamAnalysis)
        → list_of (classify_all path t inputs a) ≡ list_of a ++ used f inputs
    unfolding classify_all used
    classify_all-used [] a = sym (append_nil (list_of a))
    classify_all-used (FnArg.receiver ∷ inputs) a = classify_all-used inputs a
    classify_all-used (FnArg.pattern_argument ty ∷ inputs) a = classify_all-used inputs a
    classify_all-used (FnArg.typed name ty ∷ inputs) a =
        let u = use_of path t (name, ty) in
        ap (λ b. list_of (classify_all path t inputs b)) (classify-effect path t name ty a)
        ∙ classify_all-used inputs (effect u (name, ty) a)
        ∙ ap (λ ps. ps ++ used f inputs) (extends u (name, ty) a)
        ∙ append_assoc (list_of a) (one f u (name, ty)) (used f inputs)

  -- A field of the analysis that each parameter of a use replaces is what the last of them makes of it.
  module _ (f : Use → Bool) (param_of : ParamAnalysis → Option Param)
      (replaces : (u : Use) (x : Param) (a : ParamAnalysis)
        → param_of (effect u x a) ≡ (if f u then some x else param_of a)) where
    classify_all-last :
        (inputs : List FnArg) (a : ParamAnalysis)
        → param_of (classify_all path t inputs a) ≡ last_from (param_of a) (used f inputs)
    unfolding classify_all used
    classify_all-last [] a = refl
    classify_all-last (FnArg.receiver ∷ inputs) a = classify_all-last inputs a
    classify_all-last (FnArg.pattern_argument ty ∷ inputs) a = classify_all-last inputs a
    classify_all-last (FnArg.typed name ty ∷ inputs) a =
        let u = use_of path t (name, ty) in
        ap (λ b. param_of (classify_all path t inputs b)) (classify-effect path t name ty a)
        ∙ classify_all-last inputs (effect u (name, ty) a)
        ∙ ap (λ o. last_from o (used f inputs)) (replaces u (name, ty) a)
        ∙ elim (Bool-cases (f u)) [ inl e ↦ rw e refl | inr e ↦ rw e refl ]

  classify_all-part :
      (inputs : List FnArg) (a : ParamAnalysis)
      → (classify_all path t inputs a).has_multipart_form
        ≡ any_from a.has_multipart_form (used is_part inputs)
  unfolding classify_all used
  classify_all-part [] a = refl
  classify_all-part (FnArg.receiver ∷ inputs) a = classify_all-part inputs a
  classify_all-part (FnArg.pattern_argument ty ∷ inputs) a = classify_all-part inputs a
  classify_all-part (FnArg.typed name ty ∷ inputs) a =
      let u = use_of path t (name, ty) in
      ap (λ b. (classify_all path t inputs b).has_multipart_form) (classify-effect path t name ty a)
      ∙ classify_all-part inputs (effect u (name, ty) a)
      ∙ ap (λ o. any_from o (used is_part inputs)) (effect-part u (name, ty) a)
      ∙ elim (Bool-cases (is_part u)) [ inl e ↦ rw e refl | inr e ↦ rw e refl ]

-- The analysis gives each parameter to the first use that fits, in the order: header, part of a form (by the
-- parameter's type), path, query, body, JSON, form. The parameters of the path, of the query and of the form
-- are those of that use, in the order of the method's parameters; the parameter of the body and that of the
-- JSON are the last of that use, and there is none if no parameter has the use; and the form is a multipart
-- form exactly if there is a part.
pub analyze_parameters-used :
    (method : TraitItemFn) (full_path : String)
    → let t = read_attributes method.attrs no_templates in
      ((analyze_parameters method full_path).path_params ≡ used full_path t is_path method.inputs)
      × ((analyze_parameters method full_path).query_params
          ≡ used full_path t is_query method.inputs)
      × ((analyze_parameters method full_path).form_params ≡ used full_path t is_form method.inputs)
      × ((analyze_parameters method full_path).body_param
          ≡ last_from none (used full_path t is_body method.inputs))
      × ((analyze_parameters method full_path).json_param
          ≡ last_from none (used full_path t is_json method.inputs))
      × ((analyze_parameters method full_path).has_multipart_form
          ≡ any_from false (used full_path t is_part method.inputs))
unfolding analyze_parameters default
analyze_parameters-used method full_path =
    let t = read_attributes method.attrs no_templates in
    (
      classify_all-used full_path t is_path (λ a. a.path_params) effect-path method.inputs default,
      classify_all-used full_path t is_query (λ a. a.query_params) effect-query method.inputs
          default,
      classify_all-used full_path t is_form (λ a. a.form_params) effect-form method.inputs default,
      classify_all-last full_path t is_body (λ a. a.body_param) effect-body method.inputs default,
      classify_all-last full_path t is_json (λ a. a.json_param) effect-json method.inputs default,
      classify_all-part full_path t method.inputs default,
    )
