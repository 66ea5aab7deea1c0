-- ===== src/Feign/Multipart.antt =====
-- The test for a multipart form (`is_multipart_form_type`), on the types that Rust has.
use Prim.Native.Char.{code}
use text.Mathlib.TextLemmas.{nil-append, cons-append}
use conreg.Prelude.{
  String, Bool, true, false, List, [], ◌∷◌, ◌≡◌, refl, ap, ◌∙◌, arith, concat, nat_beq, ◌||◌, All,
  contains, Bool-cases, inl, inr, eq_iff, string_eq, ◌==◌, if◌then◌else◌,
}
use conreg.Prelude.Text.{join}
use conreg.Feign.Analysis.{
  ParamAnalysis, Templates, default, no_templates, classify_all, analyze_parameters, classify,
  header_param_names, read_attributes, is_multipart_form_type, idents,
}
use conreg.Feign.Syntax.{Ty, FnArg, TraitItemFn}

unfoldable pub has_space : String → Bool
has_space String.[] = false
has_space (String.◌∷◌ c s) = nat_beq (code c) 32 || has_space s

-- An identifier, of which the program relies on nothing else.
abbrev pub IsIdent : String → Type 0
IsIdent s = has_space s ≡ false

abbrev pub IsRust : Ty → Type 0
IsRust (Ty.path segments) = All IsIdent (idents segments)
IsRust (Ty.tuple elems) = Unit
IsRust Ty.other_type = Unit

abbrev pub TakesRust : FnArg → Type 0
TakesRust (FnArg.typed name ty) = IsRust ty
TakesRust FnArg.receiver = Unit
TakesRust (FnArg.pattern_argument ty) = Unit

has_space-concat : (s t : String) → has_space (concat s t) ≡ has_space s || has_space t
unfolding has_space
has_space-concat String.[] t = ap has_space (nil-append t)
has_space-concat (String.◌∷◌ c s) t =
    ap has_space (cons-append c s t) ∙ ground (arith, has_space-concat s t)

has_space-join : (ss : List String) → All IsIdent ss → has_space (join "::" ss) ≡ false
unfolding has_space
has_space-join [] all = refl
has_space-join (s ∷ []) (h, all) = h
has_space-join (s ∷ t ∷ rest) (h, all) =
    has_space-concat s (concat "::" (join "::" (t ∷ rest)))
    ∙ ground (arith, h, has_space-concat "::" (join "::" (t ∷ rest)), has_space-join (t ∷ rest) all)

differ : (s t : String) → has_space s ≡ false → has_space t ≡ true → (s == t) ≡ false
differ s t h k = elim (Bool-cases (s == t)) [
  | inl e ↦ absurd (ground (arith, h, k, ap has_space ((eq_iff s t).0 e)))
  | inr e ↦ e
]

is_multipart_form_type-never : (ty : Ty) → IsRust ty → is_multipart_form_type ty ≡ false
unfolding is_multipart_form_type has_space
is_multipart_form_type-never (Ty.path segments) h =
    let s = join "::" (idents segments) in
    let plain = has_space-join (idents segments) h in
    ground (
      arith,
      differ s "reqwest :: multipart :: Form" plain refl,
      differ s "multipart :: Form" plain refl,
    )
is_multipart_form_type-never (Ty.tuple elems) h = refl
is_multipart_form_type-never Ty.other_type h = refl

module _ (path : String) (t : Templates) where
  classify-never :
      (name : String) (ty : Ty) (a : ParamAnalysis)
      → is_multipart_form_type ty ≡ false
      → (classify path t (name, ty) a).has_multipart_form ≡ a.has_multipart_form
  unfolding classify
  classify-never name ty a h = ground (arith, h)

  classify_all-never :
      (inputs : List FnArg) (a : ParamAnalysis)
      → All TakesRust inputs
      → (classify_all path t inputs a).has_multipart_form ≡ a.has_multipart_form
  unfolding classify_all classify
  classify_all-never [] a all = refl
  classify_all-never (FnArg.receiver ∷ inputs) a (h, all) = classify_all-never inputs a all
  classify_all-never (FnArg.pattern_argument ty ∷ inputs) a (h, all) =
      classify_all-never inputs a all
  classify_all-never (FnArg.typed name ty ∷ inputs) a (h, all) =
      let b =
        if contains (header_param_names t.header_templates) name
        then a
        else classify path t (name, ty) a in
      let kept = classify-never name ty a (is_multipart_form_type-never ty h) in
      classify_all-never inputs b all ∙ ground (arith, kept)

-- No method has a multipart form for the macro, whatever the types of its parameters: they are compared with
-- a path written with spaces, which no path of identifiers is.
pub analyze_parameters-has_multipart_form :
    (method : TraitItemFn) (full_path : String)
    → All TakesRust method.inputs
    → (analyze_parameters method full_path).has_multipart_form ≡ false
unfolding analyze_parameters default
analyze_parameters-has_multipart_form method full_path all =
    classify_all-never full_path (read_attributes method.attrs no_templates) method.inputs default
      all
