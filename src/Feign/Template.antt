-- ===== src/Feign/Template.antt =====
-- Templates (`extract_params_from_template`, `parse_header_template`).
use Prim.Native.Char.{Char, code}
use conreg.Prelude.{
  ℕ, String, true, false, Option, none, some, List, [], ◌∷◌, nat_beq, if◌then◌else◌,
}
use conreg.Prelude.Text.{is_empty, trim}

abbrev pub opening : ℕ
opening = 123

abbrev pub closing : ℕ
closing = 125

abbrev push_name : String × List String → List String
push_name (name, params) = if is_empty name then params else name ∷ params

-- The name and the params that follow it: the inner loop ends at `}` or at the end of the text.
abbrev push_char : Char → String × List String → String × List String
push_char c (name, params) = (String.◌∷◌ c name, params)

unfoldable mutual
  -- outside a placeholder
  pub extract_params_from_template : String → List String
  extract_params_from_template String.[] = []
  extract_params_from_template (String.◌∷◌ ch s) = elim (nat_beq (code ch) opening) [
    | true ↦ push_name (param_name s)
    | false ↦ extract_params_from_template s
  ]

  -- inside one
  pub param_name : String → String × List String
  param_name String.[] = ("", [])
  param_name (String.◌∷◌ ch s) = elim (nat_beq (code ch) closing) [
    | true ↦ ("", extract_params_from_template s)
    | false ↦ push_char ch (param_name s)
  ]

abbrev after_char : Char → Option (String × String) → Option (String × String)
after_char c none = none
after_char c (some (before, after)) = some (String.◌∷◌ c before, after)

-- The text before the first `=`, and the text behind it.
unfoldable pub split_at_equals : String → Option (String × String)
split_at_equals String.[] = none
split_at_equals (String.◌∷◌ c s) =
    let rest = split_at_equals s in if nat_beq (code c) 61 then some ("", s) else after_char c rest

-- A text in braces, less the braces.
abbrev drop_closing : String → Option String
drop_closing String.[] = none
drop_closing (String.◌∷◌ c s) =
    let rest = drop_closing s in
    if is_empty s
    then (if nat_beq (code c) closing then some "" else none)
    else elim rest [ none ↦ none | some inner ↦ some (String.◌∷◌ c inner) ]

unfoldable pub in_braces : String → Option String
in_braces String.[] = none
in_braces (String.◌∷◌ c s) = if nat_beq (code c) opening then drop_closing s else none

-- A text in braces names a parameter, and any other is a fixed value; the result does not tell them apart.
unfoldable pub parse_header_template : String → Option (String × Option String)
unfolding split_at_equals trim in_braces
parse_header_template header = elim (split_at_equals header) [
  | none ↦ none
  | some (name, value) ↦ elim (in_braces (trim value)) [
    | some param_name ↦ some (trim name, some param_name)
    | none ↦ some (trim name, some (trim value))
  ]
]
