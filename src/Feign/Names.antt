-- ===== src/Feign/Names.antt =====
-- The names that a template of queries or forms mentions (`extract_params_from_template`).
use Prim.Native.Char.{Char, char, code}
use conreg.Prelude.{
  String, Bool, true, false, List, [], ◌∷◌, ◌≡◌, refl, ap, ◌∙◌, arith, concat, nat_beq, not, ◌&&◌,
  All,
}
use text.Mathlib.TextLemmas.{nil-append, cons-append}
use conreg.Prelude.Text.{is_empty}
use conreg.Feign.Template.{extract_params_from_template, param_name, opening, closing}

-- A text without braces.
abbrev pub is_plain : String → Bool
is_plain String.[] = true
is_plain (String.◌∷◌ c s) =
    not (nat_beq (code c) opening) && not (nat_beq (code c) closing) && is_plain s

-- A name that a template can mention.
abbrev pub IsName : String → Type 0
IsName s = (is_empty s ≡ false) × (is_plain s ≡ true)

abbrev equals : Char
equals = char 61 tt

abbrev open_brace : Char
open_brace = char 123 tt

abbrev close_brace : Char
close_brace = char 125 tt

-- `a={a}&b={b}`
unfoldable pub write_params : String → List String → String
write_params mark [] = ""
write_params mark (name ∷ names) = concat mark (
    concat name (
      String.◌∷◌ equals
        (String.◌∷◌ open_brace (concat name (String.◌∷◌ close_brace (write_params "&" names))))))

unfoldable pub template_of : List String → String
unfolding write_params
template_of names = write_params "" names

param_name-closing :
    (name rest : String)
    → is_plain name ≡ true
    → param_name (concat name (String.◌∷◌ close_brace rest))
      ≡ (name, extract_params_from_template rest)
unfolding param_name
param_name-closing String.[] rest plain = ap param_name (nil-append (String.◌∷◌ close_brace rest))
param_name-closing (String.◌∷◌ c s) rest plain =
    ap param_name (cons-append c s (String.◌∷◌ close_brace rest))
    ∙ ground (arith, plain, param_name-closing s rest)

extract-plain :
    (s rest : String)
    → is_plain s ≡ true
    → extract_params_from_template (concat s rest) ≡ extract_params_from_template rest
unfolding extract_params_from_template
extract-plain String.[] rest plain = ap extract_params_from_template (nil-append rest)
extract-plain (String.◌∷◌ c s) rest plain =
    ap extract_params_from_template (cons-append c s rest)
    ∙ ground (arith, plain, extract-plain s rest)

extract-braces :
    (name rest : String)
    → IsName name
    → extract_params_from_template
        (String.◌∷◌ equals (String.◌∷◌ open_brace (concat name (String.◌∷◌ close_brace rest))))
      ≡ name ∷ extract_params_from_template rest
unfolding extract_params_from_template
extract-braces name rest (full, plain) = ground (arith, param_name-closing name rest plain, full)

extract-write_params :
    (mark : String) (names : List String)
    → is_plain mark ≡ true
    → All IsName names
    → extract_params_from_template (write_params mark names) ≡ names
unfolding write_params extract_params_from_template
extract-write_params mark [] plain all = refl
extract-write_params mark (name ∷ names) plain (is_name, all) =
    extract-plain mark _ plain
    ∙ extract-plain name _ is_name.1
    ∙ extract-braces name (write_params "&" names) is_name
    ∙ ap (name ∷◌) (extract-write_params "&" names refl all)

-- A template `a={a}&b={b}` gives its names back, in their order, where no name is empty or has a brace in
-- it.
pub extract-template_of :
    (names : List String)
    → All IsName names
    → extract_params_from_template (template_of names) ≡ names
unfolding template_of
extract-template_of names all = extract-write_params "" names refl all
