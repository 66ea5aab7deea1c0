-- ===== src/Prelude/Text.antt =====
-- Prefixes and parts of texts, as Rust's `str` finds, replaces and trims them.
use Prim.Native.Char.{Char, code}
use Prim.Native.Nat.{ℕ, zero, suc, ◌-◌}
use Prim.Native.String.{String, ◌++◌}
use mathlib.Core.Path.{◌≡◌, refl}
use mathlib.Core.Bool.{Bool, true, false, ◌&&◌, ◌||◌}
use mathlib.Core.List.{List, [], ◌∷◌}
use mathlib.Core.Option.{Option, none, some}
use conreg.Prelude.Tests.{nat_beq, leb, if◌then◌else◌}

unfoldable pub strip_prefix : String → String → Option String
strip_prefix String.[] s = some s
strip_prefix (String.◌∷◌ c p) String.[] = none
strip_prefix (String.◌∷◌ c p) (String.◌∷◌ d s) =
    if nat_beq (code c) (code d) then strip_prefix p s else none

strip_prefix_ns : strip_prefix "rw:ns:" "rw:ns:public" ≡ some "public"
unfolding strip_prefix
strip_prefix_ns = refl

-- `starts_with`
unfoldable pub starts_with : String → String → Bool
starts_with String.[] s = true
starts_with (String.◌∷◌ c p) String.[] = false
starts_with (String.◌∷◌ c p) (String.◌∷◌ d s) =
    let rest = starts_with p s in if nat_beq (code c) (code d) then rest else false

-- `str::contains`: a text stands somewhere in another.
unfoldable pub has_part : String → String → Bool
unfolding starts_with
has_part part String.[] = starts_with part ""
has_part part (String.◌∷◌ c s) =
    let rest = has_part part s in starts_with part (String.◌∷◌ c s) || rest

-- The number of characters.
abbrev pub size : String → ℕ
size String.[] = 0
size (String.◌∷◌ c s) = suc (size s)

-- `str::replace` at a text that is not empty, which stands behind one character. `skip` counts the
-- characters of a match that are still to be passed over.
unfoldable pub replace_from : ℕ → String → String → String → String
unfolding starts_with
replace_from skip part to String.[] = ""
replace_from (suc skip) part to (String.◌∷◌ c s) = replace_from skip part to s
replace_from zero part to (String.◌∷◌ c s) = elim (starts_with part (String.◌∷◌ c s)) [
  | true ↦ to ++ replace_from (size part - 1) part to s
  | false ↦ String.◌∷◌ c (replace_from zero part to s)
]

unfoldable pub replace : String → String → String → String
unfolding replace_from
replace part to s = replace_from 0 part to s

-- `char::is_whitespace`
abbrev pub is_whitespace : Char → Bool
is_whitespace c =
    let n = code c in
    (leb 9 n && leb n 13)
    || (nat_beq n 32)
    || (nat_beq n 133)
    || (nat_beq n 160)
    || (nat_beq n 5760)
    || (leb 8192 n && leb n 8202)
    || (nat_beq n 8232)
    || (nat_beq n 8233)
    || (nat_beq n 8239)
    || (nat_beq n 8287)
    || (nat_beq n 12288)

abbrev trim_start : String → String
trim_start String.[] = ""
trim_start (String.◌∷◌ c s) =
    let rest = trim_start s in if is_whitespace c then rest else String.◌∷◌ c s

abbrev pub is_empty : String → Bool
is_empty String.[] = true
is_empty (String.◌∷◌ c s) = false

abbrev trim_end : String → String
trim_end String.[] = ""
trim_end (String.◌∷◌ c s) =
    let rest = trim_end s in if is_empty rest && is_whitespace c then "" else String.◌∷◌ c rest

-- `str::trim`
unfoldable pub trim : String → String
trim s = trim_start (trim_end s)

abbrev push : Char → List String → List String
push c [] = []
push c (s ∷ rest) = String.◌∷◌ c s ∷ rest

-- `str::split` at one character
unfoldable pub split : ℕ → String → List String
split mark String.[] = "" ∷ []
split mark (String.◌∷◌ c s) =
    let rest = split mark s in if nat_beq (code c) mark then "" ∷ rest else push c rest

-- `slice::join`
abbrev pub join : String → List String → String
join mark [] = ""
join mark (s ∷ []) = s
join mark (s ∷ t ∷ rest) = s ++ (mark ++ join mark (t ∷ rest))

trim_both : trim "  a b " ≡ "a b"
unfolding trim
trim_both = refl

replaced : replace "{id}" "7" "/users/{id}/{id}" ≡ "/users/7/7"
unfolding replace
replaced = refl
