-- ===== src/Cmt/Nodes.antt =====
-- A node that is written the way the tool wants it (`parse_node` of conreg-cmt/src/main.rs).
use Prim.Native.Char.{Char, char, code}
use conreg.Prelude.{
  ℕ, ◌<◌, ◌+◌, ◌*◌, ◌-◌, String, Bool, true, some, [], ◌∷◌, ok, ◌≡◌, refl, ap, ◌∙◌, arith, concat,
  to_string, nat_beq, not, ◌&&◌,
}
use conreg.Prelude.Digits.{digits, digits-to_string, to_string-filled}
use conreg.Prelude.Int.{two_64}
use conreg.Prelude.Text.{split, size}
use conreg.Cmt.Node.{from_str, parse_node}
use text.Mathlib.TextLemmas.{nil-append, cons-append}

-- A text has no equals sign.
abbrev pub is_free : String → Bool
is_free String.[] = true
is_free (String.◌∷◌ c s) = not (nat_beq (code c) 61) && is_free s

abbrev equals : Char
equals = char 61 tt

split-is_free : (s : String) → is_free s ≡ true → split 61 s ≡ s ∷ []
unfolding split
split-is_free String.[] h = refl
split-is_free (String.◌∷◌ c s) h = ground (arith, split-is_free s)

split-equals :
    (s t : String)
    → is_free s ≡ true
    → is_free t ≡ true
    → split 61 (concat s (String.◌∷◌ equals t)) ≡ s ∷ t ∷ []
unfolding split
split-equals String.[] t h k =
    ap (split 61) (nil-append (String.◌∷◌ equals t)) ∙ ap ("" ∷◌) (split-is_free t k)
split-equals (String.◌∷◌ c s) t h k =
    ap (split 61) (cons-append c s (String.◌∷◌ equals t)) ∙ ground (arith, split-equals s t)

-- A text that spells a number has digits only.
digits-is_free : (n a : ℕ) (s : String) → digits a s ≡ some n → is_free s ≡ true
unfolding digits
digits-is_free n a String.[] h = refl
digits-is_free n a (String.◌∷◌ c s) h = ground (arith, digits-is_free n (a * 10 + (code c - 48)) s)

-- What stands before the equals sign is read as the number that it spells.
from_str-digits :
    (n : ℕ) (s : String) → n < two_64 → digits 0 s ≡ some n → 0 < size s → from_str s ≡ some n
unfolding from_str
from_str-digits n String.[] h d full = absurd (omega arith)
from_str-digits n (String.◌∷◌ c s) h d full = unfold digits in ground (arith, d, h)

-- An id of 64 bits and an address are read from the text in which the tool asks for them, if the address has no
-- equals sign.
pub parse_node-written :
    (id : ℕ) (address : String)
    → id < two_64
    → is_free address ≡ true
    → parse_node (concat (to_string id) (String.◌∷◌ equals address)) ≡ ok (id, address)
unfolding parse_node
parse_node-written id address h k =
    let s = digits-to_string id in
    ground (
      arith,
      split-equals (to_string id) address (digits-is_free id 0 (to_string id) s) k,
      from_str-digits id (to_string id) h s (to_string-filled id),
    )
