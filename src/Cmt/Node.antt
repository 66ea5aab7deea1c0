-- ===== src/Cmt/Node.antt =====
-- A node on the command line (`parse_node` of conreg-cmt/src/main.rs).
use Prim.Native.Char.{code}
use conreg.Prelude.{
  ℕ, String, Option, none, some, [], ◌∷◌, Result, ok, err, nat_beq, ltb, ◌≡◌, refl, if◌then◌else◌,
}
use conreg.Prelude.Digits.{digits}
use conreg.Prelude.Int.{two_64}
use conreg.Prelude.Text.{split}

abbrev pub bounded : Option ℕ → Option ℕ
bounded none = none
bounded (some n) = if ltb n two_64 then some n else none

abbrev plus : ℕ
plus = 43

abbrev pub unsigned : String → Option ℕ
unsigned String.[] = none
unsigned (String.◌∷◌ c s) = bounded (digits 0 (String.◌∷◌ c s))

-- `u64::from_str`: digits, behind a plus or not, of a number that has 64 bits
unfoldable pub from_str : String → Option ℕ
unfolding digits
from_str String.[] = none
from_str (String.◌∷◌ c s) = if nat_beq (code c) plus then unsigned s else unsigned (String.◌∷◌ c s)

unfoldable pub parse_node : String → Result (ℕ × String) String
unfolding split from_str
parse_node s = elim (split 61 s) [
  | [] ↦ err "Node format should be 'id=ip:port'"
  | id ∷ rest ↦ elim rest [
    | [] ↦ err "Node format should be 'id=ip:port'"
    | address ∷ more ↦ elim more [
      | x ∷ xs ↦ err "Node format should be 'id=ip:port'"
      | [] ↦ elim (from_str id) [
        | none ↦ err "Invalid node ID, node ID should be a positive integer"
        | some n ↦ ok (n, address)
      ]
    ]
  ]
]

parsed_node : parse_node "12=10.0.0.1:8000" ≡ ok (12, "10.0.0.1:8000")
unfolding parse_node
parsed_node = refl
