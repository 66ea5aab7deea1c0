-- ===== src/Prelude/Digits.antt =====
-- The digits of a number: how many they are, and what they spell.
use Prim.Native.Char.{code}
use Prim.Native.Nat.{ℕ, zero, suc, ◌+◌, ◌-◌, ◌*◌, ◌/◌, ◌%◌, ◌^◌, ◌≤◌, ◌<◌}
use Prim.Native.String.{String, ◌++◌}
use mathlib.Core.Bool.{◌&&◌}
use mathlib.Core.Logic.{inl, inr}
use mathlib.Core.Option.{Option, none, some}
use mathlib.Core.Path.{◌≡◌, refl, ap, ◌∙◌}
use native.Mathlib.Numerals.{add-one}
use native.Mathlib.Omega.{arith}
use native.Mathlib.Nat.{pow-suc}
use text.Mathlib.TextLemmas.{nil-append, cons-append}
use conreg.Prelude.Decimal.{digit, print, to_string}
use conreg.Prelude.Tests.{ltb, leb, if◌then◌else◌, Bool-cases}
use conreg.Prelude.Text.{size}

-- The number that a text of digits spells, behind the number `n`.
unfoldable pub digits : ℕ → String → Option ℕ
digits n String.[] = some n
digits n (String.◌∷◌ c s) =
    let rest = digits (n * 10 + (code c - 48)) s in
    if leb 48 (code c) && leb (code c) 57 then rest else none

pub size-append : (s t : String) → size (s ++ t) ≡ size s + size t
size-append String.[] t = ap size (nil-append t) ∙ omega arith
size-append (String.◌∷◌ c s) t = ap size (cons-append c s t) ∙ omega (arith, size-append s t)

size-digit : (n : ℕ) → size (digit n) ≡ 1
unfolding digit
size-digit zero = refl
size-digit (suc zero) = refl
size-digit (suc (suc zero)) = refl
size-digit (suc (suc (suc zero))) = refl
size-digit (suc (suc (suc (suc zero)))) = refl
size-digit (suc (suc (suc (suc (suc zero))))) = refl
size-digit (suc (suc (suc (suc (suc (suc zero)))))) = refl
size-digit (suc (suc (suc (suc (suc (suc (suc zero))))))) = refl
size-digit (suc (suc (suc (suc (suc (suc (suc (suc zero)))))))) = refl
size-digit (suc (suc (suc (suc (suc (suc (suc (suc (suc n))))))))) = refl

digits-digit : (a n : ℕ) → n < 10 → digits a (digit n) ≡ some (a * 10 + n)
unfolding digit digits
digits-digit a zero h = refl
digits-digit a (suc zero) h = refl
digits-digit a (suc (suc zero)) h = refl
digits-digit a (suc (suc (suc zero))) h = refl
digits-digit a (suc (suc (suc (suc zero)))) h = refl
digits-digit a (suc (suc (suc (suc (suc zero))))) h = refl
digits-digit a (suc (suc (suc (suc (suc (suc zero)))))) h = refl
digits-digit a (suc (suc (suc (suc (suc (suc (suc zero))))))) h = refl
digits-digit a (suc (suc (suc (suc (suc (suc (suc (suc zero)))))))) h = refl
digits-digit a (suc (suc (suc (suc (suc (suc (suc (suc (suc zero))))))))) h = refl
digits-digit a (suc (suc (suc (suc (suc (suc (suc (suc (suc (suc n)))))))))) h =
    absurd (omega arith)

digits-append :
    (a : ℕ) (s t : String)
    → digits a (s ++ t) ≡ elim (digits a s) [ none ↦ none | some b ↦ digits b t ]
unfolding digits
digits-append a String.[] t = ap (digits a) (nil-append t)
digits-append a (String.◌∷◌ c s) t =
    ap (digits a) (cons-append c s t) ∙ ground (arith, digits-append (a * 10 + (code c - 48)) s t)

-- `fuel` is enough: the digits of a number below it spell it.
digits-print : (fuel n : ℕ) → n < fuel → digits 0 (print fuel n) ≡ some n
unfolding print
digits-print zero n h = elim h [ ]
digits-print (suc fuel) n h = elim (Bool-cases (ltb n 10)) [
  | inl small ↦ ground (arith, small, digits-digit 0 n (ground arith))
  | inr big ↦ rw big (
      ground (
        arith,
        digits-append 0 (print fuel (n / 10)) (digit (n % 10)),
        digits-print fuel (n / 10) (ground arith),
        digits-digit (n / 10) (n % 10) (omega arith),
      ))
]

pub digits-to_string : (n : ℕ) → digits 0 (to_string n) ≡ some n
unfolding to_string
digits-to_string n = digits-print (n + 1) n (omega arith)

-- A number below `10 ^ k` has at most `k` digits.
size-print : (fuel n k : ℕ) → n < 10 ^ suc k → size (print fuel n) ≤ suc k
unfolding print
size-print zero n k h = omega arith
size-print (suc fuel) n zero h = ground (arith, size-digit n)
size-print (suc fuel) n (suc k) h = elim (Bool-cases (ltb n 10)) [
  | inl small ↦ ground (arith, small, size-digit n)
  | inr big ↦ rw big (
      omega (
        arith,
        size-append (print fuel (n / 10)) (digit (n % 10)),
        size-digit (n % 10),
        size-print fuel (n / 10) k (omega (arith, pow-suc 10 (suc k))),
      ))
]

pub size-to_string : (n : ℕ) → n < 2 ^ 64 → size (to_string n) ≤ 20
unfolding to_string
size-to_string n h = size-print (n + 1) n 19 (omega arith)

pub to_string-filled : (n : ℕ) → 0 < size (to_string n)
unfolding to_string
to_string-filled n = rw add-one (
    unfold print in
    elim (Bool-cases (ltb n 10)) [
      | inl small ↦ ground (arith, small, size-digit n)
      | inr big ↦
          rw big
            (omega (arith, size-append (print n (n / 10)) (digit (n % 10)), size-digit (n % 10)))
    ])
