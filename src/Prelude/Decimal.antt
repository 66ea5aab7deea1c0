-- ===== src/Prelude/Decimal.antt =====
-- Rust's `{}` for an unsigned number: its decimal digits.
use Prim.Native.Nat.{ℕ, zero, suc, ◌+◌, ◌/◌, ◌%◌}
use Prim.Native.String.{String, ◌++◌}
use mathlib.Core.Path.{◌≡◌, refl}
use conreg.Prelude.Tests.{ltb, if◌then◌else◌}

unfoldable pub digit : ℕ → String
digit zero = "0"
digit (suc zero) = "1"
digit (suc (suc zero)) = "2"
digit (suc (suc (suc zero))) = "3"
digit (suc (suc (suc (suc zero)))) = "4"
digit (suc (suc (suc (suc (suc zero))))) = "5"
digit (suc (suc (suc (suc (suc (suc zero)))))) = "6"
digit (suc (suc (suc (suc (suc (suc (suc zero))))))) = "7"
digit (suc (suc (suc (suc (suc (suc (suc (suc zero)))))))) = "8"
digit _ = "9"

-- A number has no more digits than it is, so `n + 1` rounds are enough.
unfoldable pub print : ℕ → ℕ → String
print zero n = ""
print (suc fuel) n =
    let rest = print fuel (n / 10) in if ltb n 10 then digit n else rest ++ digit (n % 10)

unfoldable pub to_string : ℕ → String
unfolding print digit
to_string n = print (n + 1) n

to_string_port : to_string 8080 ≡ "8080"
unfolding to_string
to_string_port = refl
