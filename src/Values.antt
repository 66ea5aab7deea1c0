-- ===== src/Values.antt =====
-- A JSON or YAML value, as `serde_json` and `serde_yaml` hold it. A float is kept as its text: the
-- program only asks whether a number is an integer.
use conreg.Prelude.{ℕ, Bool, String, Option, none, some, ltb, if◌then◌else◌}
use conreg.Prelude.Int.{ℤ, two_63}

pub data Number : Type 0 where
  int : ℤ → Number
  float : String → Number

mutual
  pub data Value : Type 0 where
    null : Value
    bool : Bool → Value
    number : Number → Value
    string : String → Value
    sequence : Items → Value
    mapping : Fields → Value

  pub data Items : Type 0 where
    nil : Items
    cons : Value → Items → Items

  pub data Fields : Type 0 where
    end : Fields
    field : Value → Value → Fields → Fields

-- `Value::as_u64`
unfoldable pub as_nat : Value → Option ℕ
as_nat (Value.number (Number.int (ℤ.pos n))) = some n
as_nat _ = none

-- `Value::as_i64`
unfoldable pub as_int : Value → Option ℤ
as_int (Value.number (Number.int (ℤ.pos n))) = if ltb n two_63 then some (ℤ.pos n) else none
as_int (Value.number (Number.int (ℤ.negsuc n))) = some (ℤ.negsuc n)
as_int _ = none
