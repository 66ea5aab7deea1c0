-- ===== src/Client/Flatten.antt =====
-- The flat view of a configuration: one entry for each leaf, its key the names on the way to it, with
-- dots between (`Configs::flatten_yaml_value` of conreg-client/src/config.rs).
use conreg.Prelude.Text.{is_empty}
use conreg.Prelude.{String, concat, to_string, string_eq, suc, if◌then◌else◌}
use conreg.Prelude.Int.{ℤ}
use conreg.DashMap
use conreg.DashMap.{DashMap}
use conreg.Values.{Value, Number, Fields}

-- The text of a number.
abbrev number_text : Number → String
unfolding to_string
number_text (Number.int (ℤ.pos n)) = to_string n
number_text (Number.int (ℤ.negsuc n)) = concat "-" (to_string (suc n))
number_text (Number.float text) = text

unfoldable pub key_str : Value → String
unfolding to_string
key_str (Value.string s) = s
key_str (Value.number num) = number_text num
key_str _ = "unknown"

unfoldable pub new_prefix : String → String → String
new_prefix prefix key = if is_empty prefix then key else concat prefix (concat "." key)

unfoldable mutual
  unfolding DashMap.insert new_prefix key_str

  pub flatten_yaml_value : String → Value → DashMap String Value → DashMap String Value
  flatten_yaml_value prefix (Value.mapping mapping) result = flatten_fields prefix mapping result
  flatten_yaml_value prefix Value.null result = DashMap.insert prefix Value.null result
  flatten_yaml_value prefix (Value.bool b) result = DashMap.insert prefix (Value.bool b) result
  flatten_yaml_value prefix (Value.number n) result = DashMap.insert prefix (Value.number n) result
  flatten_yaml_value prefix (Value.string s) result = DashMap.insert prefix (Value.string s) result
  flatten_yaml_value prefix (Value.sequence items) result =
      DashMap.insert prefix (Value.sequence items) result

  -- The loop over a mapping.
  pub flatten_fields : String → Fields → DashMap String Value → DashMap String Value
  flatten_fields prefix Fields.end result = result
  flatten_fields prefix (Fields.field key val rest) result =
      flatten_fields prefix rest (flatten_yaml_value (new_prefix prefix (key_str key)) val result)
