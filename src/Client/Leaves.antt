-- ===== src/Client/Leaves.antt =====
-- The flat view of a configuration against the list of its leaves (`Configs::flatten_yaml_value` of
-- conreg-client/src/config.rs).
use conreg.Prelude.{
  String, Option, some, List, [], ◌∷◌, ◌++◌, ◌≡◌, refl, ap, ◌∙◌, sym, ◌==◌, string_eq,
  if◌then◌else◌,
}
use conreg.Client.Flatten.{flatten_yaml_value, flatten_fields, new_prefix, key_str}
use conreg.DashMap
use conreg.DashMap.{DashMap, get-insert}
use conreg.Values.{Value, Fields}

-- The values in a value that are no mappings, in their order, each under its full key.
unfoldable mutual
  pub leaves : String → Value → List (String × Value)
  leaves prefix (Value.mapping mapping) = leaves_of prefix mapping
  leaves prefix Value.null = (prefix, Value.null) ∷ []
  leaves prefix (Value.bool b) = (prefix, Value.bool b) ∷ []
  leaves prefix (Value.number n) = (prefix, Value.number n) ∷ []
  leaves prefix (Value.string s) = (prefix, Value.string s) ∷ []
  leaves prefix (Value.sequence items) = (prefix, Value.sequence items) ∷ []

  pub leaves_of : String → Fields → List (String × Value)
  leaves_of prefix Fields.end = []
  leaves_of prefix (Fields.field key val rest) =
      leaves (new_prefix prefix (key_str key)) val ++ leaves_of prefix rest

-- The last value under a key, or else a given one.
unfoldable pub last_or : Option Value → String → List (String × Value) → Option Value
last_or o key [] = o
last_or o key ((k, v) ∷ rest) = last_or (if k == key then some v else o) key rest

last_or-append :
    (o : Option Value) (key : String) (xs ys : List (String × Value))
    → last_or o key (xs ++ ys) ≡ last_or (last_or o key xs) key ys
unfolding last_or
last_or-append o key [] ys = refl
last_or-append o key ((k, v) ∷ xs) ys = last_or-append (if k == key then some v else o) key xs ys

mutual
  unfolding flatten_yaml_value leaves last_or

  -- A key of the flat view has the value of the last leaf under that key, and what it had before where
  -- no leaf has the key.
  pub get-flatten_yaml_value :
      (key prefix : String) (v : Value) (result : DashMap String Value)
      → DashMap.get key (flatten_yaml_value prefix v result)
        ≡ last_or (DashMap.get key result) key (leaves prefix v)
  get-flatten_yaml_value key prefix (Value.mapping mapping) result =
      get-flatten_fields key prefix mapping result
  get-flatten_yaml_value key prefix Value.null result = get-insert prefix key Value.null result
  get-flatten_yaml_value key prefix (Value.bool b) result =
      get-insert prefix key (Value.bool b) result
  get-flatten_yaml_value key prefix (Value.number n) result =
      get-insert prefix key (Value.number n) result
  get-flatten_yaml_value key prefix (Value.string s) result =
      get-insert prefix key (Value.string s) result
  get-flatten_yaml_value key prefix (Value.sequence items) result =
      get-insert prefix key (Value.sequence items) result

  pub get-flatten_fields :
      (key prefix : String) (fs : Fields) (result : DashMap String Value)
      → DashMap.get key (flatten_fields prefix fs result)
        ≡ last_or (DashMap.get key result) key (leaves_of prefix fs)
  get-flatten_fields key prefix Fields.end result = refl
  get-flatten_fields key prefix (Fields.field k val rest) result =
      let inner = new_prefix prefix (key_str k) in
      get-flatten_fields key prefix rest (flatten_yaml_value inner val result)
      ∙ ap (λ o. last_or o key (leaves_of prefix rest))
          (get-flatten_yaml_value key inner val result)
      ∙ sym (last_or-append (DashMap.get key result) key (leaves inner val) (leaves_of prefix rest))
