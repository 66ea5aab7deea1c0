-- ===== src/Client/Configs.antt =====
-- `Configs` (conreg-client/src/config.rs): the merged configuration and its flat view. `merge` stands
-- for the crate `config`: it reads the sources, the later over the earlier, or fails.
use conreg.Prelude.{String, Bool, Option, List, [], ◌∷◌, Anyhow, ok, err, string_eq, is_some}
use conreg.Client.Flatten.{flatten_yaml_value}
use conreg.Client.Format.{FileFormat, get_format}
use conreg.DashMap
use conreg.DashMap.{DashMap}
use conreg.Values.{Value, Fields}

pub record Configs : Type 0 where
  pub flatten_config : DashMap String Value
  pub merged_config : DashMap String Value

abbrev pub Merge : Type 0
Merge = List (String × FileFormat) → Anyhow (DashMap String Value)

-- `Mapping::from_iter`
unfoldable pub to_mapping : DashMap String Value → Fields
to_mapping [] = Fields.end
to_mapping ((k, v) ∷ m) = Fields.field (Value.string k) v (to_mapping m)

-- The loop that adds the sources.
unfoldable pub sources : List (String × String) → Anyhow (List (String × FileFormat))
unfolding get_format
sources [] = ok []
sources ((config_id, content) ∷ contents) =
    let rest = sources contents in
    elim (get_format config_id) [
      | err e ↦ err e
      | ok format ↦ elim rest [ err e ↦ err e | ok more ↦ ok ((content, format) ∷ more) ]
    ]

-- The merged configuration with its flat view.
unfoldable pub flattened : DashMap String Value → Configs
unfolding flatten_yaml_value to_mapping
flattened merged = record {
  flatten_config = flatten_yaml_value "" (Value.mapping (to_mapping merged)) [];
  merged_config = merged;
}

unfoldable pub from_contents : Merge → List (String × String) → Anyhow Configs
unfolding sources flattened
from_contents merge contents = elim (sources contents) [
  | err e ↦ err e
  | ok added ↦ elim (merge added) [ err e ↦ err e | ok merged ↦ ok (flattened merged) ]
]

unfoldable pub get : String → Configs → Option Value
unfolding DashMap.get
get key c = DashMap.get key c.flatten_config

unfoldable pub get_raw : String → Configs → Option Value
unfolding DashMap.get
get_raw key c = DashMap.get key c.merged_config

unfoldable pub contains : String → Configs → Bool
unfolding DashMap.get
contains key c = is_some (DashMap.get key c.flatten_config)
