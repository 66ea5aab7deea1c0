-- ===== src/Client/Format.antt =====
-- The format of a configuration, from the end of its id (`Configs::get_format` of
-- conreg-client/src/config.rs).
use conreg.Prelude.Text.{split}
use conreg.Prelude.{
  ℕ, String, List, [], ◌∷◌, Anyhow, ok, err, concat, ◌==◌, string_eq, ◌||◌, if◌then◌else◌,
}

pub data FileFormat : Type 0 where
  yaml json ini toml : FileFormat

abbrev pub last_of : List String → String
last_of [] = ""
last_of (s ∷ []) = s
last_of (s ∷ t ∷ rest) = last_of (t ∷ rest)

abbrev pub dot : ℕ
dot = 46

unfoldable pub get_format : String → Anyhow FileFormat
unfolding split
get_format config_id =
    let format = last_of (split dot config_id) in
    if format == "yaml" || (format == "yml")
    then ok FileFormat.yaml
    else if format == "json"
    then ok FileFormat.json
    else if format == "ini" || (format == "properties")
    then ok FileFormat.ini
    else if format == "toml"
    then ok FileFormat.toml
    else err (concat "unsupported config format: " config_id)
