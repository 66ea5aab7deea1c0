-- ===== src/User/Permission.antt =====
-- Permissions and their texts (conreg-server/src/system/mod.rs, lines 12 to 30), and the lists of them
-- that a user's row holds as JSON.
use conreg.Prelude.{
  String, Option, none, some, List, [], ◌∷◌, ◌++◌, concat, contains, string_eq, ◌==◌, ◌||◌,
  if◌then◌else◌, retain, not,
}
use conreg.Prelude.Text.{strip_prefix}

pub data UserPermission : Type 0 where
  read_write_public_ns : UserPermission
  read_ns write_ns read_write_ns : String → UserPermission

unfoldable pub to_text : UserPermission → String
to_text read_write_public_ns = "rw:ns:public"
to_text (read_ns ns) = concat "r:ns:" ns
to_text (write_ns ns) = concat "w:ns:" ns
to_text (read_write_ns ns) = concat "rw:ns:" ns

abbrev or_else : Option String → Option String → Option String
or_else none o = o
or_else (some s) o = some s

-- The namespace that a permission names.
unfoldable pub namespace_of : String → Option String
unfolding strip_prefix
namespace_of p =
    or_else (or_else (strip_prefix "r:ns:" p) (strip_prefix "w:ns:" p)) (strip_prefix "rw:ns:" p)

-- `filter_map` over the permissions
unfoldable pub allowed_ns : List String → List String
unfolding namespace_of
allowed_ns [] = []
allowed_ns (p ∷ ps) =
    let rest = allowed_ns ps in elim (namespace_of p) [ none ↦ rest | some ns ↦ ns ∷ rest ]

-- `append_user_permissions_and_sync`: the new ones that are not there yet, in their order.
unfoldable pub append : List String → List String → List String
append perms [] = perms
append perms (p ∷ ps) = append (if contains perms p then perms else perms ++ (p ∷ [])) ps

-- `clean_ns_permissions_and_sync`: all but the three of the namespace.
unfoldable pub clean : String → List String → List String
clean namespace_id = retain (λ p. not (
    concat "r:ns:" namespace_id == p
    || concat "w:ns:" namespace_id == p
    || concat "rw:ns:" namespace_id == p))
