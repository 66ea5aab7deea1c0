-- ===== src/Tests/Namespace.antt =====
-- Runs of the namespaces and of the guards of requests (conreg-server/src/namespace/server/mod.rs,
-- conreg-server/src/auth/mod.rs).
use conreg.Prelude.{String, true, Option, none, some, [], ◌∷◌, string_eq, ok, ◌≡◌, ◌↔◌, ◌⊎◌, arith}
use conreg.Auth.Admission.{IsOpen, admit_iff}
use conreg.Auth.Guard.{Outcome, UserPrincipal, require_login, admit}
use conreg.Cache.Local.{Codec}
use conreg.DashMap
use conreg.Values.{Value}
use conreg.App.{App}
use conreg.Namespace.Access.{IsCoherent}
use conreg.Tests.Node.{empty, namespace, entry}

-- A node with a namespace and a configuration in another.
abbrev teamed : App
teamed = record empty { namespace = namespace ∷ []; config = entry ∷ [] }

IsCoherent-teamed : IsCoherent teamed
unfolding DashMap.get
IsCoherent-teamed = record { at_id = λ id n h. absurd (ground arith) }

abbrev codec : Codec
codec = record { to_vec = λ e. "{}"; from_slice = λ bytes. none }

abbrev user_of : Value → Option String
user_of v = some "alice"

admit_iff_example :
    ((admit codec user_of 100 true (some "token") (some (ok "team")) (some "secret") teamed).0
      ≡ Outcome.success tt)
    ↔ (((true ≡ true)
          × (u : UserPrincipal) × ((require_login codec user_of 100 (some "token") teamed).0
              ≡ Outcome.success u))
        ⊎ IsOpen teamed (some (ok "team")) (some "secret"))
admit_iff_example =
    admit_iff codec user_of 100 true (some "token") (some (ok "team")) (some "secret") teamed
      IsCoherent-teamed
