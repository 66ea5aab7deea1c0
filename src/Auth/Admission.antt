-- ===== src/Auth/Admission.antt =====
-- Who is let in (conreg-server/src/auth/mod.rs, lines 22 to 117).
use conreg.Prelude.{
  String, ℕ, Bool, true, false, Option, none, some, Anyhow, ok, err, ◌≡◌, ◌↔◌, ◌⊎◌, inl, inr, refl,
  arith, ap, sym, ◌∙◌, find,
}
use conreg.App.{App}
use conreg.Auth.Guard.{Status, Outcome, UserPrincipal, require_login, check_namespace, admit}
use conreg.Cache.Local.{Codec}
use conreg.Namespace.Access.{IsCoherent, stored, auth_iff}
use conreg.Namespace.Entry.{Namespace}
use conreg.Namespace.Manager.{auth, has_id}
use conreg.Values.{Value}

-- The namespace that the request names lets it in: it is unknown, or needs no token, or has this one.
abbrev pub IsOpen : App → Option (Anyhow String) → Option String → Type 0
IsOpen s namespace_id ns_token =
    (id : String) × (namespace_id ≡ some (ok id))
    × ((n : Namespace) → stored s id ≡ some n → n.is_auth ≡ true → n.auth_token ≡ ns_token)

Outcome-cases :
    {A : Type 0} (o : Outcome A)
    → ((a : A) × (o ≡ Outcome.success a)) ⊎ ((status : Status) × (o ≡ Outcome.error status))
Outcome-cases (Outcome.success a) = inl (a, refl)
Outcome-cases (Outcome.error status) = inr (status, refl)

check_namespace-auth :
    (id : String) (ns_token : Option String) (s : App)
    → ((check_namespace (some (ok id)) ns_token s).0 ≡ Outcome.success tt)
      ↔ ((auth id ns_token s).0 ≡ ok true)
unfolding check_namespace
check_namespace-auth id ns_token s = (λ h. ground arith, λ h. ground arith)

check_namespace-IsOpen :
    (namespace_id : Option (Anyhow String)) (ns_token : Option String) (s : App)
    → IsCoherent s
    → ((check_namespace namespace_id ns_token s).0 ≡ Outcome.success tt)
      ↔ IsOpen s namespace_id ns_token
check_namespace-IsOpen none ns_token s c =
    (λ h. absurd (unfold check_namespace in ground arith), λ o. absurd (ground (arith, o.1)))
check_namespace-IsOpen (some (err e)) ns_token s c =
    (λ h. absurd (unfold check_namespace in ground arith), λ o. absurd (ground (arith, o.1)))
check_namespace-IsOpen (some (ok id)) ns_token s c = (
  λ h. (id, refl, (auth_iff id ns_token s c).0 ((check_namespace-auth id ns_token s).0 h)),
  λ (j, e, there).
      (check_namespace-auth id ns_token s).1 ((auth_iff id ns_token s c).1 (ground (arith, e))),
)

module _ (codec : Codec) (from_value : Value → Option String) (now : ℕ) where
  require_login-args :
      (token : Option String) (s : App)
      → ((require_login codec from_value now token s).1.namespace ≡ s.namespace)
        × ((require_login codec from_value now token s).1.namespace_cache ≡ s.namespace_cache)
  unfolding require_login
  require_login-args none s = (refl, refl)
  require_login-args (some token) s = (ground arith, ground arith)

  require_login-IsCoherent :
      (token : Option String) (s : App)
      → IsCoherent s
      → IsCoherent (require_login codec from_value now token s).1
  require_login-IsCoherent token s c =
      let same = require_login-args token s in
      record { at_id = λ id n h. ground (arith, c.at_id id n, same.0, same.1) }

  require_login-IsOpen :
      (token : Option String) (s : App) (namespace_id : Option (Anyhow String))
      (ns_token : Option String)
      → IsOpen (require_login codec from_value now token s).1 namespace_id ns_token
        ↔ IsOpen s namespace_id ns_token
  require_login-IsOpen token s namespace_id ns_token =
      let same : (id : String)
          → stored (require_login codec from_value now token s).1 id ≡ stored s id =
        λ id. ap (λ rows. find (has_id id) rows) (require_login-args token s).0 in
      (
        λ (id, e, f). (id, e, λ n h. f n (same id ∙ h)),
        λ (id, e, f). (id, e, λ n h. f n (sym (same id) ∙ h)),
      )

  -- Where every namespace in the cache is as in the table, a request is let in exactly if it comes from the
  -- console with the token of a user who is logged in, or if it names a namespace that, by the table, lets
  -- it in.
  pub admit_iff :
      (console : Bool) (token : Option String) (namespace_id : Option (Anyhow String))
      (ns_token : Option String) (s : App)
      → IsCoherent s
      → ((admit codec from_value now console token namespace_id ns_token s).0 ≡ Outcome.success tt)
        ↔ (((console ≡ true)
              × (u : UserPrincipal) × ((require_login codec from_value now token s).0
                  ≡ Outcome.success u))
            ⊎ IsOpen s namespace_id ns_token)
  unfolding admit
  admit_iff false token namespace_id ns_token s c =
      let check = check_namespace-IsOpen namespace_id ns_token s c in
      (
        λ h. inr (check.0 h),
        λ o. elim o [ inl (e, u, w) ↦ absurd (ground (arith, e)) | inr w ↦ check.1 w ],
      )
  admit_iff true token namespace_id ns_token s c =
      let t = (require_login codec from_value now token s).1 in
      let check =
        check_namespace-IsOpen namespace_id ns_token t (require_login-IsCoherent token s c) in
      let same = require_login-IsOpen token s namespace_id ns_token in
      elim (Outcome-cases (require_login codec from_value now token s).0) [
        | inl (u, e) ↦ (λ h. inl (refl, u, e), λ o. ground (arith, e))
        | inr (status, e) ↦ (
          λ h. inr (same.0 (check.0 (ground (arith, e, h)))),
          λ o. elim o [
            | inl (on, u, w) ↦ absurd (ground (arith, e, w))
            | inr w ↦ ground (arith, e, check.1 (same.1 w))
          ],
        )
      ]
