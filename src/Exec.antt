-- ===== src/Exec.antt =====
-- Code that reads and writes the node's state and may fail. What was written before an error stays
-- written, so the state comes back beside the error too.
use conreg.Prelude.{Anyhow, ok, err, Option, none, some, String}

abbrev pub Exec : Type 0 → Type 0 → Type 0
Exec S A = S → Anyhow A × S

module _ {S A : Type 0} where
  abbrev pub pure : A → Exec S A
  pure a s = (ok a, s)

  -- `bail!`
  abbrev pub bail : String → Exec S A
  bail message s = (err message, s)

  -- the `?` of a value that is there or not
  abbrev pub context : Option A → String → Exec S A
  context none message s = (err message, s)
  context (some a) message s = (ok a, s)

  abbrev pub gets : (S → A) → Exec S A
  gets f s = (ok (f s), s)

abbrev pub modify : {S : Type 0} → (S → S) → Exec S (Unit {0})
modify f s = (ok tt, f s)

module _ {S A B : Type 0} where
  abbrev and_then : Anyhow A × S → (A → Exec S B) → Anyhow B × S
  and_then (ok a, s) f = f a s
  and_then (err e, s) f = (err e, s)

  infixl 10 ◌>>=◌ ◌>>◌
  abbrev pub ◌>>=◌ : Exec S A → (A → Exec S B) → Exec S B
  ◌>>=◌ m f s = and_then (m s) f

  abbrev pub ◌>>◌ : Exec S A → Exec S B → Exec S B
  m >> k = m >>= λ _. k
