-- ===== src/Server/Web.antt =====
-- The console's files (`web` of conreg-server/src/web.rs), which are embedded in the program. `get` finds a file,
-- and `from_extension` is Rocket's type of a file by its extension. The path has been split by Rocket.
use Prim.Native.Char.{code}
use conreg.Prelude.{
  String, string_eq, Option, none, some, List, [], ◌∷◌, ◌==◌, if◌then◌else◌, ◌≡◌, ◌↔◌, arith,
  Bool-cases, Option-cases, inl, inr, refl, ℕ, ◌≢◌, nat_beq, eq_iff,
}
use conreg.Prelude.Text.{split, join}

abbrev last : List String → Option String
last [] = none
last (s ∷ []) = some s
last (s ∷ t ∷ rest) = last (t ∷ rest)

-- `split('.').last()`
unfoldable pub extension : String → Option String
unfolding split
extension path = last (split 46 path)

module _ {File ContentType : Type 0} (html : ContentType) (get : String → Option File)
    (from_extension : String → Option ContentType) where
  abbrev found :
      Option String → File → Option (ContentType × File) → Option File → Option (ContentType × File)
  found none page index file = none
  found (some ext) page index none = index
  found (some ext) page index (some file) = elim (from_extension ext) [
    | none ↦ none
    | some t ↦ some (t, file)
  ]

  unfoldable pub web : List String → Option (ContentType × File)
  unfolding extension
  web segments =
      let path = join "/" segments in
      elim (get "index.html") [
        | none ↦ none
        | some page ↦
            let index = some (html, page) in
            if path == "" then index else found (extension path) page index (get path)
      ]

  last-cons : (s : String) (rest : List String) → (x : String) × (last (s ∷ rest) ≡ some x)
  last-cons s [] = (s, refl)
  last-cons s (t ∷ rest) = last-cons t rest

  split-cons : (mark : ℕ) (s : String) → (x : String) × (xs : List String) × (split mark s ≡ x ∷ xs)
  unfolding split
  split-cons mark String.[] = ("", [], refl)
  split-cons mark (String.◌∷◌ c s) =
      let (x, xs, e) = split-cons mark s in
      elim (Bool-cases (nat_beq (code c) mark)) [
        | inl here ↦ ("", split mark s, ground (arith, here))
        | inr not_here ↦ (String.◌∷◌ c x, xs, ground (arith, not_here, e))
      ]

  -- Every path has an extension: all of it, where it has no dot.
  pub extension-some : (path : String) → (ext : String) × (extension path ≡ some ext)
  unfolding extension
  extension-some path =
      let (x, xs, e) = split-cons 46 path in let (ext, l) = last-cons x xs in (ext, rw e l)

  -- Where the program has the console's first page, a path is answered with nothing exactly if it names a file
  -- whose extension Rocket does not know. Every path that names no file is answered with the first page.
  pub web-none_iff :
      (segments : List String) (page : File) (ext : String)
      → get "index.html" ≡ some page
      → extension (join "/" segments) ≡ some ext
      → ((web segments ≡ none) ↔ (
          (join "/" segments ≢ "")
          × ((file : File) × (get (join "/" segments) ≡ some file))
          × (from_extension ext ≡ none)))
        × (get (join "/" segments) ≡ none → web segments ≡ some (html, page))
  unfolding web
  web-none_iff segments page ext there is = (
    (
      λ h. elim (Option-cases (get (join "/" segments))) [
        | inl e ↦ absurd (ground (arith, there, is, e))
        | inr (file, e) ↦ (
          λ empty. absurd (ground (arith, there, is, e, eq_iff (join "/" segments) "")),
          (file, e),
          ground (arith, there, is, e),
        )
      ],
      λ (filled, (file, e), unknown).
          ground (arith, there, is, e, unknown, eq_iff (join "/" segments) ""),
    ),
    λ e. ground (arith, there, is, e),
  )
