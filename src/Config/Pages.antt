-- ===== src/Config/Pages.antt =====
-- The pages of the configurations (`list_configs_with_page` of conreg-server/src/config/server/mod.rs).
use conreg.Prelude.{
  ℕ, ◌*◌, ◌<◌, ◌≤◌, String, string_eq, Bool, List, ◌==◌, ◌&&◌, ◌≡◌, refl, retain, length,
}
use conreg.Prelude.Int.{two_31}
use mathlib.Core.List.{Perm}
use conreg.App.{App}
use conreg.Config.Entry.{ConfigEntry}
use conreg.Config.Manager.{list_configs_with_page}
use conreg.Sql.{order_desc}
use conreg.Sql.Pages.{pages, pages-all, IsDescending, order_desc-IsDescending, length-page_of}

-- The configurations of a namespace that the filter lets through.
abbrev pub matching : String → (ConfigEntry → Bool) → App → List ConfigEntry
matching n matches s = retain (λ e. e.namespace_id == n && matches e) s.config

abbrev pub page : String → ℕ → (ConfigEntry → Bool) → App → ℕ → List ConfigEntry
unfolding list_configs_with_page
page n size matches s p = (list_configs_with_page n p size matches s).1

-- For a page size that is not negative as an `i32`: a page has at most its size, and every page tells the number
-- of all configurations that match. As many pages in a row as that number needs, from the first on, show each
-- of them once, the greatest id first, if the number of these pages times the size is below 2 ^ 31, so that no
-- offset wraps.
pub list_configs_with_page-all :
    (n : String) (size k : ℕ) (matches : ConfigEntry → Bool) (s : App)
    → size < two_31
    → k * size < two_31
    → length (matching n matches s) ≤ k * size
    → ((p : ℕ)
        → (length (page n size matches s p) ≤ size)
          × ((list_configs_with_page n p size matches s).0 ≡ length (matching n matches s)))
      × Perm (pages (page n size matches s) k) (matching n matches s)
      × IsDescending (λ e. e.id_) (pages (page n size matches s) k)
unfolding list_configs_with_page
list_configs_with_page-all n size k matches s b c h =
    let rows = matching n matches s in
    let (ordered, perm) = pages-all (λ (e : ConfigEntry). e.id_) size k rows b c h in
    (
      λ p. (length-page_of p size (order_desc (λ e. e.id_) rows) b, refl),
      perm,
      rw ordered (order_desc-IsDescending (λ (e : ConfigEntry). e.id_) rows),
    )
