-- ===== src/DashMap.antt =====
-- The maps that the program keeps (`DashMap`, `HashMap`, `BTreeMap`, a moka cache): an association
-- list with one entry for a key. The program relies on no order of the entries.
use conreg.Prelude.{Option, none, some, List, [], ◌∷◌, ◌≡◌, refl, Eq, ◌==◌, arith, if◌then◌else◌}

abbrev pub DashMap : Type 0 → Type 0 → Type 0
DashMap K V = List (K × V)

module _ {K V : Type 0} ⦃e : Eq K⦄ where
  unfoldable pub get : K → DashMap K V → Option V
  get k [] = none
  get k ((j, v) ∷ m) = if j == k then some v else get k m

  unfoldable pub insert : K → V → DashMap K V → DashMap K V
  insert k v [] = (k, v) ∷ []
  insert k v ((j, w) ∷ m) = if j == k then (k, v) ∷ m else (j, w) ∷ insert k v m

  unfoldable pub remove : K → DashMap K V → DashMap K V
  remove k [] = []
  remove k ((j, v) ∷ m) = let rest = remove k m in if j == k then rest else (j, v) ∷ rest

  pub get-insert :
      (k j : K) (v : V) (m : DashMap K V)
      → get j (insert k v m) ≡ (if k == j then some v else get j m)
  unfolding get insert
  get-insert k j v [] = refl
  get-insert k j v ((i, w) ∷ m) =
      ground (arith, e.beq_iff k j, e.beq_iff i k, e.beq_iff i j, get-insert k j v m)

  pub get-remove :
      (k j : K) (m : DashMap K V) → get j (remove k m) ≡ (if k == j then none else get j m)
  unfolding get remove
  get-remove k j [] = ground arith
  get-remove k j ((i, w) ∷ m) =
      ground (arith, e.beq_iff k j, e.beq_iff i k, e.beq_iff i j, get-remove k j m)

  pub get-insert_self : (k : K) (v : V) (m : DashMap K V) → get k (insert k v m) ≡ some v
  get-insert_self k v m = ground (arith, get-insert k k v m, e.beq_iff k k)

  pub get-remove_self : (k : K) (m : DashMap K V) → get k (remove k m) ≡ none
  get-remove_self k m = ground (arith, get-remove k k m, e.beq_iff k k)

-- `iter_mut().for_each`: the same keys, each value changed.
unfoldable pub map_values : {K V : Type 0} → (V → V) → DashMap K V → DashMap K V
map_values f [] = []
map_values f ((k, v) ∷ m) = (k, f v) ∷ map_values f m

module _ {K V : Type 0} ⦃e : Eq K⦄ where
  pub get-map_values :
      (k : K) (f : V → V) (m : DashMap K V)
      → get k (map_values f m) ≡ elim (get k m) [ none ↦ none | some v ↦ some (f v) ]
  unfolding get map_values
  get-map_values k f [] = refl
  get-map_values k f ((i, w) ∷ m) = ground (arith, get-map_values k f m)
