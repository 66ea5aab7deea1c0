-- ===== src/Sql.antt =====
-- The SQL statements that the program sends to SQLite, on a table that is a list of rows: `SELECT …
-- WHERE`, `UPDATE … WHERE`, `DELETE … WHERE`, `INSERT` into a table with unique columns, and
-- `ORDER BY … DESC LIMIT`. An `INSERT` of a row that clashes with another fails and changes nothing.
pub mod Pages
use conreg.Prelude.{
  ℕ, suc, ◌+◌, ◌-◌, ◌*◌, ◌%◌, ltb, ◌≡◌, refl, Bool, true, false, Option, none, some, List, [], ◌∷◌,
  ◌++◌, map, arith, leb, if◌then◌else◌, not, find, retain, length, take, drop,
}
use conreg.Prelude.Int.{two_31, two_32}

module _ {R : Type 0} where
  -- `fetch_optional`
  abbrev pub fetch_optional : (R → Bool) → List R → Option R
  fetch_optional = find

  abbrev pub update_where : (R → Bool) → (R → R) → List R → List R
  update_where p f = map (λ r. if p r then f r else r)

  abbrev pub delete_where : (R → Bool) → List R → List R
  delete_where p = retain (λ r. not (p r))

  -- `clash old new`: a `unique` or `primary key` constraint forbids the two rows together.
  unfoldable pub insert_row : (R → R → Bool) → R → List R → Option (List R)
  insert_row clash new table = elim (find (λ old. clash old new) table) [
    | none ↦ some (table ++ (new ∷ []))
    | some _ ↦ none
  ]

  pub find-snoc :
      (p : R → Bool) (table : List R) (new : R)
      → find p (table ++ (new ∷ []))
        ≡ elim (find p table) [ none ↦ (if p new then some new else none) | some r ↦ some r ]
  find-snoc p [] new = refl
  find-snoc p (r ∷ table) new = ground (arith, find-snoc p table new)

  pub find-delete_where :
      (p q : R → Bool) (table : List R)
      → ((r : R) → q r ≡ true → p r ≡ false)
      → find p (delete_where q table) ≡ find p table
  find-delete_where p q [] h = refl
  find-delete_where p q (r ∷ table) h = ground (arith, find-delete_where p q table h, h r)

  pub find-delete_where_self :
      (p q : R → Bool) (table : List R)
      → ((r : R) → p r ≡ true → q r ≡ true)
      → find p (delete_where q table) ≡ none
  find-delete_where_self p q [] h = refl
  find-delete_where_self p q (r ∷ table) h = ground (arith, find-delete_where_self p q table h, h r)

  -- What `ORDER BY key DESC` returns, and the rows that `LIMIT offset, size` keeps of it.
  unfoldable pub insert_desc : (R → ℕ) → R → List R → List R
  insert_desc key r [] = r ∷ []
  insert_desc key r (s ∷ rows) =
      let rest = insert_desc key r rows in if leb (key s) (key r) then r ∷ s ∷ rows else s ∷ rest

  unfoldable pub order_desc : (R → ℕ) → List R → List R
  unfolding insert_desc
  order_desc key [] = []
  order_desc key (r ∷ rows) = insert_desc key r (order_desc key rows)

  abbrev pub limit : ℕ → ℕ → List R → List R
  limit offset size rows = take size (drop offset rows)

  -- A page of an ordered query: `LIMIT (page_num - 1) * page_size, page_size`, both numbers 32-bit patterns of
  -- an `i32`, whose product wraps. SQLite reads a negative offset as 0, and a negative size as no limit.
  unfoldable pub page_of : ℕ → ℕ → List R → List R
  page_of page_num page_size rows =
      let offset = ((page_num + (two_32 - 1)) * page_size) % two_32 in
      let rest = if ltb offset two_31 then drop offset rows else rows in
      if ltb page_size two_31 then take page_size rest else rest

  length-insert_desc :
      (key : R → ℕ) (r : R) (rows : List R) → length (insert_desc key r rows) ≡ suc (length rows)
  unfolding insert_desc
  length-insert_desc key r [] = refl
  length-insert_desc key r (s ∷ rows) = ground (arith, length-insert_desc key r rows)

  pub length-order_desc : (key : R → ℕ) (rows : List R) → length (order_desc key rows) ≡ length rows
  unfolding order_desc
  length-order_desc key [] = refl
  length-order_desc key (r ∷ rows) =
      ground (arith, length-insert_desc key r (order_desc key rows), length-order_desc key rows)
