-- ===== src/Sql/Pages.antt =====
-- The pages of a table: `ORDER BY … DESC LIMIT (page - 1) * size, size` for one page after the other.
use conreg.Prelude.{
  ℕ, zero, suc, ◌+◌, ◌-◌, ◌*◌, ◌%◌, ◌<◌, ◌≤◌, List, [], ◌∷◌, ◌++◌, ◌≡◌, refl, ap, ◌∙◌, sym, arith,
  take, drop, length, leb, Bool-cases, inl, inr, All,
}
use native.Mathlib.Nat.{mul-le-mul_right}
use mathlib.Core.List.{Perm}
use mathlib.Core.List.Perm
use conreg.Prelude.Int.{two_31, two_32}
use conreg.Sql.{limit, page_of, insert_desc, order_desc, length-order_desc}

wrap_offset : (p size : ℕ) → p * size < two_31 → ((suc p + (two_32 - 1)) * size) % two_32 ≡ p * size
wrap_offset p size h =
    let e : (suc p + (two_32 - 1)) * size ≡ p * size + two_32 * size = grind arith in
    omega (arith, e, h)

module _ {R : Type 0} where
  -- The first pages in a row.
  abbrev pub pages : (ℕ → List R) → ℕ → List R
  pages page zero = []
  pages page (suc k) = pages page k ++ page (suc k)

  take-nil : (n : ℕ) → take {A = R} n [] ≡ []
  take-nil zero = refl
  take-nil (suc n) = refl

  take-drop : (a b : ℕ) (xs : List R) → take a xs ++ take b (drop a xs) ≡ take (a + b) xs
  take-drop zero b xs = ap (λ n. take n xs) (omega arith)
  take-drop (suc a) b [] = take-nil b ∙ sym (take-nil (suc a + b))
  take-drop (suc a) b (x ∷ xs) =
      ap (x ∷◌) (take-drop a b xs)
      ∙ ap (λ n. take n (x ∷ xs)) (let e : suc (a + b) ≡ suc a + b = omega arith in e)

  take-all : (n : ℕ) (xs : List R) → length xs ≤ n → take n xs ≡ xs
  take-all zero [] h = refl
  take-all zero (x ∷ xs) h = absurd (omega arith)
  take-all (suc n) [] h = refl
  take-all (suc n) (x ∷ xs) h = ap (x ∷◌) (take-all n xs (omega arith))

  pub length-take-le : (n : ℕ) (xs : List R) → length (take n xs) ≤ n
  length-take-le zero xs = omega arith
  length-take-le (suc n) [] = omega arith
  length-take-le (suc n) (x ∷ xs) = omega (arith, length-take-le n xs)

  insert_desc-perm :
      (key : R → ℕ) (r : R) (rows : List R) → Perm (insert_desc key r rows) (r ∷ rows)
  unfolding insert_desc
  insert_desc-perm key r [] = Perm.refl (r ∷ [])
  insert_desc-perm key r (s ∷ rows) = elim (Bool-cases (leb (key s) (key r))) [
    | inl low ↦ rw low (Perm.refl (r ∷ s ∷ rows))
    | inr high ↦
        rw high (Perm.trans (Perm.cons s (insert_desc-perm key r rows)) (Perm.swap r s rows))
  ]

  -- Ordering the rows neither drops nor doubles one.
  pub order_desc-perm : (key : R → ℕ) (rows : List R) → Perm (order_desc key rows) rows
  unfolding order_desc
  order_desc-perm key [] = Perm.refl []
  order_desc-perm key (r ∷ rows) =
      Perm.trans (insert_desc-perm key r (order_desc key rows))
        (Perm.cons r (order_desc-perm key rows))

  pages-take :
      (size k : ℕ) (rows : List R)
      → pages (λ p. limit ((p - 1) * size) size rows) k ≡ take (k * size) rows
  pages-take size zero rows = ap (λ n. take n rows) (let e : 0 ≡ 0 * size = omega arith in e)
  pages-take size (suc k) rows =
      ap (λ l. l ++ take size (drop ((suc k - 1) * size) rows)) (pages-take size k rows)
      ∙ ap (λ n. take (k * size) rows ++ take size (drop n rows))
          (let e : (suc k - 1) * size ≡ k * size = ap (◌* size) (omega arith) in e)
      ∙ take-drop (k * size) size rows
      ∙ ap (λ n. take n rows) (let e : k * size + size ≡ suc k * size = grind arith in e)

  -- A page of a size that is not negative has at most that size.
  pub length-page_of :
      (p size : ℕ) (rows : List R) → size < two_31 → length (page_of p size rows) ≤ size
  unfolding page_of
  length-page_of p size rows h = ground (
    arith,
    length-take-le size (drop (((p + (two_32 - 1)) * size) % two_32) rows),
    length-take-le size rows,
  )

  -- Where the product does not wrap, a page stands behind the pages before it.
  page_of-limit :
      (p size : ℕ) (rows : List R)
      → p * size < two_31
      → size < two_31
      → page_of (suc p) size rows ≡ limit ((suc p - 1) * size) size rows
  unfolding page_of
  page_of-limit p size rows h b = ground (arith, wrap_offset p size h)

  pages-agree :
      (f g : ℕ → List R) (k : ℕ) → ((p : ℕ) → p < k → f (suc p) ≡ g (suc p)) → pages f k ≡ pages g k
  pages-agree f g zero h = refl
  pages-agree f g (suc k) h =
      ap (λ l. l ++ f (suc k)) (pages-agree f g k (λ p b. h p (omega arith)))
      ∙ ap (λ l. pages g k ++ l) (h k (omega arith))

  -- Enough pages in a row, none of whose offsets wraps, are all rows in order, each once.
  pub pages-all :
      (key : R → ℕ) (size k : ℕ) (rows : List R)
      → size < two_31
      → k * size < two_31
      → length rows ≤ k * size
      → (pages (λ p. page_of p size (order_desc key rows)) k ≡ order_desc key rows)
        × Perm (pages (λ p. page_of p size (order_desc key rows)) k) rows
  pages-all key size k rows b c h =
      let ordered = order_desc key rows in
      let all =
        pages-agree (λ p. page_of p size ordered) (λ p. limit ((p - 1) * size) size ordered) k
          (λ p d.
            page_of-limit p size ordered
              (omega (arith, mul-le-mul_right size (let e : p ≤ k = omega (arith, d) in e), c)) b)
        ∙ pages-take size k ordered
        ∙ take-all (k * size) ordered (omega (arith, length-order_desc key rows)) in
      (all, rw all (order_desc-perm key rows))

  -- No row stands before one with a greater key.
  abbrev pub IsDescending : (R → ℕ) → List R → Type 0
  IsDescending key [] = Unit
  IsDescending key (r ∷ rows) = All (λ s. key s ≤ key r) rows × IsDescending key rows

  insert_desc-All :
      (P : R → Type 0) (key : R → ℕ) (r : R) (rows : List R)
      → P r
      → All P rows
      → All P (insert_desc key r rows)
  unfolding insert_desc
  insert_desc-All P key r [] h hs = (h, tt)
  insert_desc-All P key r (s ∷ rows) h hs = elim (Bool-cases (leb (key s) (key r))) [
    | inl low ↦ rw low (h, hs)
    | inr high ↦ rw high (hs.0, insert_desc-All P key r rows h hs.1)
  ]

  All-le :
      (key : R → ℕ) (a b : ℕ) (rows : List R)
      → a ≤ b
      → All (λ s. key s ≤ a) rows
      → All (λ s. key s ≤ b) rows
  All-le key a b [] h hs = tt
  All-le key a b (s ∷ rows) h hs = (omega (arith, hs.0), All-le key a b rows h hs.1)

  insert_desc-IsDescending :
      (key : R → ℕ) (r : R) (rows : List R)
      → IsDescending key rows
      → IsDescending key (insert_desc key r rows)
  unfolding insert_desc
  insert_desc-IsDescending key r [] d = (tt, tt)
  insert_desc-IsDescending key r (s ∷ rows) d = elim (Bool-cases (leb (key s) (key r))) [
    | inl low ↦
        rw low ((ground (arith, low), All-le key (key s) (key r) rows (ground (arith, low)) d.0), d)
    | inr high ↦ rw high (
      insert_desc-All (λ x. key x ≤ key s) key r rows (ground (arith, high)) d.0,
      insert_desc-IsDescending key r rows d.1,
    )
  ]

  pub order_desc-IsDescending :
      (key : R → ℕ) (rows : List R) → IsDescending key (order_desc key rows)
  unfolding order_desc
  order_desc-IsDescending key [] = tt
  order_desc-IsDescending key (r ∷ rows) =
      insert_desc-IsDescending key r (order_desc key rows) (order_desc-IsDescending key rows)
