-- ===== src/Table/Quantifiers.antt =====
-- COUNT, `LIMIT 1` and `ORDER BY` as answers to `exists`.
use khronos.Prelude.{
  ◌≡◌, refl, Bool, true, false, All, ◌&&◌, not, List, [], ◌∷◌, arith, ltb, eqb, is_some, ◌≤◌,
}
use khronos.Table.Defs.{select, exists, count, first}
use khronos.Table.Sorting.{insert_sorted, order_by}

module _ {ℓ} {Row : Type ℓ} (p : Row → Bool) where
  pub count-exists : (rows : List Row) → ltb 0 (count p rows) ≡ exists p rows
  unfolding count exists
  count-exists [] = refl
  count-exists (r ∷ rows) = ground (arith, count-exists rows)

  count-and_le : (c : Row → Bool) (rows : List Row) → count (λ r. p r && c r) rows ≤ count p rows
  unfolding count
  count-and_le c [] = omega arith
  count-and_le c (r ∷ rows) = ground (arith, count-and_le c rows)

  -- the two counts agree where no row meets the first test only
  pub count-and :
      (c : Row → Bool) (rows : List Row)
      → eqb (count (λ r. p r && c r) rows) (count p rows)
        ≡ not (exists (λ r. p r && not (c r)) rows)
  unfolding count exists
  count-and c [] = refl
  count-and c (r ∷ rows) = ground (arith, count-and c rows, count-and_le c rows)

  pub exists-and :
      (c : Row → Bool) (rows : List Row)
      → exists (λ r. p r && c r) rows ≡ true
      → exists p rows ≡ true
  unfolding exists
  exists-and c [] h = h
  exists-and c (r ∷ rows) h = ground (arith, exists-and c rows)

  pub first-select : (rows : List Row) → is_some (first (select p rows)) ≡ exists p rows
  unfolding first select exists
  first-select [] = refl
  first-select (r ∷ rows) = ground (arith, first-select rows)

module _ {ℓ} {Row : Type ℓ} (le : Row → Row → Bool) where
  first-insert_sorted :
      (r : Row) (rows : List Row) → is_some (first (insert_sorted le r rows)) ≡ true
  unfolding first insert_sorted
  first-insert_sorted r [] = refl
  first-insert_sorted r (x ∷ rows) = ground arith

  pub first-order_by : (rows : List Row) → is_some (first (order_by le rows)) ≡ is_some (first rows)
  unfolding first order_by
  first-order_by [] = refl
  first-order_by (r ∷ rows) = first-insert_sorted r (order_by le rows)

-- a predicate of every row, by the number of rows that a test of its negation finds
module _ {ℓ κ} {Row : Type ℓ} (P : Row → Type κ) (p : Row → Bool) where
  pub count-All :
      ((r : Row) → P r → p r ≡ false) → (rows : List Row) → All P rows → count p rows ≡ 0
  unfolding count
  count-All off [] all = refl
  count-All off (r ∷ rows) all = rw (off r all.0) (count-All off rows all.1)

  pub All-count :
      ((r : Row) → p r ≡ false → P r) → (rows : List Row) → count p rows ≡ 0 → All P rows
  unfolding count
  All-count on [] h = tt
  All-count on (r ∷ rows) h = (on r (ground arith), All-count on rows (ground arith))
