-- ===== src/Table/Defs.antt =====
-- SELECT, UPDATE, DELETE, COUNT and INSERT over a list of rows. The `WHERE` clause is a test of a row.
use khronos.Prelude.{
  ℕ, suc, Bool, false, Option, none, some, List, [], ◌∷◌, ◌++◌, ◌||◌, if◌then◌else◌,
}

module _ {ℓ} {Row : Type ℓ} where
  unfoldable pub select : (Row → Bool) → List Row → List Row
  select test [] = []
  select test (r ∷ rows) = if test r then r ∷ select test rows else select test rows

  unfoldable pub find : (Row → Bool) → List Row → Option Row
  find test [] = none
  find test (r ∷ rows) = let rest = find test rows in if test r then some r else rest

  unfoldable pub exists : (Row → Bool) → List Row → Bool
  exists test [] = false
  exists test (r ∷ rows) = test r || exists test rows

  unfoldable pub count : (Row → Bool) → List Row → ℕ
  count test [] = 0
  count test (r ∷ rows) = let n = count test rows in if test r then suc n else n

  unfoldable pub update : (Row → Bool) → (Row → Row) → List Row → List Row
  update test set [] = []
  update test set (r ∷ rows) = (if test r then set r else r) ∷ update test set rows

  unfoldable pub delete : (Row → Bool) → List Row → List Row
  delete test [] = []
  delete test (r ∷ rows) = let rest = delete test rows in if test r then rest else r ∷ rest

  unfoldable pub append_row : Row → List Row → List Row
  append_row r rows = rows ++ r ∷ []

  -- `LIMIT 1`
  unfoldable pub first : List Row → Option Row
  first [] = none
  first (r ∷ rows) = some r
