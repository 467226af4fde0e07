-- ===== src/Table/Sorting.antt =====
-- `ORDER BY`: rows with equal keys keep the order of the table.
use khronos.Prelude.{
  ◌≡◌, refl, Bool, true, false, List, [], ◌∷◌, arith, if◌then◌else◌, All, Bool-cases, inl, inr,
}
use khronos.Table.Defs.{count}

module _ {ℓ} {Row : Type ℓ} (le : Row → Row → Bool) where
  unfoldable pub insert_sorted : Row → List Row → List Row
  insert_sorted r [] = r ∷ []
  insert_sorted r (x ∷ rows) =
      let rest = insert_sorted r rows in if le r x then r ∷ x ∷ rows else x ∷ rest

  unfoldable pub order_by : List Row → List Row
  unfolding insert_sorted
  order_by [] = []
  order_by (r ∷ rows) = insert_sorted r (order_by rows)

  abbrev pub IsSorted : List Row → Type 0
  IsSorted [] = Unit
  IsSorted (r ∷ rows) = All (λ x. le r x ≡ true) rows × IsSorted rows

module _ {ℓ} {Row : Type ℓ} (le : Row → Row → Bool) (p : Row → Bool) where
  count-insert_sorted :
      (r : Row) (rows : List Row) → count p (insert_sorted le r rows) ≡ count p (r ∷ rows)
  unfolding insert_sorted count
  count-insert_sorted r [] = refl
  count-insert_sorted r (x ∷ rows) = ground (arith, count-insert_sorted r rows)

  -- sorting neither drops nor adds a row
  pub count-order_by : (rows : List Row) → count p (order_by le rows) ≡ count p rows
  unfolding count order_by
  count-order_by [] = refl
  count-order_by (r ∷ rows) =
      ground (arith, count-order_by rows, count-insert_sorted r (order_by le rows))

module _ {ℓ} {Row : Type ℓ} (le : Row → Row → Bool) (P : Row → Type 0) where
  All-insert_sorted :
      (r : Row) (rows : List Row) → P r → All P rows → All P (insert_sorted le r rows)
  unfolding insert_sorted
  All-insert_sorted r [] pr h = (pr, tt)
  All-insert_sorted r (x ∷ rows) pr h = elim (Bool-cases (le r x)) [
    | inl e ↦ rw e (pr, h)
    | inr e ↦ rw e (h.0, All-insert_sorted r rows pr h.1)
  ]

  pub All-order_by : (rows : List Row) → All P rows → All P (order_by le rows)
  unfolding order_by
  All-order_by [] h = tt
  All-order_by (r ∷ rows) h = All-insert_sorted r (order_by le rows) h.0 (All-order_by rows h.1)

module _ {ℓ} {Row : Type ℓ} (le : Row → Row → Bool)
    (total : (a b : Row) → le a b ≡ false → le b a ≡ true)
    (trans : (a b c : Row) → le a b ≡ true → le b c ≡ true → le a c ≡ true) where
  below_trans :
      (r x : Row) (rows : List Row)
      → le r x ≡ true
      → All (λ y. le x y ≡ true) rows
      → All (λ y. le r y ≡ true) rows
  below_trans r x [] h all = tt
  below_trans r x (y ∷ rows) h all = (trans r x y h all.0, below_trans r x rows h all.1)

  insert_sorted-IsSorted :
      (r : Row) (rows : List Row) → IsSorted le rows → IsSorted le (insert_sorted le r rows)
  unfolding insert_sorted
  insert_sorted-IsSorted r [] h = (tt, tt)
  insert_sorted-IsSorted r (x ∷ rows) h = elim (Bool-cases (le r x)) [
    | inl e ↦ rw e ((e, below_trans r x rows e h.0), h)
    | inr e ↦ rw e (
      All-insert_sorted le (λ y. le x y ≡ true) r rows (total r x e) h.0,
      insert_sorted-IsSorted r rows h.1,
    )
  ]

  -- under a total order the result is sorted
  pub order_by-IsSorted : (rows : List Row) → IsSorted le (order_by le rows)
  unfolding order_by
  order_by-IsSorted [] = tt
  order_by-IsSorted (r ∷ rows) =
      insert_sorted-IsSorted r (order_by le rows) (order_by-IsSorted rows)
