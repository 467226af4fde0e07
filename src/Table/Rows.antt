-- ===== src/Table/Rows.antt =====
-- Which rows a SELECT gives, with and without `ORDER BY` and `LIMIT 1`.
use khronos.Prelude.{
  arith, ◌≡◌, refl, sym, Bool, true, false, ◌⊎◌, inl, inr, some, List, [], ◌∷◌, if◌then◌else◌, All,
  Bool-cases, ◌∙◌, ap,
}
use mathlib.Core.Path.{subst}
use khronos.Table.Defs.{exists, find, select, first}
use khronos.Table.Sorting.{insert_sorted, order_by, IsSorted, order_by-IsSorted}

abbrev pub In : {Row : Type 0} → Row → List Row → Type 0
In r [] = ⊥
In r (x ∷ rows) = (x ≡ r) ⊎ In r rows

module _ {Row : Type 0} (P : Row → Type 0) where
  pub All-In : (r : Row) (rows : List Row) → All P rows → In r rows → P r
  All-In r [] h i = absurd i
  All-In r (x ∷ rows) h (inl e) = subst P e h.0
  All-In r (x ∷ rows) h (inr i) = All-In r rows h.1 i

  pub All-intro : (rows : List Row) → ((r : Row) → In r rows → P r) → All P rows
  All-intro [] f = tt
  All-intro (x ∷ rows) f = (f x (inl refl), All-intro rows (λ r i. f r (inr i)))

module _ {Row : Type 0} (p : Row → Bool) where
  kept-In :
      (r x : Row) (rows : List Row)
      → (b : Bool) → In r (if b then x ∷ rows else rows)
      → ((b ≡ true) × (x ≡ r)) ⊎ In r rows
  kept-In r x rows true (inl e) = inl (refl, e)
  kept-In r x rows true (inr i) = inr i
  kept-In r x rows false i = inr i

  pub select-In : (r : Row) (rows : List Row) → In r (select p rows) → In r rows × (p r ≡ true)
  unfolding select
  select-In r [] i = absurd i
  select-In r (x ∷ rows) i = elim (kept-In r x (select p rows) (p x) i) [
    | inl (b, e) ↦ (inl e, subst (λ y. p y ≡ true) e b)
    | inr j ↦ let (k, h) = select-In r rows j in (inr k, h)
  ]

  pub In-select : (r : Row) (rows : List Row) → In r rows → p r ≡ true → In r (select p rows)
  unfolding select
  In-select r [] i h = absurd i
  In-select r (x ∷ rows) (inl e) h = rw (ap p e ∙ h) (inl e)
  In-select r (x ∷ rows) (inr i) h = elim (Bool-cases (p x)) [
    | inl b ↦ rw b (inr (In-select r rows i h))
    | inr b ↦ rw b (In-select r rows i h)
  ]

module _ {Row : Type 0} (le : Row → Row → Bool) where
  either-In : (r : Row) (b : Bool) (A B : List Row) → In r (if b then A else B) → In r A ⊎ In r B
  either-In r true A B i = inl i
  either-In r false A B i = inr i

  insert_sorted-In :
      (r x : Row) (rows : List Row) → In r (insert_sorted le x rows) → In r (x ∷ rows)
  unfolding insert_sorted
  insert_sorted-In r x [] i = i
  insert_sorted-In r x (y ∷ rows) i =
      elim (either-In r (le x y) (x ∷ y ∷ rows) (y ∷ insert_sorted le x rows) i) [
        | inl j ↦ j
        | inr (inl e) ↦ inr (inl e)
        | inr (inr j) ↦ elim (insert_sorted-In r x rows j) [ inl e ↦ inl e | inr k ↦ inr (inr k) ]
      ]

  In-insert_sorted :
      (r x : Row) (rows : List Row) → In r (x ∷ rows) → In r (insert_sorted le x rows)
  unfolding insert_sorted
  In-insert_sorted r x [] i = i
  In-insert_sorted r x (y ∷ rows) i = elim (Bool-cases (le x y)) [
    | inl b ↦ rw b i
    | inr b ↦ rw b (elim i [
      | inl e ↦ inr (In-insert_sorted r x rows (inl e))
      | inr (inl e) ↦ inl e
      | inr (inr j) ↦ inr (In-insert_sorted r x rows (inr j))
    ])
  ]

  pub order_by-In : (r : Row) (rows : List Row) → In r (order_by le rows) → In r rows
  unfolding order_by
  order_by-In r [] i = i
  order_by-In r (x ∷ rows) i = elim (insert_sorted-In r x (order_by le rows) i) [
    | inl e ↦ inl e
    | inr j ↦ inr (order_by-In r rows j)
  ]

  pub In-order_by : (r : Row) (rows : List Row) → In r rows → In r (order_by le rows)
  unfolding order_by
  In-order_by r [] i = i
  In-order_by r (x ∷ rows) (inl e) = In-insert_sorted r x (order_by le rows) (inl e)
  In-order_by r (x ∷ rows) (inr i) =
      In-insert_sorted r x (order_by le rows) (inr (In-order_by r rows i))

module _ {Row : Type 0} (le : Row → Row → Bool)
    (total : (a b : Row) → le a b ≡ false → le b a ≡ true)
    (trans : (a b c : Row) → le a b ≡ true → le b c ≡ true → le a c ≡ true) (p : Row → Bool) where
  le_refl : (r : Row) → le r r ≡ true
  le_refl r = elim (Bool-cases (le r r)) [ inl e ↦ e | inr e ↦ total r r e ]

  head_least :
      (rows : List Row) {r : Row}
      → first rows ≡ some r
      → IsSorted le rows
      → In r rows × ((y : Row) → In y rows → le r y ≡ true)
  unfolding first
  head_least [] e h = cc
  head_least (x ∷ rows) {r} e h =
      let same : x ≡ r = cc in
      (
        inl same,
        λ y i. elim i [
          | inl k ↦ rw (sym same ∙ k) (le_refl y)
          | inr j ↦ subst (λ z. le z y ≡ true) same (All-In (λ z. le x z ≡ true) y rows h.0 j)
        ],
      )

  -- the first row of an ordered SELECT: one that is selected, and none that is selected comes before it
  pub first-order_by_least :
      (rows : List Row) {r : Row}
      → first (order_by le (select p rows)) ≡ some r
      → In r rows × (p r ≡ true) × ((y : Row) → In y rows → p y ≡ true → le r y ≡ true)
  first-order_by_least rows {r} e =
      let (i, least) =
        head_least (order_by le (select p rows)) {r = r} e
          (order_by-IsSorted le total trans (select p rows)) in
      let (j, h) = select-In p r rows (order_by-In le r (select p rows) i) in
      (j, h, λ y k q. least y (In-order_by le y (select p rows) (In-select p y rows k q)))

module _ {Row : Type 0} (p : Row → Bool) where
  pub exists-false :
      (rows : List Row) → ((r : Row) → In r rows → p r ≡ false) → exists p rows ≡ false
  unfolding exists
  exists-false [] f = refl
  exists-false (r ∷ rows) f =
      let here = f r (inl refl) in
      let rest = exists-false rows (λ y i. f y (inr i)) in rw (here, rest)

module _ {Row : Type 0} (P : Row → Type 0) (p : Row → Bool) where
  -- what holds of every row holds of the row found
  pub All-find : (rows : List Row) {r : Row} → All P rows → find p rows ≡ some r → P r
  unfolding find
  All-find [] h e = ground arith
  All-find (x ∷ rows) {r = y} h e = elim (Bool-cases (p x)) [
    | inl on ↦ let same : x ≡ y = ground arith in subst P same h.0
    | inr off ↦ All-find rows {r = y} h.1 (ground arith)
  ]
