-- ===== src/Table/Closing.antt =====
-- An UPDATE after which its rows no longer meet a test.
use khronos.Prelude.{
  ◌≡◌, refl, ◌≤◌, ◌<◌, Bool, true, false, some, All, List, [], ◌∷◌, arith, Bool-cases, inl, inr,
}
use khronos.Table.Defs.{find, count, update}
use khronos.Table.Keys.{find-exists_other}
use khronos.Table.Quantifiers.{count-exists, All-count}

module _ {ℓ} {Row : Type ℓ} (q : Row → Bool) where
  pub update-update :
      (set after : Row → Row)
      → ((r : Row) → q (set r) ≡ q r)
      → (rows : List Row) → update q after (update q set rows) ≡ update q (λ r. after (set r)) rows
  unfolding update
  update-update set after keeps [] = refl
  update-update set after keeps (r ∷ rows) =
      ground (arith, keeps r, update-update set after keeps rows)

module _ {ℓ} {Row : Type ℓ} (p q : Row → Bool) (set : Row → Row)
    (off : (r : Row) → p (set r) ≡ false) where
  count-update_le : (rows : List Row) → count p (update q set rows) ≤ count p rows
  unfolding count update
  count-update_le [] = omega arith
  count-update_le (r ∷ rows) = ground (arith, off r, count-update_le rows)

  -- if the first of the rows met the test, there are fewer that do
  pub count-update_lt :
      (rows : List Row) {r : Row}
      → find q rows ≡ some r
      → p r ≡ true
      → count p (update q set rows) < count p rows
  unfolding count update find
  count-update_lt [] f h = ground arith
  count-update_lt (x ∷ rows) {r} f h = elim (Bool-cases (q x)) [
    | inl on ↦
        let same : x ≡ r = ground arith in
        let met : p x ≡ true = rw (same, h) refl in ground (arith, off x, count-update_le rows)
    | inr on ↦ ground (arith, count-update_lt rows {r = r})
  ]

module _ {ℓ κ} {Row : Type ℓ} (P : Row → Type κ) (p q : Row → Bool) where
  -- where at most one row meets the test, and the query finds one that does, every other fails it
  pub All-count_le_1 :
      ((r : Row) → p r ≡ false → P r)
      → ((r : Row) → q r ≡ true → P r)
      → (rows : List Row) {r : Row} → find q rows ≡ some r
      → p r ≡ true
      → count p rows ≤ 1
      → All P rows
  unfolding count find
  All-count_le_1 on self [] f h one = tt
  All-count_le_1 on self (x ∷ rows) {r} f h one = elim (Bool-cases (q x)) [
    | inl e ↦
        let same : x ≡ r = ground arith in
        let met : p x ≡ true = rw (same, h) refl in (self x e, All-count P p on rows (ground arith))
    | inr e ↦
        let rest : find q rows ≡ some r = ground arith in
        let more = find-exists_other p q rows {r = r} rest h in
        let some_open = count-exists p rows in
        (on x (ground arith), All-count_le_1 on self rows {r = r} rest h (ground arith))
  ]
