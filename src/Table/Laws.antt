-- ===== src/Table/Laws.antt =====
-- What a statement leaves for a later one to read.
use khronos.Prelude.{
  ◌+◌, ◌≤◌, ◌≡◌, refl, Bool, true, false, none, some, List, [], ◌∷◌, arith, ◌∙◌, ap, if◌then◌else◌,
  length,
}
use mathlib.Core.Option
use khronos.Table.Defs.{select, find, exists, count, update, delete, append_row}

abbrev pub edit {ℓ} : {Row : Type ℓ} → (Row → Bool) → (Row → Row) → Row → Row
edit test set r = if test r then set r else r

module _ {ℓ} {Row : Type ℓ} (p : Row → Bool) where
  pub find-append_row :
      (r : Row) (rows : List Row)
      → find p (append_row r rows)
        ≡ (if exists p rows then find p rows else if p r then some r else none)
  unfolding find append_row exists
  find-append_row r [] = refl
  find-append_row r (x ∷ rows) = ground (arith, find-append_row r rows)

  pub exists-find : (rows : List Row) → exists p rows ≡ false → find p rows ≡ none
  unfolding find exists
  exists-find [] h = refl
  exists-find (x ∷ rows) h = ground (arith, exists-find rows)

  -- the row that a query finds meets its test
  pub find_test : (rows : List Row) {r : Row} → find p rows ≡ some r → p r ≡ true
  unfolding find
  find_test [] h = ground arith
  find_test (x ∷ rows) {r = y} h = ground (arith, find_test rows {r = y})

module _ {ℓ} {Row : Type ℓ} (p q : Row → Bool) (set : Row → Row) where
  -- an UPDATE that does not change what a query tests is seen by it as an edit of the row found
  pub find-update :
      ((r : Row) → p (set r) ≡ p r)
      → (rows : List Row) → find p (update q set rows) ≡ Option.map (edit q set) (find p rows)
  unfolding find update
  find-update keeps [] = refl
  find-update keeps (r ∷ rows) = ground (arith, keeps r, find-update keeps rows)

  pub count-update :
      ((r : Row) → q r ≡ true → p (set r) ≡ p r)
      → (rows : List Row) → count p (update q set rows) ≡ count p rows
  unfolding count update
  count-update keeps [] = refl
  count-update keeps (r ∷ rows) = ground (arith, keeps r, count-update keeps rows)

  pub select-update_none :
      ((r : Row) → q r ≡ true → p r ≡ false)
      → ((r : Row) → q r ≡ true → p (set r) ≡ false)
      → (rows : List Row) → select p (update q set rows) ≡ select p rows
  unfolding select update
  select-update_none before after [] = refl
  select-update_none before after (r ∷ rows) =
      ground (arith, before r, after r, select-update_none before after rows)

module _ {ℓ} {Row : Type ℓ} (q : Row → Bool) (set : Row → Row) where
  pub length-update : (rows : List Row) → length (update q set rows) ≡ length rows
  unfolding update
  length-update [] = refl
  length-update (r ∷ rows) = ground (arith, length-update rows)

  -- an UPDATE that no row meets changes nothing
  pub update-none : (rows : List Row) → exists q rows ≡ false → update q set rows ≡ rows
  unfolding exists update
  update-none [] h = refl
  update-none (r ∷ rows) h = ground (arith, update-none rows)

module _ {ℓ} {Row : Type ℓ} (p : Row → Bool) where
  pub count-le-length : (rows : List Row) → count p rows ≤ length rows
  unfolding count
  count-le-length [] = omega arith
  count-le-length (r ∷ rows) = ground (arith, count-le-length rows)

  pub find-delete : (rows : List Row) → find p (delete p rows) ≡ none
  unfolding find delete
  find-delete [] = refl
  find-delete (r ∷ rows) = ground (arith, find-delete rows)

  pub length-delete : (rows : List Row) → length (delete p rows) + count p rows ≡ length rows
  unfolding delete count
  length-delete [] = omega arith
  length-delete (r ∷ rows) = ground (arith, length-delete rows)

module _ {ℓ} {Row : Type ℓ} (p : Row → Bool) (set : Row → Row) where
  -- an UPDATE of the row that a query finds is what the query finds next
  pub find-update_same :
      ((r : Row) → p (set r) ≡ p r)
      → (rows : List Row) {r : Row} → find p rows ≡ some r
      → find p (update p set rows) ≡ some (set r)
  find-update_same keeps rows {r} e =
      let on : edit p set r ≡ set r = rw (find_test p rows {r = r} e) in
      find-update p p set keeps rows ∙ ap (Option.map (edit p set)) e ∙ ap some on
