-- ===== src/Table/Keys.antt =====
-- Tables with a key, and predicates that hold of every row.
use khronos.Prelude.{
  String, ◌≡◌, refl, Bool, true, false, ◌||◌, ◌&&◌, some, List, [], ◌∷◌, arith, All, ◌==◌, eq_iff,
  Bool-cases, inl, inr, if◌then◌else◌, none, ◌≢◌,
}
use khronos.Table.Defs.{delete, find, exists, count, update, append_row}

module _ {ℓ} {Row : Type ℓ} (p q : Row → Bool) (set : Row → Row) where
  pub exists-update :
      ((r : Row) → p (set r) ≡ p r)
      → (rows : List Row) → exists p (update q set rows) ≡ exists p rows
  unfolding exists update
  exists-update keeps [] = refl
  exists-update keeps (r ∷ rows) = ground (arith, keeps r, exists-update keeps rows)

module _ {ℓ} {Row : Type ℓ} (p : Row → Bool) where
  pub exists-append_row :
      (r : Row) (rows : List Row) → exists p (append_row r rows) ≡ (exists p rows || p r)
  unfolding exists append_row
  exists-append_row r [] = ground arith
  exists-append_row r (x ∷ rows) = ground (arith, exists-append_row r rows)

  pub find-exists : (rows : List Row) {r : Row} → find p rows ≡ some r → exists p rows ≡ true
  unfolding find exists
  find-exists [] h = ground arith
  find-exists (x ∷ rows) {r = y} h = ground (arith, find-exists rows {r = y})

module _ {ℓ κ} {Row : Type ℓ} (P : Row → Type κ) where
  pub All-update :
      (q : Row → Bool) (set : Row → Row)
      → ((r : Row) → q r ≡ true → P r → P (set r))
      → (rows : List Row) → All P rows
      → All P (update q set rows)
  unfolding update
  All-update q set keeps [] h = tt
  All-update q set keeps (r ∷ rows) h = elim (Bool-cases (q r)) [
    | inl e ↦ (rw e (keeps r e h.0), All-update q set keeps rows h.1)
    | inr e ↦ (rw e h.0, All-update q set keeps rows h.1)
  ]

  pub All-append_row : (r : Row) (rows : List Row) → P r → All P rows → All P (append_row r rows)
  unfolding append_row
  All-append_row r [] pr h = (pr, tt)
  All-append_row r (x ∷ rows) pr h = (h.0, All-append_row r rows pr h.1)

module _ {ℓ κ} {Row : Type ℓ} (P Q : Row → Type κ) where
  pub All-mono : ((r : Row) → P r → Q r) → (rows : List Row) → All P rows → All Q rows
  All-mono f [] h = tt
  All-mono f (r ∷ rows) h = (f r h.0, All-mono f rows h.1)

module _ {ℓ} {Row : Type ℓ} (key : Row → String) where
  abbrev pub keyed : String → Row → Bool
  keyed k r = key r == k

  -- no two rows have one key
  abbrev pub HasKey : List Row → Type 0
  HasKey [] = Unit
  HasKey (r ∷ rows) = (exists (keyed (key r)) rows ≡ false) × HasKey rows

  pub HasKey-append_row :
      (r : Row) (rows : List Row)
      → exists (keyed (key r)) rows ≡ false
      → HasKey rows
      → HasKey (append_row r rows)
  unfolding append_row exists
  HasKey-append_row r [] new h = (refl, tt)
  HasKey-append_row r (x ∷ rows) new h = (
    rw (exists-append_row (keyed (key x)) r rows)
        (ground (arith, h.0, eq_iff (key x) (key r), eq_iff (key r) (key x))),
    HasKey-append_row r rows (ground arith) h.1,
  )

  pub HasKey-update :
      (q : Row → Bool) (set : Row → Row)
      → ((r : Row) → key (set r) ≡ key r)
      → (rows : List Row) → HasKey rows
      → HasKey (update q set rows)
  unfolding update exists
  HasKey-update q set keeps [] h = tt
  HasKey-update q set keeps (r ∷ rows) h = (
    ground (arith, h.0, keeps r, exists-update (keyed (key r)) q set (λ x. rw (keeps x)) rows),
    HasKey-update q set keeps rows h.1,
  )

  count-keyed_unmatched :
      (k : String) (t : Row → Bool) (rows : List Row)
      → exists (keyed k) rows ≡ false
      → count (λ r. keyed k r && t r) rows ≡ 0
  unfolding exists count
  count-keyed_unmatched k t [] h = refl
  count-keyed_unmatched k t (r ∷ rows) h = ground (arith, count-keyed_unmatched k t rows)

  find-delete_unmatched :
      (k : String) (t : Row → Bool) (rows : List Row)
      → exists (keyed k) rows ≡ false
      → find (keyed k) (delete (λ r. keyed k r && t r) rows) ≡ none
  unfolding exists find delete
  find-delete_unmatched k t [] h = refl
  find-delete_unmatched k t (r ∷ rows) h = ground (arith, find-delete_unmatched k t rows)

  -- under a key, the rows that meet a test of one key are counted by the row found
  pub count-keyed :
      (k : String) (t : Row → Bool) (rows : List Row) {r : Row}
      → HasKey rows
      → find (keyed k) rows ≡ some r
      → count (λ r. keyed k r && t r) rows ≡ (if t r then 1 else 0)
  unfolding find count
  count-keyed k t [] h e = ground arith
  count-keyed k t (x ∷ rows) {r = y} h e = elim (Bool-cases (keyed k x)) [
    | inl same ↦ ground (arith, eq_iff (key x) k, count-keyed_unmatched k t rows, h.0)
    | inr other ↦ ground (arith, count-keyed k t rows {r = y} h.1)
  ]

  pub count-keyed-none :
      (k : String) (t : Row → Bool) (rows : List Row)
      → find (keyed k) rows ≡ none
      → count (λ r. keyed k r && t r) rows ≡ 0
  unfolding find count
  count-keyed-none k t [] e = refl
  count-keyed-none k t (r ∷ rows) e = ground (arith, count-keyed-none k t rows)

  -- under a key, deleting the rows of one key that meet a test deletes the row found, or nothing of the key
  pub find-delete-keyed :
      (k : String) (t : Row → Bool) (rows : List Row) {r : Row}
      → HasKey rows
      → find (keyed k) rows ≡ some r
      → find (keyed k) (delete (λ r. keyed k r && t r) rows) ≡ (if t r then none else some r)
  unfolding find delete
  find-delete-keyed k t [] h e = ground arith
  find-delete-keyed k t (x ∷ rows) {r = y} h e = elim (Bool-cases (keyed k x)) [
    | inl same ↦ ground (arith, eq_iff (key x) k, find-delete_unmatched k t rows, h.0)
    | inr other ↦ ground (arith, find-delete-keyed k t rows {r = y} h.1)
  ]

  pub find-delete_ne :
      (j k : String)
      → j ≢ k
      → (rows : List Row) → find (keyed j) (delete (keyed k) rows) ≡ find (keyed j) rows
  unfolding find delete
  find-delete_ne j k ne [] = refl
  find-delete_ne j k ne (r ∷ rows) =
      ground (arith, eq_iff (key r) j, eq_iff (key r) k, find-delete_ne j k ne rows)

  -- an UPDATE of the rows of one key is not seen by a query for another
  pub find-update_ne :
      (j k : String) (t : Row → Bool) (set : Row → Row)
      → ((r : Row) → key (set r) ≡ key r)
      → j ≢ k
      → (rows : List Row)
      → find (keyed j) (update (λ r. keyed k r && t r) set rows) ≡ find (keyed j) rows
  unfolding find update
  find-update_ne j k t set keeps ne [] = refl
  find-update_ne j k t set keeps ne (r ∷ rows) = ground (
    arith,
    keeps r,
    eq_iff (key r) j,
    eq_iff (key r) k,
    eq_iff (key (set r)) j,
    find-update_ne j k t set keeps ne rows,
  )

module _ {ℓ} {Row : Type ℓ} (p q : Row → Bool) where
  pub find-exists_other :
      (rows : List Row) {r : Row} → find q rows ≡ some r → p r ≡ true → exists p rows ≡ true
  unfolding find exists
  find-exists_other [] h k = ground arith
  find-exists_other (x ∷ rows) {r = y} h k = ground (arith, find-exists_other rows {r = y})
