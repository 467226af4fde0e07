-- ===== src/Table/Deletion.antt =====
-- DELETE in a table with a key.
use khronos.Prelude.{String, ◌≡◌, refl, Bool, false, List, [], ◌∷◌, arith, Bool-cases, inl, inr}
use khronos.Table.Defs.{exists, delete}
use khronos.Table.Keys.{keyed, HasKey}

module _ {ℓ} {Row : Type ℓ} (p q : Row → Bool) where
  pub exists-delete : (rows : List Row) → exists p rows ≡ false → exists p (delete q rows) ≡ false
  unfolding exists delete
  exists-delete [] h = refl
  exists-delete (r ∷ rows) h = ground (arith, exists-delete rows)

module _ {ℓ} {Row : Type ℓ} (key : Row → String) where
  pub HasKey-delete :
      (q : Row → Bool) (rows : List Row) → HasKey key rows → HasKey key (delete q rows)
  unfolding delete
  HasKey-delete q [] h = tt
  HasKey-delete q (r ∷ rows) h = elim (Bool-cases (q r)) [
    | inl e ↦ rw e (HasKey-delete q rows h.1)
    | inr e ↦ rw e (exists-delete (keyed key (key r)) q rows h.0, HasKey-delete q rows h.1)
  ]
