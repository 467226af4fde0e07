-- ===== src/Prelude/Texts.antt =====
-- The order of texts is total and transitive.
use Prim.Native.Nat.{ℕ, compare as compare_nat, Ordering}
use Prim.Native.Char.{Char, code}
use Prim.Native.String.compare
use Prim.Native.String.{String, [], ◌∷◌, then, compare}
use mathlib.Core.Path.{◌≡◌, refl, sym, ap, ◌∙◌}
use mathlib.Core.Bool.{Bool, true, false, ◌&&◌, ◌||◌, false≢true}
use native.Mathlib.Omega.{arith}
use khronos.Prelude.Tests.{text_leb, ltb, eqb}

abbrev not_after : Ordering → Bool
not_after o = elim o [ Ordering.gt ↦ false | _ ↦ true ]

abbrev before : Ordering → Bool
before o = elim o [ Ordering.lt ↦ true | _ ↦ false ]

abbrev alike : Ordering → Bool
alike o = elim o [ Ordering.eq ↦ true | _ ↦ false ]

not_after-then : (o r : Ordering) → not_after (then o r) ≡ (before o || (alike o && not_after r))
not_after-then Ordering.lt r = refl
not_after-then Ordering.eq r = refl
not_after-then Ordering.gt r = refl

text_leb-cons :
    (c d : Char) (s t : String)
    → text_leb (c ∷ s) (d ∷ t) ≡ (ltb (code c) (code d) || (eqb (code c) (code d) && text_leb s t))
text_leb-cons c d s t =
    ap not_after (compare.cons-cons c d s t)
    ∙ not_after-then (compare_nat (code c) (code d)) (compare s t)

text_leb-nil : (t : String) → text_leb [] t ≡ true
text_leb-nil [] = ap not_after compare.nil-nil
text_leb-nil (d ∷ t) = ap not_after (compare.nil-cons d t)

text_leb-cons-nil : (c : Char) (s : String) → text_leb (c ∷ s) [] ≡ false
text_leb-cons-nil c s = ap not_after (compare.cons-nil c s)

pub text_leb_total : (a b : String) → text_leb a b ≡ false → text_leb b a ≡ true
text_leb_total [] t h = absurd (false≢true (sym h ∙ text_leb-nil t))
text_leb_total (c ∷ s) [] h = text_leb-nil (c ∷ s)
text_leb_total (c ∷ s) (d ∷ t) h =
    text_leb-cons d c t s
    ∙ later_total (code c) (code d) (text_leb s t) (text_leb t s) (text_leb_total s t)
        (sym (text_leb-cons c d s t) ∙ h)
  where
    later_total :
        (m n : ℕ) (p q : Bool)
        → (p ≡ false → q ≡ true)
        → (ltb m n || (eqb m n && p)) ≡ false
        → (ltb n m || (eqb n m && q)) ≡ true
    later_total m n p q f g = ground (arith, f)

pub text_leb_trans :
    (a b c : String) → text_leb a b ≡ true → text_leb b c ≡ true → text_leb a c ≡ true
text_leb_trans [] b c h k = text_leb-nil c
text_leb_trans (c ∷ s) [] u h k = absurd (false≢true (sym (text_leb-cons-nil c s) ∙ h))
text_leb_trans (c ∷ s) (d ∷ t) [] h k = absurd (false≢true (sym (text_leb-cons-nil d t) ∙ k))
text_leb_trans (c ∷ s) (d ∷ t) (e ∷ u) h k =
    text_leb-cons c e s u
    ∙ later_trans (code c) (code d) (code e) (text_leb s t) (text_leb t u) (text_leb s u)
        (text_leb_trans s t u) (sym (text_leb-cons c d s t) ∙ h) (sym (text_leb-cons d e t u) ∙ k)
  where
    later_trans :
        (l m n : ℕ) (p q r : Bool)
        → (p ≡ true → q ≡ true → r ≡ true)
        → (ltb l m || (eqb l m && p)) ≡ true
        → (ltb m n || (eqb m n && q)) ≡ true
        → (ltb l n || (eqb l n && r)) ≡ true
    later_trans l m n p q r f g h = ground (arith, f)
