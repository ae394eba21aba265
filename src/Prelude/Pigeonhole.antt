-- ===== src/Prelude/Pigeonhole.antt =====
-- A list without repetitions is no longer than a list that holds all its items.
use Prim.Native.Nat.{suc, ◌≤◌}
use mathlib.Core.Path.{◌≡◌, refl}
use mathlib.Core.Bool.{true, false}
use mathlib.Core.List.{List, [], ◌∷◌}
use native.Mathlib.Omega.{arith}
use lit_grove.Prelude.Lists.{length}
use lit_grove.Prelude.Equality.{Eq, contains, Distinct, is_subset}

module _ {ℓ} {A : Type ℓ} ⦃e : Eq A⦄ where
  remove : A → List A → List A
  remove a [] = []
  remove a (x ∷ xs) = elim (e.beq x a) [ true ↦ xs | false ↦ x ∷ remove a xs ]

  length-remove :
      (a : A) (xs : List A) → contains xs a ≡ true → suc (length (remove a xs)) ≡ length xs
  unfolding remove
  length-remove a [] h = cc
  length-remove a (x ∷ xs) h = ground (arith, length-remove a xs)

  contains-remove :
      (a b : A) (xs : List A)
      → e.beq b a ≡ false
      → contains xs b ≡ true
      → contains (remove a xs) b ≡ true
  unfolding remove
  contains-remove a b [] h m = cc
  contains-remove a b (x ∷ xs) h m =
      ground (arith, contains-remove a b xs, e.beq_iff x a, e.beq_iff x b, e.beq_iff b a)

  is_subset-remove :
      (a : A) (xs ys : List A)
      → contains xs a ≡ false
      → is_subset xs ys ≡ true
      → is_subset xs (remove a ys) ≡ true
  is_subset-remove a [] ys h s = refl
  is_subset-remove a (x ∷ xs) ys h s =
      ground (arith, contains-remove a x ys, is_subset-remove a xs ys)

  pub length-le-of_subset :
      (xs ys : List A) → Distinct xs → is_subset xs ys ≡ true → length xs ≤ length ys
  length-le-of_subset [] ys d s = omega arith
  length-le-of_subset (x ∷ xs) ys d s =
      ground
        (arith, length-remove x ys, is_subset-remove x xs ys, length-le-of_subset xs (remove x ys))
