-- ===== src/Prelude/Unique.antt =====
-- Keeping the first item for each key, as a loop with a set `seen` does it.
use mathlib.Core.Path.{◌≡◌, refl}
use mathlib.Core.Logic.{◌↔◌}
use mathlib.Core.Bool.{true, false, ◌||◌}
use mathlib.Core.List.{List, [], ◌∷◌, map, Memᴰ}
use lit_grove.Prelude.Lists.{All, All-map}
use native.Mathlib.Omega.{arith}
use lit_grove.Prelude.Equality.{Eq, contains, Distinct}

module _ {ℓ κ} {A : Type ℓ} {K : Type κ} ⦃e : Eq K⦄ (key : A → K) where
  unfoldable pub unique_from : List K → List A → List A
  unique_from seen [] = []
  unique_from seen (x ∷ xs) = elim (contains seen (key x)) [
    | true ↦ unique_from seen xs
    | false ↦ x ∷ unique_from (key x ∷ seen) xs
  ]

  unique_from_covers :
      (seen : List K) (xs : List A) (k : K)
      → (contains seen k || contains (map key (unique_from seen xs)) k)
        ≡ (contains seen k || contains (map key xs) k)
  unfolding unique_from
  unique_from_covers seen [] k = refl
  unique_from_covers seen (x ∷ xs) k = ground (
    arith,
    unique_from_covers seen xs k,
    unique_from_covers (key x ∷ seen) xs k,
    e.beq_iff (key x) k,
  )

  unique_from_fresh :
      (seen : List K) (xs : List A) (k : K)
      → contains seen k ≡ true
      → contains (map key (unique_from seen xs)) k ≡ false
  unfolding unique_from
  unique_from_fresh seen [] k h = refl
  unique_from_fresh seen (x ∷ xs) k h = ground (
    arith,
    unique_from_fresh seen xs k,
    unique_from_fresh (key x ∷ seen) xs k,
    e.beq_iff (key x) k,
  )

  unique_from-Distinct : (seen : List K) (xs : List A) → Distinct (map key (unique_from seen xs))
  unfolding unique_from
  unique_from-Distinct seen [] = tt
  unique_from-Distinct seen (x ∷ xs) = ground (
    arith,
    unique_from-Distinct seen xs,
    unique_from-Distinct (key x ∷ seen) xs,
    unique_from_fresh (key x ∷ seen) xs (key x),
    e.beq_iff (key x) (key x),
  )

  pub unique_keys :
      (xs : List A)
      → Distinct (map key (unique_from [] xs))
        × ((k : K) → contains (map key (unique_from [] xs)) k ≡ contains (map key xs) k)
  unique_keys xs = (unique_from-Distinct [] xs, λ k. unique_from_covers [] xs k)

  pub unique_from-All_Memᴰ :
      (seen : List K) (xs : List A) → All (λ (x : A). Memᴰ x xs) (unique_from seen xs)
  unfolding unique_from
  unique_from-All_Memᴰ seen [] = tt
  unique_from-All_Memᴰ seen (x ∷ xs) =
      elim (contains seen (key x))
        as (λ b.
          All (λ (y : A). Memᴰ y (x ∷ xs))
            (elim b as (λ _. List A) [
              | true ↦ unique_from seen xs
              | false ↦ x ∷ unique_from (key x ∷ seen) xs
            ])) [
              | true ↦
                  All-map (unique_from seen xs) (λ y m. Memᴰ.tail m) (unique_from-All_Memᴰ seen xs)
              | false ↦ (
                Memᴰ.head refl,
                All-map (unique_from (key x ∷ seen) xs) (λ y m. Memᴰ.tail m)
                    (unique_from-All_Memᴰ (key x ∷ seen) xs),
              )
            ]

  pub unique-eq-nil : (xs : List A) → (unique_from [] xs ≡ []) ↔ (xs ≡ [])
  unfolding unique_from
  unique-eq-nil [] = (λ h. h, λ h. h)
  unique-eq-nil (x ∷ xs) = (λ h. cc, λ h. cc)
