-- ===== src/Prelude/Assoc.antt =====
-- A dictionary as an association list in insertion order.
use mathlib.Core.Path.{◌≡◌, refl}
use mathlib.Core.List.{List, [], ◌∷◌}
use mathlib.Core.Option.{Option, none, some}
use native.Mathlib.Omega.{arith}
use mathlib.Core.Bool.{Bool, true, false}
use mathlib.Core.Logic.{inl, inr}
use Prim.Native.String.{String}
use lit_grove.Prelude.Tests.{if◌then◌else◌, Bool-cases}
use lit_grove.Prelude.Lists.{every}
use lit_grove.Prelude.Equality.{Eq, ◌==◌, string_eq, eq_of_beq}

module _ {ℓ κ} {K : Type ℓ} {V : Type κ} ⦃e : Eq K⦄ where
  -- `d.get(k)`
  unfoldable pub lookup : K → List (K × V) → Option V
  lookup k [] = none
  lookup k ((j, v) ∷ d) = let rest = lookup k d in if j == k then some v else rest

  -- `d[k] = v`
  unfoldable pub insert : K → V → List (K × V) → List (K × V)
  insert k v [] = (k, v) ∷ []
  insert k v ((j, w) ∷ d) = let rest = insert k v d in if j == k then (j, v) ∷ d else (j, w) ∷ rest

  pub lookup-insert :
      (k j : K) (v : V) (d : List (K × V))
      → lookup j (insert k v d) ≡ (if k == j then some v else lookup j d)
  unfolding lookup insert
  lookup-insert k j v [] = refl
  lookup-insert k j v ((i, w) ∷ d) =
      ground (arith, lookup-insert k j v d, e.beq_iff k j, e.beq_iff i k, e.beq_iff i j)

module _ {A : Type 0} where
  -- What holds of each entry holds of the one that is looked up.
  pub every-lookup :
      (p : String × A → Bool) (d : List (String × A)) (k : String) (a : A)
      → every p d ≡ true
      → lookup k d ≡ some a
      → p (k, a) ≡ true
  unfolding lookup
  every-lookup p [] k a h e = cc
  every-lookup p ((j, b) ∷ d) k a h e = elim (Bool-cases (j == k)) [
    | inl same ↦ here (eq_of_beq j k same) (now same) (first (p (j, b)) _ h)
    | inr other ↦ every-lookup p d k a (rest (p (j, b)) _ h) (later other)
  ]
    where
      first : (b c : Bool) → (if b then c else false) ≡ true → b ≡ true
      first true c q = refl
      first false c q = cc

      rest : (b c : Bool) → (if b then c else false) ≡ true → c ≡ true
      rest true c q = q
      rest false c q = cc

      now : (j == k) ≡ true → b ≡ a
      now same = ground arith

      later : (j == k) ≡ false → lookup k d ≡ some a
      later other = ground arith

      here : j ≡ k → b ≡ a → p (j, b) ≡ true → p (k, a) ≡ true
      here q r t = cc
