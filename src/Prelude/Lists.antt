-- ===== src/Prelude/Lists.antt =====
-- Lists measured by native numbers, and predicates on them.
use Prim.Native.Nat.{ℕ, zero, suc, ◌+◌}
use mathlib.Core.Path.{◌≡◌, refl, sym, ap, ◌∙◌}
use mathlib.Core.Logic.{◌↔◌}
use mathlib.Core.Bool.{Bool, true, false}
use mathlib.Core.List.{List, [], ◌∷◌, ◌++◌, Memᴰ, flat_map}
use mathlib.Core.Option.{Option, none, some}
use native.Mathlib.Omega.{arith}
use lit_grove.Prelude.Tests.{if◌then◌else◌}

module _ {ℓ} {A : Type ℓ} where
  abbrev pub length : List A → ℕ
  length [] = 0
  length (x ∷ xs) = suc (length xs)

  -- `xs[-1]`, where there is one.
  abbrev pub get_last? : List A → Option A
  get_last? [] = none
  get_last? (x ∷ []) = some x
  get_last? (x ∷ y ∷ ys) = get_last? (y ∷ ys)

  -- `xs[n]`, or `d` past the end.
  abbrev pub item_at : List A → A → ℕ → A
  item_at [] d n = d
  item_at (x ∷ xs) d zero = x
  item_at (x ∷ xs) d (suc n) = item_at xs d n

  -- `[x for x in xs if p(x)]`
  abbrev pub select : (A → Bool) → List A → List A
  select p [] = []
  select p (x ∷ xs) = let rest = select p xs in if p x then x ∷ rest else rest

  -- `next((x for x in xs if p(x)), None)`
  abbrev pub find : (A → Bool) → List A → Option A
  find p [] = none
  find p (x ∷ xs) = let rest = find p xs in if p x then some x else rest

  abbrev pub any : (A → Bool) → List A → Bool
  any p [] = false
  any p (x ∷ xs) = let rest = any p xs in if p x then true else rest

  abbrev pub every : (A → Bool) → List A → Bool
  every p [] = true
  every p (x ∷ xs) = let rest = every p xs in if p x then rest else false

  abbrev pub All {κ} : (A → Type κ) → List A → Type κ
  All P [] = Unit
  All P (x ∷ xs) = P x × All P xs

  abbrev pub Pairwise {κ} : (A → A → Type κ) → List A → Type κ
  Pairwise R [] = Unit
  Pairwise R (x ∷ xs) = All (R x) xs × Pairwise R xs

  pub All-map {κ μ} :
      {P : A → Type κ} {Q : A → Type μ} (xs : List A) → ((x : A) → P x → Q x) → All P xs → All Q xs
  All-map [] f h = tt
  All-map (x ∷ xs) f h = (f x h.0, All-map xs f h.1)

  pub Pairwise-map {κ μ} :
      {R : A → A → Type κ} {S : A → A → Type μ} (xs : List A)
      → ((x y : A) → R x y → S x y)
      → Pairwise R xs
      → Pairwise S xs
  Pairwise-map [] f h = tt
  Pairwise-map (x ∷ xs) f h = (All-map xs (f x) h.0, Pairwise-map xs f h.1)

  pub All-both {κ μ ν} :
      {P : A → Type κ} {Q : A → Type μ} {S : A → Type ν} (xs : List A)
      → ((x : A) → P x → Q x → S x)
      → All P xs
      → All Q xs
      → All S xs
  All-both [] f h k = tt
  All-both (x ∷ xs) f h k = (f x h.0 k.0, All-both xs f h.1 k.1)

  pub All-append {κ} : (P : A → Type κ) (xs ys : List A) → All P (xs ++ ys) ↔ (All P xs × All P ys)
  All-append P [] ys = (λ h. (tt, h), λ h. h.1)
  All-append P (x ∷ xs) ys =
      let again = All-append P xs ys in
      (λ h. (let (a, b) = again.0 h.1 in ((h.0, a), b)), λ h. (h.0.0, again.1 (h.0.1, h.1)))

  pub length-append : (xs ys : List A) → length (xs ++ ys) ≡ length xs + length ys
  length-append [] ys = omega arith
  length-append (x ∷ xs) ys = omega (arith, length-append xs ys)

  pub append-eq-nil : (xs ys : List A) → xs ++ ys ≡ [] → (xs ≡ []) × (ys ≡ [])
  append-eq-nil [] ys h = (refl, h)
  append-eq-nil (x ∷ xs) ys h = cc

  pub append_nil : (xs : List A) → xs ++ [] ≡ xs
  append_nil [] = refl
  append_nil (x ∷ xs) = ap (λ r. x ∷ r) (append_nil xs)

  pub append-empty : (xs ys : List A) → (xs ++ ys ≡ []) ↔ ((xs ≡ []) × (ys ≡ []))
  append-empty [] ys = (λ h. (refl, h), λ h. h.1)
  append-empty (x ∷ xs) ys = (λ h. cc, λ h. cc)

  pub any-Memᴰ : (p : A → Bool) (xs : List A) → any p xs ≡ true → (x : A) × Memᴰ x xs × (p x ≡ true)
  any-Memᴰ p [] h = cc
  any-Memᴰ p (x ∷ xs) h = go (p x) refl h (any-Memᴰ p xs)
    where
      go :
          (b : Bool)
          → p x ≡ b
          → (if b then true else any p xs) ≡ true
          → (any p xs ≡ true → (y : A) × Memᴰ y xs × (p y ≡ true))
          → (y : A) × Memᴰ y (x ∷ xs) × (p y ≡ true)
      go true e q again = (x, Memᴰ.head refl, e)
      go false e q again = let (y, m, h) = again q in (y, Memᴰ.tail m, h)

  pub Memᴰ-any : (p : A → Bool) (xs : List A) (x : A) → Memᴰ x xs → p x ≡ true → any p xs ≡ true
  Memᴰ-any p [] x m h = elim m [ ]
  Memᴰ-any p (y ∷ ys) x (Memᴰ.head e) h = rw (sym (ap p e) ∙ h)
  Memᴰ-any p (y ∷ ys) x (Memᴰ.tail m) h = ground (arith, Memᴰ-any p ys x m h)

pub flat_map-eq-nil {ℓ κ} :
    {A : Type ℓ} {B : Type κ} (f : A → List B) (xs : List A)
    → (flat_map f xs ≡ []) ↔ All (λ (x : A). f x ≡ []) xs
unfolding mathlib.Core.List.flat_map
flat_map-eq-nil f [] = (λ h. tt, λ h. refl)
flat_map-eq-nil f (x ∷ xs) =
    let again = flat_map-eq-nil f xs in
    (
      λ h. (let (a, b) = append-eq-nil (f x) (flat_map f xs) h in (a, again.0 b)),
      λ h. ap (λ ys. ys ++ flat_map f xs) h.0 ∙ again.1 h.1,
    )
