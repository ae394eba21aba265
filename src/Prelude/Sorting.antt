-- ===== src/Prelude/Sorting.antt =====
-- `sorted`: a stable insertion sort under a Boolean order.
use mathlib.Core.Path.{◌≡◌, refl}
use mathlib.Core.Bool.{Bool, true, false}
use mathlib.Core.List.{List, [], ◌∷◌}
use lit_grove.Prelude.Lists.{All, All-map, Pairwise}

module _ {ℓ} {A : Type ℓ} (le : A → A → Bool) where
  abbrev pub insert_by : A → List A → List A
  insert_by a [] = a ∷ []
  insert_by a (x ∷ xs) = elim (le a x) [ true ↦ a ∷ x ∷ xs | false ↦ x ∷ insert_by a xs ]

  abbrev pub sort_by : List A → List A
  sort_by [] = []
  sort_by (x ∷ xs) = insert_by x (sort_by xs)

  pub All-insert_by {κ} :
      (P : A → Type κ) (a : A) (xs : List A) → P a → All P xs → All P (insert_by a xs)
  All-insert_by P a [] p h = (p, tt)
  All-insert_by P a (x ∷ xs) p h =
      elim (le a x)
        as (λ b.
          All P (elim b as (λ _. List A) [ true ↦ a ∷ x ∷ xs | false ↦ x ∷ insert_by a xs ])) [
            | true ↦ (p, h)
            | false ↦ (h.0, All-insert_by P a xs p h.1)
          ]

  pub All-sort_by {κ} : (P : A → Type κ) (xs : List A) → All P xs → All P (sort_by xs)
  All-sort_by P [] h = tt
  All-sort_by P (x ∷ xs) h = All-insert_by P x (sort_by xs) h.0 (All-sort_by P xs h.1)

  All-inserted_by {κ} :
      (P : A → Type κ) (a : A) (xs : List A) → All P (insert_by a xs) → P a × All P xs
  All-inserted_by P a [] h = h
  All-inserted_by P a (x ∷ xs) h =
      (elim (le a x)
          as (λ b.
            All P (elim b as (λ _. List A) [ true ↦ a ∷ x ∷ xs | false ↦ x ∷ insert_by a xs ])
            → P a × (P x × All P xs)) [
              | true ↦ λ q. q
              | false ↦ λ q. (let r = All-inserted_by P a xs q.1 in (r.0, (q.0, r.1)))
            ])
        h

  pub All-sorted_by {κ} : (P : A → Type κ) (xs : List A) → All P (sort_by xs) → All P xs
  All-sorted_by P [] h = tt
  All-sorted_by P (x ∷ xs) h =
      let q = All-inserted_by P x (sort_by xs) h in (q.0, All-sorted_by P xs q.1)

  module _ {κ} {R : A → A → Type κ} (R-sym : (x y : A) → R x y → R y x) where
    Pairwise-insert_by :
        (a : A) (xs : List A) → All (R a) xs → Pairwise R xs → Pairwise R (insert_by a xs)
    Pairwise-insert_by a [] p h = (tt, tt)
    Pairwise-insert_by a (x ∷ xs) p h =
        elim (le a x)
          as (λ b.
            Pairwise R
              (elim b as (λ _. List A) [ true ↦ a ∷ x ∷ xs | false ↦ x ∷ insert_by a xs ])) [
                | true ↦ (p, h)
                | false ↦
                    (All-insert_by (R x) a xs (R-sym a x p.0) h.0, Pairwise-insert_by a xs p.1 h.1)
              ]

    pub Pairwise-sort_by : (xs : List A) → Pairwise R xs → Pairwise R (sort_by xs)
    Pairwise-sort_by [] h = tt
    Pairwise-sort_by (x ∷ xs) h =
        Pairwise-insert_by x (sort_by xs) (All-sort_by (R x) xs h.0) (Pairwise-sort_by xs h.1)

  -- What the order decides, a sorted list has of each two of its items.
  module _ {κ} {R : A → A → Type κ} (before : (x y : A) → le x y ≡ true → R x y)
      (behind : (x y : A) → le x y ≡ false → R y x)
      (R-trans : (x y z : A) → R x y → R y z → R x z) where
    sorted-insert_by : (a : A) (xs : List A) → Pairwise R xs → Pairwise R (insert_by a xs)
    sorted-insert_by a [] h = (tt, tt)
    sorted-insert_by a (x ∷ xs) h =
        go (le a x) (before a x) (behind a x) (sorted-insert_by a xs h.1)
      where
        go :
            (b : Bool)
            → (b ≡ true → R a x)
            → (b ≡ false → R x a)
            → Pairwise R (insert_by a xs)
            → Pairwise R
                (elim b as (λ _. List A) [ true ↦ a ∷ x ∷ xs | false ↦ x ∷ insert_by a xs ])
        go true p q again = ((p refl, All-map xs (λ y r. R-trans a x y (p refl) r) h.0), (h.0, h.1))
        go false p q again = (All-insert_by (R x) a xs (q refl) h.0, again)

    pub sort_by-Pairwise : (xs : List A) → Pairwise R (sort_by xs)
    sort_by-Pairwise [] = tt
    sort_by-Pairwise (x ∷ xs) = sorted-insert_by x (sort_by xs) (sort_by-Pairwise xs)
