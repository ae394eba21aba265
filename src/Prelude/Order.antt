-- ===== src/Prelude/Order.antt =====
-- A sort under a total order, and what is appended to a list.
use mathlib.Core.Path.{◌≡◌, refl, ap, subst, ◌∙◌}
use mathlib.Core.Bool.{Bool, true, false}
use mathlib.Core.Option.{none, some}
use mathlib.Core.List.{List, [], ◌∷◌, ◌++◌}
use lit_grove.Prelude.Tests.{if◌then◌else◌}
use lit_grove.Prelude.Lists.{All, All-map, Pairwise, select, find, get_last?}
use lit_grove.Prelude.Sorting.{insert_by, sort_by, All-insert_by}

module _ {ℓ} {A : Type ℓ} where
  pub All-select {κ} :
      (P : A → Type κ) (p : A → Bool) (xs : List A) → All P xs → All P (select p xs)
  All-select P p [] h = tt
  All-select P p (x ∷ xs) h =
      elim (p x) as (λ b. All P (if b then x ∷ select p xs else select p xs)) [
        | true ↦ (h.0, All-select P p xs h.1)
        | false ↦ All-select P p xs h.1
      ]

  pub Pairwise-select {κ} :
      (R : A → A → Type κ) (p : A → Bool) (xs : List A) → Pairwise R xs → Pairwise R (select p xs)
  Pairwise-select R p [] h = tt
  Pairwise-select R p (x ∷ xs) h =
      elim (p x) as (λ b. Pairwise R (if b then x ∷ select p xs else select p xs)) [
        | true ↦ (All-select (R x) p xs h.0, Pairwise-select R p xs h.1)
        | false ↦ Pairwise-select R p xs h.1
      ]

  pub select-append :
      (p : A → Bool) (xs : List A) (s : A)
      → p s ≡ true
      → select p (xs ++ s ∷ []) ≡ select p xs ++ s ∷ []
  select-append p [] s h = rw h
  select-append p (x ∷ xs) s h =
      elim (p x)
        as (λ b.
          (if b then x ∷ select p (xs ++ s ∷ []) else select p (xs ++ s ∷ []))
          ≡ (if b then x ∷ select p xs else select p xs) ++ s ∷ []) [
            | true ↦ ap (λ r. x ∷ r) (select-append p xs s h)
            | false ↦ select-append p xs s h
          ]

  pub get_last-append : (xs : List A) (s : A) → get_last? (xs ++ s ∷ []) ≡ some s
  get_last-append [] s = refl
  get_last-append (x ∷ []) s = refl
  get_last-append (x ∷ y ∷ ys) s = get_last-append (y ∷ ys) s

  pub find-append :
      (p : A → Bool) (xs : List A) (s a : A) → find p xs ≡ some a → find p (xs ++ s ∷ []) ≡ some a
  find-append p [] s a h = cc
  find-append p (x ∷ xs) s a h = go (p x) h (find-append p xs s a)
    where
      go :
          (b : Bool)
          → (if b then some x else find p xs) ≡ some a
          → (find p xs ≡ some a → find p (xs ++ s ∷ []) ≡ some a)
          → (if b then some x else find p (xs ++ s ∷ [])) ≡ some a
      go true h again = h
      go false h again = again h

  pub All-get_last {κ} :
      (P : A → Type κ) (xs : List A) (l : A) → get_last? xs ≡ some l → All P xs → P l
  All-get_last P [] l e h = cc
  All-get_last P (x ∷ []) l e h =
      subst (λ o. elim o as (λ _. Type κ) [ none ↦ P x | some y ↦ P y ]) e h.0
  All-get_last P (x ∷ y ∷ ys) l e h = All-get_last P (y ∷ ys) l e h.1

  -- The last of a sorted list is above all of it.
  pub All-below_last {κ} :
      (R : A → A → Type κ) (xs : List A) (l : A)
      → ((x : A) → R x x)
      → get_last? xs ≡ some l
      → Pairwise R xs
      → All (λ x. R x l) xs
  All-below_last R [] l r e h = tt
  All-below_last R (x ∷ []) l r e h =
      (subst (λ o. elim o as (λ _. Type κ) [ none ↦ R x x | some y ↦ R x y ]) e (r x), tt)
  All-below_last R (x ∷ y ∷ ys) l r e h =
      (All-get_last (R x) (y ∷ ys) l e h.0, All-below_last R (y ∷ ys) l r e h.1)

module _ {ℓ} {A : Type ℓ} (le : A → A → Bool) where
  abbrev pub IsSorted : List A → Type 0
  IsSorted xs = Pairwise (λ x y. le x y ≡ true) xs

  insert_by-append :
      (x s : A) (ys : List A)
      → le x s ≡ true
      → insert_by le x (ys ++ s ∷ []) ≡ insert_by le x ys ++ s ∷ []
  insert_by-append x s [] h = rw h
  insert_by-append x s (y ∷ ys) h =
      elim (le x y)
        as (λ b.
          elim b as (λ _. List A) [
            | true ↦ x ∷ y ∷ (ys ++ s ∷ [])
            | false ↦ y ∷ insert_by le x (ys ++ s ∷ [])
          ]
          ≡ elim b as (λ _. List A) [ true ↦ x ∷ y ∷ ys | false ↦ y ∷ insert_by le x ys ]
            ++ s ∷ []) [ true ↦ refl | false ↦ ap (λ r. y ∷ r) (insert_by-append x s ys h) ]

  pub sort_by-append :
      (xs : List A) (s : A)
      → All (λ x. le x s ≡ true) xs
      → sort_by le (xs ++ s ∷ []) ≡ sort_by le xs ++ s ∷ []
  sort_by-append [] s h = refl
  sort_by-append (x ∷ xs) s h =
      ap (insert_by le x) (sort_by-append xs s h.1) ∙ insert_by-append x s (sort_by le xs) h.0

  module _ (total : (x y : A) → le x y ≡ false → le y x ≡ true)
      (trans : (x y z : A) → le x y ≡ true → le y z ≡ true → le x z ≡ true) where
    insert_by-IsSorted : (a : A) (xs : List A) → IsSorted xs → IsSorted (insert_by le a xs)
    insert_by-IsSorted a [] h = (tt, tt)
    insert_by-IsSorted a (x ∷ xs) h = go (le a x) refl (insert_by-IsSorted a xs h.1)
      where
        go :
            (b : Bool)
            → le a x ≡ b
            → IsSorted (insert_by le a xs)
            → IsSorted
                (elim b as (λ _. List A) [ true ↦ a ∷ x ∷ xs | false ↦ x ∷ insert_by le a xs ])
        go true e again = ((e, All-map xs (λ y k. trans a x y e k) h.0), h)
        go false e again = (All-insert_by le (λ y. le x y ≡ true) a xs (total a x e) h.0, again)

    pub sort_by-IsSorted : (xs : List A) → IsSorted (sort_by le xs)
    sort_by-IsSorted [] = tt
    sort_by-IsSorted (x ∷ xs) = insert_by-IsSorted x (sort_by le xs) (sort_by-IsSorted xs)
