-- ===== src/Prelude/Membership.antt =====
-- Membership by a Boolean test, against predicates on all items and against sorting.
use mathlib.Core.Path.{◌≡◌, refl, sym, ap, subst, ◌∙◌}
use mathlib.Core.Bool.{Bool, true, false, not, ◌||◌}
use mathlib.Core.List.{List, [], ◌∷◌, ◌++◌, map, Memᴰ, Permᴰ}
use mathlib.Core.List.Permᴰ
use mathlib.Core.Option.{none, some}
use mathlib.Core.Logic.{◌⊎◌, inl, inr}
use lit_grove.Prelude.Tests.{if◌then◌else◌}
use lit_grove.Prelude.Lists.{All, All-map, select, find}
use lit_grove.Prelude.Equality.{Eq, contains, eq_of_beq}
use lit_grove.Prelude.Sorting.{sort_by, All-sort_by, All-sorted_by}

module _ {ℓ} {A : Type ℓ} ⦃e : Eq A⦄ where
  pub All-at {κ} : (P : A → Type κ) (xs : List A) (a : A) → All P xs → contains xs a ≡ true → P a
  All-at P [] a h m = cc
  All-at P (x ∷ xs) a h m = go (e.beq x a) refl m (All-at P xs a h.1)
    where
      go :
          (b : Bool)
          → e.beq x a ≡ b
          → (b || contains xs a) ≡ true
          → (contains xs a ≡ true → P a)
          → P a
      go true p _ _ = subst P (eq_of_beq x a p) h.0
      go false p q rest = rest q

  -- Every item of a list is in it.
  pub All-contains : (xs : List A) → All (λ (x : A). contains xs x ≡ true) xs
  All-contains [] = tt
  All-contains (x ∷ xs) = (
    rw ((e.beq_iff x x).1 refl) refl,
    All-map xs (λ y h. or_right (e.beq x y) h) (All-contains xs),
  )
    where
      or_right : (b : Bool) {c : Bool} → c ≡ true → (b || c) ≡ true
      or_right true h = refl
      or_right false h = h

  pub contains-sort_by :
      (le : A → A → Bool) (xs : List A) (a : A)
      → contains xs a ≡ true
      → contains (sort_by le xs) a ≡ true
  contains-sort_by le xs a m =
      All-at (λ x. contains (sort_by le xs) x ≡ true) xs a
        (All-sorted_by le (λ x. contains (sort_by le xs) x ≡ true) xs
          (All-contains (sort_by le xs)))
        m

  pub contains-sorted_by :
      (le : A → A → Bool) (xs : List A) (a : A)
      → contains (sort_by le xs) a ≡ true
      → contains xs a ≡ true
  contains-sorted_by le xs a m =
      All-at (λ x. contains xs x ≡ true) (sort_by le xs) a
        (All-sort_by le (λ x. contains xs x ≡ true) xs (All-contains xs)) m

  -- An item of a mapped list comes from an item of the list.
  pub contains-map {κ} :
      {B : Type κ} (f : B → A) (xs : List B) (a : A)
      → contains (map f xs) a ≡ true
      → (b : B) × Memᴰ b xs × (f b ≡ a)
  contains-map {B} f [] a m = cc
  contains-map {B} f (x ∷ xs) a m = go (e.beq (f x) a) refl m (contains-map f xs a)
    where
      go :
          (b : Bool)
          → e.beq (f x) a ≡ b
          → (b || contains (map f xs) a) ≡ true
          → (contains (map f xs) a ≡ true → (y : B) × Memᴰ y xs × (f y ≡ a))
          → (y : B) × Memᴰ y (x ∷ xs) × (f y ≡ a)
      go true p _ _ = (x, Memᴰ.head refl, eq_of_beq (f x) a p)
      go false p q rest = let (y, here, same) = rest q in (y, Memᴰ.tail here, same)

pub All-Memᴰ {ℓ κ} :
    {A : Type ℓ} (P : A → Type κ) (xs : List A) (a : A) → All P xs → Memᴰ a xs → P a
All-Memᴰ P [] a h m = elim m [ ]
All-Memᴰ P (x ∷ xs) a h (Memᴰ.head p) = subst P (sym p) h.0
All-Memᴰ P (x ∷ xs) a h (Memᴰ.tail m) = All-Memᴰ P xs a h.1 m

module _ {ℓ} {A : Type ℓ} where
  pub Memᴰ-Permᴰ : {x : A} {xs ys : List A} → Permᴰ xs ys → Memᴰ x xs → Memᴰ x ys
  Memᴰ-Permᴰ Permᴰ.nil m = m
  Memᴰ-Permᴰ (Permᴰ.cons e d) (Memᴰ.head q) = Memᴰ.head (q ∙ e)
  Memᴰ-Permᴰ (Permᴰ.cons e d) (Memᴰ.tail m) = Memᴰ.tail (Memᴰ-Permᴰ d m)
  Memᴰ-Permᴰ (Permᴰ.swap e f) (Memᴰ.head q) = Memᴰ.tail (Memᴰ.head (q ∙ e))
  Memᴰ-Permᴰ (Permᴰ.swap e f) (Memᴰ.tail (Memᴰ.head q)) = Memᴰ.head (q ∙ f)
  Memᴰ-Permᴰ (Permᴰ.swap e f) (Memᴰ.tail (Memᴰ.tail m)) = Memᴰ.tail (Memᴰ.tail m)
  Memᴰ-Permᴰ (Permᴰ.trans d e) m = Memᴰ-Permᴰ e (Memᴰ-Permᴰ d m)

  pub select-Memᴰ :
      (p : A → Bool) (x : A) (xs : List A) → Memᴰ x (select p xs) → Memᴰ x xs × (p x ≡ true)
  select-Memᴰ p x [] m = elim m [ ]
  select-Memᴰ p x (y ∷ ys) m = go (p y) refl m (select-Memᴰ p x ys)
    where
      go :
          (b : Bool)
          → p y ≡ b
          → Memᴰ x (if b then y ∷ select p ys else select p ys)
          → (Memᴰ x (select p ys) → Memᴰ x ys × (p x ≡ true))
          → Memᴰ x (y ∷ ys) × (p x ≡ true)
      go true e (Memᴰ.head q) again = (Memᴰ.head q, ap p q ∙ e)
      go true e (Memᴰ.tail n) again = (let (a, b) = again n in (Memᴰ.tail a, b))
      go false e n again = (let (a, b) = again n in (Memᴰ.tail a, b))

  pub Memᴰ-select :
      (p : A → Bool) (x : A) (xs : List A) → Memᴰ x xs → p x ≡ true → Memᴰ x (select p xs)
  Memᴰ-select p x [] m e = elim m [ ]
  Memᴰ-select p x (y ∷ ys) (Memᴰ.head q) e =
      subst (λ b. Memᴰ x (if b then y ∷ select p ys else select p ys)) (sym (sym (ap p q) ∙ e))
        (Memᴰ.head q)
  Memᴰ-select p x (y ∷ ys) (Memᴰ.tail m) e =
      elim (p y) as (λ b. Memᴰ x (if b then y ∷ select p ys else select p ys)) [
        | true ↦ Memᴰ.tail (Memᴰ-select p x ys m e)
        | false ↦ Memᴰ-select p x ys m e
      ]

  pub All-self : (xs : List A) → All (λ x. Memᴰ x xs) xs
  All-self [] = tt
  All-self (x ∷ xs) = (Memᴰ.head refl, All-map xs (λ y m. Memᴰ.tail m) (All-self xs))

  pub sort_by-Memᴰ : (le : A → A → Bool) (x : A) (xs : List A) → Memᴰ x (sort_by le xs) → Memᴰ x xs
  sort_by-Memᴰ le x xs m =
      All-Memᴰ (λ y. Memᴰ y xs) (sort_by le xs) x (All-sort_by le (λ y. Memᴰ y xs) xs (All-self xs))
        m

  pub Memᴰ-sort_by : (le : A → A → Bool) (x : A) (xs : List A) → Memᴰ x xs → Memᴰ x (sort_by le xs)
  Memᴰ-sort_by le x xs m =
      All-Memᴰ (λ y. Memᴰ y (sort_by le xs)) xs x
        (All-sorted_by le (λ y. Memᴰ y (sort_by le xs)) xs (All-self (sort_by le xs))) m

  pub Memᴰ-append : (x : A) (xs ys : List A) → Memᴰ x ys → Memᴰ x (xs ++ ys)
  Memᴰ-append x [] ys m = m
  Memᴰ-append x (z ∷ zs) ys m = Memᴰ.tail (Memᴰ-append x zs ys m)

  pub Memᴰ-snoc : (x a : A) (xs : List A) → Memᴰ x (xs ++ a ∷ []) → Memᴰ x xs ⊎ (x ≡ a)
  Memᴰ-snoc x a [] (Memᴰ.head q) = inr q
  Memᴰ-snoc x a [] (Memᴰ.tail m) = elim m [ ]
  Memᴰ-snoc x a (z ∷ zs) (Memᴰ.head q) = inl (Memᴰ.head q)
  Memᴰ-snoc x a (z ∷ zs) (Memᴰ.tail m) = elim (Memᴰ-snoc x a zs m) [
    | inl n ↦ inl (Memᴰ.tail n)
    | inr q ↦ inr q
  ]

  pub find-Memᴰ :
      (p : A → Bool) (x : A) (xs : List A) → find p xs ≡ some x → Memᴰ x xs × (p x ≡ true)
  find-Memᴰ p x [] h = cc
  find-Memᴰ p x (y ∷ ys) h = go (p y) refl h (find-Memᴰ p x ys)
    where
      some_inj : some y ≡ some x → x ≡ y
      some_inj q = cc

      go :
          (b : Bool)
          → p y ≡ b
          → (if b then some y else find p ys) ≡ some x
          → (find p ys ≡ some x → Memᴰ x ys × (p x ≡ true))
          → Memᴰ x (y ∷ ys) × (p x ≡ true)
      go true e q again = (Memᴰ.head (some_inj q), ap p (some_inj q) ∙ e)
      go false e q again = (let (a, b) = again q in (Memᴰ.tail a, b))

  pub find-none : (p : A → Bool) (x : A) (xs : List A) → find p xs ≡ none → Memᴰ x xs → p x ≡ false
  find-none p x [] h m = elim m [ ]
  find-none p x (y ∷ ys) h m = go (p y) refl (find-none p x ys) h m
    where
      go :
          (b : Bool)
          → p y ≡ b
          → (find p ys ≡ none → Memᴰ x ys → p x ≡ false)
          → (if b then some y else find p ys) ≡ none
          → Memᴰ x (y ∷ ys)
          → p x ≡ false
      go true e again q m = cc
      go false e again q (Memᴰ.head s) = ap p s ∙ e
      go false e again q (Memᴰ.tail m) = again q m

  pub contains-of_Memᴰ {κ} :
      {K : Type κ} ⦃e : Eq K⦄ (f : A → K) (x : A) (xs : List A)
      → Memᴰ x xs
      → contains (map f xs) (f x) ≡ true
  contains-of_Memᴰ ⦃e⦄ f x [] m = elim m [ ]
  contains-of_Memᴰ ⦃e⦄ f x (y ∷ ys) (Memᴰ.head q) =
      ap (λ b. b || contains (map f ys) (f x)) ((e.beq_iff (f y) (f x)).1 (ap f (sym q)))
  contains-of_Memᴰ ⦃e⦄ f x (y ∷ ys) (Memᴰ.tail m) =
      either (e.beq (f y) (f x)) (contains-of_Memᴰ f x ys m)
    where
      either : (b : Bool) {c : Bool} → c ≡ true → (b || c) ≡ true
      either true h = refl
      either false h = h

module _ {ℓ} {A : Type ℓ} (p : A → Bool) where
  middle : (x : A) (xs ys : List A) → Permᴰ (xs ++ x ∷ ys) (x ∷ xs ++ ys)
  middle x [] ys = Permᴰ.refl (x ∷ ys)
  middle x (z ∷ xs) ys = Permᴰ.trans (Permᴰ.cons refl (middle x xs ys)) (Permᴰ.swap refl refl)

  -- A list is the items that pass a test, and those that do not.
  pub partition : (xs : List A) → Permᴰ xs (select p xs ++ select (λ x. not (p x)) xs)
  partition [] = Permᴰ.nil
  partition (x ∷ xs) = place (p x) (select p xs) (select (λ y. not (p y)) xs) (partition xs)
    where
      place :
          (b : Bool) (ys zs : List A)
          → Permᴰ xs (ys ++ zs)
          → Permᴰ (x ∷ xs) ((if b then x ∷ ys else ys) ++ (if not b then x ∷ zs else zs))
      place true ys zs h = Permᴰ.cons refl h
      place false ys zs h = Permᴰ.trans (Permᴰ.cons refl h) (Permᴰ.symm (middle x ys zs))
