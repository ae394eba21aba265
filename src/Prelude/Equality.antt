-- ===== src/Prelude/Equality.antt =====
-- Boolean equality as an interface, with the instances that the records need.
use Prim.Native.Nat.{ℕ, compare, Ordering}
use Prim.Native.String.{String}
use mathlib.Core.Path.{◌≡◌, refl, sym, ap, ◌∙◌}
use mathlib.Core.Logic.{◌↔◌}
use mathlib.Core.Bool.{Bool, true, false, not, ◌&&◌, ◌||◌}
use mathlib.Core.Option.{Option, none, some}
use mathlib.Core.List.{List, [], ◌∷◌, Memᴰ}
use native.Mathlib.Omega.{arith}
use text.Mathlib.Text.{◌==◌ as text_eq}
use text.Mathlib.TextEquality.{eq_iff}

pub record Eq {ℓ} (K : Type ℓ) : Type ℓ where
  pub beq : K → K → Bool
  pub beq_iff : (x y : K) → (beq x y ≡ true) ↔ (x ≡ y)

abbrev pub nat_beq : ℕ → ℕ → Bool
nat_beq a b = elim (compare a b) [ Ordering.eq ↦ true | _ ↦ false ]

pub nat_beq_iff : (a b : ℕ) → (nat_beq a b ≡ true) ↔ (a ≡ b)
nat_beq_iff a b = ground arith

instance abbrev pub nat_eq : Eq ℕ
nat_eq = record { beq = nat_beq; beq_iff = nat_beq_iff }

-- Equality of an enumeration, by a code that can be read back.
pub code_beq_iff {ℓ} :
    {K : Type ℓ} (code : K → ℕ) (of : ℕ → K)
    → ((x : K) → of (code x) ≡ x)
    → (x y : K) → (nat_beq (code x) (code y) ≡ true) ↔ (x ≡ y)
code_beq_iff code of back x y = (
  λ h. sym (back x) ∙ ap of ((nat_beq_iff (code x) (code y)).0 h) ∙ back y,
  λ h. (nat_beq_iff (code x) (code y)).1 (ap code h),
)

instance abbrev pub string_eq : Eq String
string_eq = record { beq = text_eq; beq_iff = eq_iff }

infix 50 ◌==◌
abbrev pub ◌==◌ {ℓ} : {K : Type ℓ} → ⦃key : Eq K⦄ → K → K → Bool
◌==◌ ⦃key⦄ x y = key.beq x y

module _ {ℓ} {A : Type ℓ} ⦃e : Eq A⦄ where
  abbrev pub option_beq : Option A → Option A → Bool
  option_beq none none = true
  option_beq (some a) (some b) = e.beq a b
  option_beq _ _ = false

  pub option_beq_iff : (a b : Option A) → (option_beq a b ≡ true) ↔ (a ≡ b)
  option_beq_iff none none = ground arith
  option_beq_iff (some a) none = ground arith
  option_beq_iff none (some b) = ground arith
  option_beq_iff (some a) (some b) = ground (arith, e.beq_iff a b)

  instance abbrev pub option_eq : Eq (Option A)
  option_eq = record { beq = option_beq; beq_iff = option_beq_iff }

  abbrev pub list_beq : List A → List A → Bool
  list_beq [] [] = true
  list_beq (x ∷ xs) (y ∷ ys) = e.beq x y && list_beq xs ys
  list_beq _ _ = false

  pub list_beq_iff : (a b : List A) → (list_beq a b ≡ true) ↔ (a ≡ b)
  list_beq_iff [] [] = ground arith
  list_beq_iff [] (y ∷ ys) = ground arith
  list_beq_iff (x ∷ xs) [] = ground arith
  list_beq_iff (x ∷ xs) (y ∷ ys) = ground (arith, e.beq_iff x y, list_beq_iff xs ys)

  instance abbrev pub list_eq : Eq (List A)
  list_eq = record { beq = list_beq; beq_iff = list_beq_iff }

  pub eq_of_beq : (a b : A) → e.beq a b ≡ true → a ≡ b
  eq_of_beq a b h = (e.beq_iff a b).0 h

  pub beq_refl : (a : A) → e.beq a a ≡ true
  beq_refl a = (e.beq_iff a a).1 refl

  pub beq-false : (a b : A) → ¬ (a ≡ b) → e.beq a b ≡ false
  beq-false a b h = ground (arith, e.beq_iff a b)

  pub ne_of_beq : (a b : A) → e.beq a b ≡ false → ¬ (a ≡ b)
  ne_of_beq a b h = ground (arith, e.beq_iff a b)

  pub differs-false : (a b : A) → (not (e.beq a b) ≡ false) ↔ (a ≡ b)
  differs-false a b = ground (arith, e.beq_iff a b)

  -- `a in xs`
  abbrev pub contains : List A → A → Bool
  contains [] a = false
  contains (x ∷ xs) a = e.beq x a || contains xs a

  pub contains-Memᴰ : (xs : List A) (a : A) → contains xs a ≡ true → Memᴰ a xs
  contains-Memᴰ [] a h = cc
  contains-Memᴰ (x ∷ xs) a h = go (e.beq x a) refl h (contains-Memᴰ xs a)
    where
      go :
          (b : Bool)
          → e.beq x a ≡ b
          → (b || contains xs a) ≡ true
          → (contains xs a ≡ true → Memᴰ a xs)
          → Memᴰ a (x ∷ xs)
      go true p _ _ = Memᴰ.head (sym (eq_of_beq x a p))
      go false p q rest = Memᴰ.tail (rest q)

  pub Memᴰ-contains : (xs : List A) (a : A) → Memᴰ a xs → contains xs a ≡ true
  Memᴰ-contains [] a m = elim m [ ]
  Memᴰ-contains (x ∷ xs) a (Memᴰ.head p) = rw ((e.beq_iff x a).1 (sym p)) refl
  Memᴰ-contains (x ∷ xs) a (Memᴰ.tail m) = ground (arith, Memᴰ-contains xs a m)

  -- No value occurs twice.
  abbrev pub Distinct : List A → Type 0
  Distinct [] = Unit
  Distinct (x ∷ xs) = (contains xs x ≡ false) × Distinct xs

  -- `set(xs) <= set(ys)`
  abbrev pub is_subset : List A → List A → Bool
  is_subset [] ys = true
  is_subset (x ∷ xs) ys = contains ys x && is_subset xs ys

  pub is_subset-contains :
      (xs ys : List A) (a : A)
      → is_subset xs ys ≡ true
      → contains xs a ≡ true
      → contains ys a ≡ true
  is_subset-contains [] ys a h m = cc
  is_subset-contains (x ∷ xs) ys a h m = ground (arith, is_subset-contains xs ys a, e.beq_iff x a)

  pub is_subset-of_contains :
      (xs ys : List A)
      → ((a : A) → contains xs a ≡ true → contains ys a ≡ true)
      → is_subset xs ys ≡ true
  is_subset-of_contains [] ys h = refl
  is_subset-of_contains (x ∷ xs) ys h =
      let here = h x (rw ((e.beq_iff x x).1 refl) refl) in
      rw here (is_subset-of_contains xs ys (λ a m. h a (or_right (e.beq x a) m)))
    where
      or_right : (b : Bool) {c : Bool} → c ≡ true → (b || c) ≡ true
      or_right true h = refl
      or_right false h = h

  pub is_subset_trans :
      (xs ys zs : List A) → is_subset xs ys ≡ true → is_subset ys zs ≡ true → is_subset xs zs ≡ true
  is_subset_trans xs ys zs h k =
      is_subset-of_contains xs zs
        (λ a m. is_subset-contains ys zs a k (is_subset-contains xs ys a h m))
