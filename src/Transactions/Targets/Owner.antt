-- ===== src/Transactions/Targets/Owner.antt =====
-- No path belongs to two stores.
use lit_grove.Prelude.{
  ℕ, String, ◌≡◌, refl, sym, ap, ◌∙◌, Bool, true, not, ◌&&◌, ◌||◌, Option, none, some, List, [],
  ◌∷◌, lookup, ◌==◌, string_eq, nat_eq, every, every-lookup, is_some, arith, eq_of_beq,
}
use lit_grove.Transactions.Targets.{
  codes, after_prefix, exact_targets, pattern_targets, is_name, fits_target,
  transaction_target_matches_store,
}

-- One text is a prefix of the other.
unfoldable comparable : List ℕ → List ℕ → Bool
comparable [] ys = true
comparable (x ∷ xs) [] = true
comparable (x ∷ xs) (y ∷ ys) = x == y && comparable xs ys

comparable_of :
    (a b text r s : List ℕ)
    → after_prefix a text ≡ some r
    → after_prefix b text ≡ some s
    → comparable a b ≡ true
unfolding after_prefix comparable
comparable_of [] b text r s h k = refl
comparable_of (x ∷ xs) [] text r s h k = refl
comparable_of (x ∷ xs) (y ∷ ys) [] r s h k = cc
comparable_of (x ∷ xs) (y ∷ ys) (c ∷ cs) r s h k =
    ground (
      arith,
      comparable_of xs ys cs r s,
      nat_eq.beq_iff x c,
      nat_eq.beq_iff y c,
      nat_eq.beq_iff x y,
    )

-- What holds of each pair of entries of two tables.
every_pair :
    {A B : Type 0} (p : String × A → String × B → Bool) (d : List (String × A))
    (e : List (String × B)) (k l : String) (a : A) (b : B)
    → every (λ (x : String × A). every (p x) e) d ≡ true
    → lookup k d ≡ some a
    → lookup l e ≡ some b
    → p (k, a) (l, b) ≡ true
every_pair p d e k l a b h x y =
    every-lookup (p (k, a)) e l b (every-lookup (λ z. every (p z) e) d k a h x) y

abbrev exact_apart : String × String → String × String → Bool
exact_apart e f = e.0 == f.0 || not (e.1 == f.1)

abbrev patterns_apart : String × (String × String) → String × (String × String) → Bool
patterns_apart e f = e.0 == f.0 || not (comparable (codes e.1.0) (codes f.1.0))

abbrev exact_outside : String × String → String × (String × String) → Bool
exact_outside e f = not (is_some (after_prefix (codes f.1.0) (codes e.1)))

-- The tables, entry by entry.
tables :
    (every (λ (e : String × String). every (exact_apart e) exact_targets) exact_targets ≡ true)
    × (every
          (λ (e : String × (String × String)). every (patterns_apart e) pattern_targets)
          pattern_targets
        ≡ true)
    × (every (λ (e : String × String). every (exact_outside e) pattern_targets) exact_targets
        ≡ true)
unfolding comparable after_prefix
tables = (refl, refl, refl)

has_prefix :
    (o : Option (List ℕ)) (suffix : List ℕ) → is_name o suffix ≡ true → (r : List ℕ) × (o ≡ some r)
has_prefix none suffix h = cc
has_prefix (some r) suffix h = (r, refl)

-- How a path fits a store: it is the store's, or it has the store's prefix.
abbrev Fits : Option String → Option (String × String) → String → Type 0
Fits (some exact) pattern path = path ≡ exact
Fits none none path = ⊥
Fits none (some (prefix, suffix)) path =
    (r : List ℕ) × (after_prefix (codes prefix) (codes path) ≡ some r)

fits_target-Fits :
    (o : Option String) (q : Option (String × String)) (path : String)
    → fits_target o q path ≡ true
    → Fits o q path
fits_target-Fits (some exact) q path h = eq_of_beq path exact h
fits_target-Fits none none path h = cc
fits_target-Fits none (some (prefix, suffix)) path h = has_prefix _ (codes suffix) h

module _ (s t path : String) where
  same_exact :
      (e : String) → lookup s exact_targets ≡ some e → lookup t exact_targets ≡ some e → s ≡ t
  same_exact e h k =
      let apart = every_pair exact_apart exact_targets exact_targets s t e e tables.0 h k in
      ground (arith, string_eq.beq_iff s t, string_eq.beq_iff e e)

  same_pattern :
      (a b : String × String) (r q : List ℕ)
      → lookup s pattern_targets ≡ some a
      → lookup t pattern_targets ≡ some b
      → after_prefix (codes a.0) (codes path) ≡ some r
      → after_prefix (codes b.0) (codes path) ≡ some q
      → s ≡ t
  same_pattern a b r q h k x y =
      let apart = every_pair patterns_apart pattern_targets pattern_targets s t a b tables.1 h k in
      let near = comparable_of (codes a.0) (codes b.0) (codes path) r q x y in
      ground (arith, string_eq.beq_iff s t)

exact_no_pattern :
    (s t path : String) (b : String × String) (r : List ℕ)
    → lookup s exact_targets ≡ some path
    → lookup t pattern_targets ≡ some b
    → after_prefix (codes b.0) (codes path) ≡ some r
    → ⊥
exact_no_pattern s t path b r h k x =
    let outside = every_pair exact_outside exact_targets pattern_targets s t path b tables.2 h k in
    ground arith

owners :
    (s t path : String) (o o' : Option String) (q q' : Option (String × String))
    → lookup s exact_targets ≡ o
    → lookup t exact_targets ≡ o'
    → lookup s pattern_targets ≡ q
    → lookup t pattern_targets ≡ q'
    → Fits o q path
    → Fits o' q' path
    → s ≡ t
owners s t path (some e) (some f) q q' a b c d x y =
    same_exact s t path e a (b ∙ ap some (sym y ∙ x))
owners s t path (some e) none q none a b c d x y = absurd y
owners s t path (some e) none q (some g) a b c d x y =
    absurd (exact_no_pattern s t path g y.0 (a ∙ ap some (sym x)) d y.1)
owners s t path none (some f) none q' a b c d x y = absurd x
owners s t path none (some f) (some g) q' a b c d x y =
    absurd (exact_no_pattern t s path g x.0 (b ∙ ap some (sym y)) c x.1)
owners s t path none none none q' a b c d x y = absurd x
owners s t path none none (some g) none a b c d x y = absurd y
owners s t path none none (some g) (some k) a b c d x y =
    same_pattern s t path g k x.0 y.0 c d x.1 y.1

-- A path is the target of at most one store.
pub transaction_target_matches_store_unique :
    (s t path : String)
    → transaction_target_matches_store s path ≡ true
    → transaction_target_matches_store t path ≡ true
    → s ≡ t
unfolding transaction_target_matches_store
transaction_target_matches_store_unique s t path h k =
    owners s t path _ _ _ _ refl refl refl refl
      (fits_target-Fits (lookup s exact_targets) (lookup s pattern_targets) path h)
      (fits_target-Fits (lookup t exact_targets) (lookup t pattern_targets) path k)
