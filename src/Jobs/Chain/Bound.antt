-- ===== src/Jobs/Chain/Bound.antt =====
-- The sets of the first loop of a report, in pipeline_jobs.py and in agent_tasks.py: the IDs that it has
-- seen, and the owner of each idempotency key.
use lit_grove.Prelude.{
  String, ◌≡◌, ◌↔◌, refl, ap, Bool, false, ◌||◌, inl, inr, Option-cases, List, [], ◌∷◌, All,
  Pairwise, contains, lookup, lookup-insert, string_eq, ◌==◌, arith,
}
use lit_grove.Jobs.Chain.{set_default, is_bound_elsewhere}

-- A key is bound to its owner, and stays so, exactly if it is not bound to another, and a key that is the
-- same has the same owner.
is_bound_elsewhere-set_default :
    (k o j p : String) (bound : List (String × String))
    → is_bound_elsewhere k o bound ≡ false
    → (is_bound_elsewhere j p (set_default k o bound) ≡ false)
      ↔ ((is_bound_elsewhere j p bound ≡ false) × (k ≡ j → o ≡ p))
unfolding is_bound_elsewhere set_default
is_bound_elsewhere-set_default k o j p bound h = elim (Option-cases (lookup k bound)) [
  | inl missing ↦ ground (
    arith,
    lookup-insert k j o bound,
    string_eq.beq_iff k j,
    string_eq.beq_iff o p,
    ap (λ i. lookup i bound),
  )
  | inr (q, found) ↦ ground (
    arith,
    string_eq.beq_iff k j,
    string_eq.beq_iff q o,
    string_eq.beq_iff q p,
    ap (λ i. lookup i bound),
  )
]

or_iff : (b c : Bool) → ((b || c) ≡ false) ↔ ((b ≡ false) × (c ≡ false))
or_iff b c = ground arith

module _ {A : Type 0} (id key owner : A → String) where
  -- Each item has an ID that is new, and a key that is bound to no other owner.
  abbrev pub Fresh : List String → List (String × String) → List A → Type 0
  Fresh seen bound [] = Unit
  Fresh seen bound (x ∷ xs) =
      (contains seen (id x) ≡ false)
      × (is_bound_elsewhere (key x) (owner x) bound ≡ false)
      × Fresh (id x ∷ seen) (set_default (key x) (owner x) bound) xs

  abbrev pub Compatible : A → A → Type 0
  Compatible x y = ((id x == id y) ≡ false) × (key x ≡ key y → owner x ≡ owner y)

  abbrev IsUnknown : List String → List (String × String) → A → Type 0
  IsUnknown seen bound x =
      (contains seen (id x) ≡ false) × (is_bound_elsewhere (key x) (owner x) bound ≡ false)

  split_known :
      (seen : List String) (bound : List (String × String)) (x : A) (xs : List A)
      → is_bound_elsewhere (key x) (owner x) bound ≡ false
      → All (IsUnknown (id x ∷ seen) (set_default (key x) (owner x) bound)) xs
        ↔ (All (IsUnknown seen bound) xs × All (Compatible x) xs)
  split_known seen bound x [] h = (λ k. (tt, tt), λ k. tt)
  split_known seen bound x (y ∷ ys) h =
      let again = split_known seen bound x ys h in
      let ids = or_iff (id x == id y) (contains seen (id y)) in
      let keys = is_bound_elsewhere-set_default (key x) (owner x) (key y) (owner y) bound h in
      (
        λ k.
            (let (a, b) = ids.0 k.0.0 in
              let (c, d) = keys.0 k.0.1 in let (e, f) = again.0 k.1 in (((b, c), e), ((a, d), f))),
        λ k. ((ids.1 (k.1.0.0, k.0.0.0), keys.1 (k.0.0.1, k.1.0.1)), again.1 (k.0.1, k.1.1)),
      )

  Fresh-Compatible :
      (seen : List String) (bound : List (String × String)) (xs : List A)
      → Fresh seen bound xs ↔ (All (IsUnknown seen bound) xs × Pairwise Compatible xs)
  Fresh-Compatible seen bound [] = (λ h. (tt, tt), λ h. tt)
  Fresh-Compatible seen bound (x ∷ xs) =
      let again = Fresh-Compatible (id x ∷ seen) (set_default (key x) (owner x) bound) xs in
      (
        λ h.
            (let (a, b) = again.0 h.2 in
              let (c, d) = (split_known seen bound x xs h.1).0 a in (((h.0, h.1), c), (d, b))),
        λ h. (
          h.0.0.0,
          h.0.0.1,
          again.1 ((split_known seen bound x xs h.0.0.1).1 (h.0.1, h.1.0), h.1.1),
        ),
      )

  -- From the beginning: the items have different IDs, and each key has one owner.
  pub Fresh-Pairwise : (xs : List A) → Fresh [] [] xs ↔ Pairwise Compatible xs
  unfolding is_bound_elsewhere lookup
  Fresh-Pairwise xs =
      let from_nothing = Fresh-Compatible [] [] xs in
      (λ h. (from_nothing.0 h).1, λ h. from_nothing.1 (all_new xs, h))
    where
      all_new : (xs : List A) → All (IsUnknown [] []) xs
      all_new [] = tt
      all_new (x ∷ xs) = ((refl, refl), all_new xs)
