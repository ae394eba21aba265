-- ===== src/Prelude/Groups.antt =====
-- A `defaultdict(list)`: the groups in the order in which their keys first came.
use mathlib.Core.Path.{◌≡◌, refl, sym, ap, ◌∙◌, subst}
use mathlib.Core.Logic.{◌↔◌, ◌⊎◌, inl, inr}
use mathlib.Core.Bool.{Bool, true, false, ◌||◌}
use mathlib.Core.List.{List, [], ◌∷◌, ◌++◌, map, Memᴰ}
use native.Mathlib.Omega.{arith}
use lit_grove.Prelude.Tests.{if◌then◌else◌, Bool-cases}
use lit_grove.Prelude.Lists.{All, All-append, select, append_nil}
use lit_grove.Prelude.Membership.{Memᴰ-select}
use lit_grove.Prelude.Equality.{Eq, contains, Distinct}

module _ {ℓ κ} {K : Type ℓ} {A : Type κ} ⦃e : Eq K⦄ where
  abbrev pub add_to_group : K → A → List (K × List A) → List (K × List A)
  add_to_group k a [] = (k, a ∷ []) ∷ []
  add_to_group k a ((j, xs) ∷ gs) = elim (e.beq j k) [
    | true ↦ (j, xs ++ a ∷ []) ∷ gs
    | false ↦ (j, xs) ∷ add_to_group k a gs
  ]

  -- The first group of a key, or none.
  abbrev pub group_of : K → List (K × List A) → List A
  group_of k [] = []
  group_of k ((j, xs) ∷ gs) = let rest = group_of k gs in if e.beq j k then xs else rest

  abbrev keys : List (K × List A) → List K
  keys gs = map (λ (g : K × List A). g.0) gs

  group_of-add :
      (k j : K) (a : A) (gs : List (K × List A))
      → group_of k (add_to_group j a gs)
        ≡ (if e.beq j k then group_of k gs ++ a ∷ [] else group_of k gs)
  group_of-add k j a [] = refl
  group_of-add k j a ((i, xs) ∷ gs) =
      ground (arith, group_of-add k j a gs, e.beq_iff i j, e.beq_iff j k, e.beq_iff i k)

  contains-add :
      (k j : K) (a : A) (gs : List (K × List A))
      → contains (keys (add_to_group j a gs)) k ≡ (contains (keys gs) k || e.beq j k)
  contains-add k j a [] = ground arith
  contains-add k j a ((i, xs) ∷ gs) =
      ground (arith, contains-add k j a gs, e.beq_iff i j, e.beq_iff j k, e.beq_iff i k)

  Distinct-add :
      (j : K) (a : A) (gs : List (K × List A))
      → Distinct (keys gs)
      → Distinct (keys (add_to_group j a gs))
  Distinct-add j a [] h = ground arith
  Distinct-add j a ((i, xs) ∷ gs) h =
      ground (arith, Distinct-add j a gs, contains-add i j a gs, e.beq_iff i j, e.beq_iff j i)

  group_of-absent :
      (k : K) (gs : List (K × List A)) → contains (keys gs) k ≡ false → group_of k gs ≡ []
  group_of-absent k [] h = refl
  group_of-absent k ((j, xs) ∷ gs) h = ground (arith, group_of-absent k gs)

  -- With one group for each key, what holds of each group is what holds of the group of each key.
  All-group_of {μ} :
      (P : List A → Type μ) (gs : List (K × List A))
      → P []
      → Distinct (keys gs)
      → All (λ (g : K × List A). P g.1) gs ↔ ((k : K) → P (group_of k gs))
  All-group_of P [] none d = (λ h k. none, λ h. tt)
  All-group_of P ((j, xs) ∷ gs) none d =
      let again = All-group_of P gs none (ground arith) in
      (
        λ h k. pick (e.beq j k) xs (group_of k gs) h.0 (again.0 h.1 k),
        λ h. (
          subst (λ b. P (if b then xs else group_of j gs)) ((e.beq_iff j j).1 refl) (h j),
          again.1 (λ k. others k (Bool-cases (e.beq j k)) (h k)),
        ),
      )
    where
      pick : (b : Bool) (xs ys : List A) → P xs → P ys → P (if b then xs else ys)
      pick true xs ys p q = p
      pick false xs ys p q = q

      absent : contains (keys gs) j ≡ false
      absent = ground arith

      others :
          (k : K)
          → (e.beq j k ≡ true) ⊎ (e.beq j k ≡ false)
          → P (if e.beq j k then xs else group_of k gs)
          → P (group_of k gs)
      others k (inl same) p =
          subst (λ i. P (group_of i gs)) ((e.beq_iff j k).0 same)
            (subst P (sym (group_of-absent j gs absent)) none)
      others k (inr other) p = subst (λ b. P (if b then xs else group_of k gs)) other p

  module _ {μ} (P : K → A → Type μ) where
    All-add :
        (k : K) (a : A) (gs : List (K × List A))
        → P k a
        → All (λ (g : K × List A). All (P g.0) g.1) gs
        → All (λ (g : K × List A). All (P g.0) g.1) (add_to_group k a gs)
    All-add k a [] p h = ((p, tt), tt)
    All-add k a ((j, xs) ∷ gs) p h =
        put (e.beq j k) (λ q. (e.beq_iff j k).0 q) (All-add k a gs p h.1)
      where
        put :
            (b : Bool)
            → (b ≡ true → j ≡ k)
            → All (λ (g : K × List A). All (P g.0) g.1) (add_to_group k a gs)
            → All
                (λ (g : K × List A). All (P g.0) g.1)
                (elim b as (λ _. List (K × List A)) [
                  | true ↦ (j, xs ++ a ∷ []) ∷ gs
                  | false ↦ (j, xs) ∷ add_to_group k a gs
                ])
        put true same later = (
          (All-append (P j) xs (a ∷ [])).1 (h.0, (subst (λ i. P i a) (sym (same refl)) p, tt)),
          h.1,
        )
        put false same later = (h.0, later)

  group_of-Memᴰ :
      (k : K) (a : A) (gs : List (K × List A))
      → Memᴰ a (group_of k gs)
      → (xs : List A) × Memᴰ (k, xs) gs × Memᴰ a xs
  group_of-Memᴰ k a [] m = elim m [ ]
  group_of-Memᴰ k a ((j, xs) ∷ gs) m =
      pick (e.beq j k) (λ q. (e.beq_iff j k).0 q) m (group_of-Memᴰ k a gs)
    where
      pick :
          (b : Bool)
          → (b ≡ true → j ≡ k)
          → Memᴰ a (if b then xs else group_of k gs)
          → (Memᴰ a (group_of k gs) → (ys : List A) × Memᴰ (k, ys) gs × Memᴰ a ys)
          → (ys : List A) × Memᴰ (k, ys) ((j, xs) ∷ gs) × Memᴰ a ys
      pick true same m again = (xs, Memᴰ.head (λ i. (sym (same refl) i, xs)), m)
      pick false same m again = (let (ys, n, l) = again m in (ys, Memᴰ.tail n, l))

  module _ (key : A → K) where
    unfoldable pub group_from : List (K × List A) → List A → List (K × List A)
    group_from gs [] = gs
    group_from gs (x ∷ xs) = group_from (add_to_group (key x) x gs) xs

    group_of-group_from :
        (k : K) (gs : List (K × List A)) (xs : List A)
        → group_of k (group_from gs xs) ≡ group_of k gs ++ select (λ (x : A). e.beq (key x) k) xs
    unfolding group_from
    group_of-group_from k gs [] = sym (append_nil (group_of k gs))
    group_of-group_from k gs (x ∷ xs) =
        group_of-group_from k (add_to_group (key x) x gs) xs
        ∙ ap (λ r. r ++ select (λ (y : A). e.beq (key y) k) xs) (group_of-add k (key x) x gs)
        ∙ regroup (e.beq (key x) k) (group_of k gs) x (select (λ (y : A). e.beq (key y) k) xs)
      where
        regroup :
            (b : Bool) (g : List A) (x : A) (rest : List A)
            → (if b then g ++ x ∷ [] else g) ++ rest ≡ g ++ (if b then x ∷ rest else rest)
        regroup true [] x rest = refl
        regroup true (y ∷ g) x rest = ap (λ r. y ∷ r) (regroup true g x rest)
        regroup false g x rest = refl

    Distinct-group_from :
        (gs : List (K × List A)) (xs : List A)
        → Distinct (keys gs)
        → Distinct (keys (group_from gs xs))
    unfolding group_from
    Distinct-group_from gs [] h = h
    Distinct-group_from gs (x ∷ xs) h =
        Distinct-group_from (add_to_group (key x) x gs) xs (Distinct-add (key x) x gs h)

    -- The groups of a list are, for each key, the items with it in the order of the list.
    pub All-group_from {μ} :
        (P : List A → Type μ) (xs : List A)
        → P []
        → All (λ (g : K × List A). P g.1) (group_from [] xs)
          ↔ ((k : K) → P (select (λ (x : A). e.beq (key x) k) xs))
    All-group_from P xs none = (
      λ h k. subst P (group_of-group_from k [] xs) (by_key.0 h k),
      λ h. by_key.1 (λ k. subst P (sym (group_of-group_from k [] xs)) (h k)),
    )
      where
        by_key :
            All (λ (g : K × List A). P g.1) (group_from [] xs)
            ↔ ((k : K) → P (group_of k (group_from [] xs)))
        by_key = All-group_of P (group_from [] xs) none (Distinct-group_from [] xs tt)

    -- Each group holds items of the list with its key.
    pub All-of_group_from {μ} :
        (P : K → A → Type μ) (gs : List (K × List A)) (xs : List A)
        → All (λ (g : K × List A). All (P g.0) g.1) gs
        → All (λ (x : A). P (key x) x) xs
        → All (λ (g : K × List A). All (P g.0) g.1) (group_from gs xs)
    unfolding group_from
    All-of_group_from P gs [] h k = h
    All-of_group_from P gs (x ∷ xs) h k =
        All-of_group_from P (add_to_group (key x) x gs) xs (All-add P (key x) x gs k.0 h) k.1

    -- Each item of the list is in a group of its key.
    pub group_from-Memᴰ :
        (x : A) (xs : List A)
        → Memᴰ x xs
        → (ys : List A) × Memᴰ (key x, ys) (group_from [] xs) × Memᴰ x ys
    group_from-Memᴰ x xs m = group_of-Memᴰ (key x) x (group_from [] xs) (
        subst (Memᴰ x) (sym (group_of-group_from (key x) [] xs)) (
          Memᴰ-select (λ (y : A). e.beq (key y) (key x)) x xs m
            ((e.beq_iff (key x) (key x)).1 refl)))
