-- ===== src/Tasks/Roots.antt =====
-- What the loops of the report on Agent Tasks (agent_tasks.py) gather: the roots of the groups, and the Task IDs.
use lit_grove.Prelude.{
  ℕ, suc, ◌≤◌, ltb, String, ◌≡◌, refl, ap, inl, inr, ◌⊎◌, Bool, true, false, List, [], ◌∷◌, map,
  contains, All, All-map, Memᴰ, if◌then◌else◌, ◌==◌, string_eq, nat_eq, eq_of_beq, ◌||◌, arith,
}
use lit_grove.Tasks.State.{TaskState}
use lit_grove.Tasks.Chain.{Gathered, gather, gather_all, revisions_from}
use lit_grove.Tasks.Report.{first_least, roots}

pub revisions_from-least :
    (n : ℕ) (xs : List TaskState)
    → map (λ (s : TaskState). s.revision) xs ≡ revisions_from n xs
    → All (λ (s : TaskState). n ≤ s.revision) xs
revisions_from-least n [] h = tt
revisions_from-least n (x ∷ xs) h =
    let again = revisions_from-least (suc n) xs (later h) in
    (first (here h), All-map xs (λ s k. weaker s k) again)
  where
    here : {a b : ℕ} {xs ys : List ℕ} → a ∷ xs ≡ b ∷ ys → a ≡ b
    here q = cc

    later : {a b : ℕ} {xs ys : List ℕ} → a ∷ xs ≡ b ∷ ys → xs ≡ ys
    later q = cc

    first : x.revision ≡ n → n ≤ x.revision
    first q = omega arith

    weaker : (s : TaskState) → suc n ≤ s.revision → n ≤ s.revision
    weaker s k = omega arith

-- `min` returns one of the states, and none has a smaller revision.
pub first_least-Memᴰ : (s : TaskState) (ss : List TaskState) → Memᴰ (first_least s ss) (s ∷ ss)
unfolding first_least
first_least-Memᴰ s [] = Memᴰ.head refl
first_least-Memᴰ s (x ∷ xs) = go (ltb x.revision s.revision) (λ r. first_least-Memᴰ r xs)
  where
    go :
        (b : Bool)
        → ((r : TaskState) → Memᴰ (first_least r xs) (r ∷ xs))
        → Memᴰ (first_least (if b then x else s) xs) (s ∷ x ∷ xs)
    go true again = Memᴰ.tail (again x)
    go false again = past (again s)
      where
        past : {r : TaskState} → Memᴰ r (s ∷ xs) → Memᴰ r (s ∷ x ∷ xs)
        past (Memᴰ.head q) = Memᴰ.head q
        past (Memᴰ.tail m) = Memᴰ.tail (Memᴰ.tail m)

pub first_least-le :
    (s : TaskState) (ss : List TaskState)
    → All (λ (x : TaskState). (first_least s ss).revision ≤ x.revision) (s ∷ ss)
unfolding first_least
first_least-le s [] = (omega arith, tt)
first_least-le s (x ∷ xs) = go (ltb x.revision s.revision) refl (λ r. first_least-le r xs)
  where
    go :
        (b : Bool)
        → ltb x.revision s.revision ≡ b
        → ((r : TaskState)
            → All (λ (y : TaskState). (first_least r xs).revision ≤ y.revision) (r ∷ xs))
        → All
            (λ (y : TaskState). (first_least (if b then x else s) xs).revision ≤ y.revision)
            (s ∷ x ∷ xs)
    go true e again = (let (h, k) = again x in (ground arith, (h, k)))
    go false e again = (let (h, k) = again s in (h, (ground arith, k)))

-- The roots are the first of the least states of the groups.
pub roots-Memᴰ :
    (t : String) (r : TaskState) (gs : List (String × List TaskState))
    → Memᴰ (t, r) (roots gs)
    → (s : TaskState) × (ss : List TaskState) × Memᴰ (t, s ∷ ss) gs × (r ≡ first_least s ss)
unfolding roots
roots-Memᴰ t r [] m = elim m [ ]
roots-Memᴰ t r ((k, []) ∷ gs) m = let (s, ss, n, q) = roots-Memᴰ t r gs m in (s, ss, Memᴰ.tail n, q)
roots-Memᴰ t r ((k, y ∷ ys) ∷ gs) (Memᴰ.head q) =
    (y, ys, Memᴰ.head (λ i. ((q i).0, y ∷ ys)), ap (λ (x : String × TaskState). x.1) q)
roots-Memᴰ t r ((k, y ∷ ys) ∷ gs) (Memᴰ.tail m) =
    let (s, ss, n, q) = roots-Memᴰ t r gs m in (s, ss, Memᴰ.tail n, q)

abbrev least_of : TaskState → List TaskState → TaskState
least_of s [] = s
least_of s (x ∷ xs) = first_least x xs

pub Memᴰ-roots :
    (t : String) (s : TaskState) (ss : List TaskState) (gs : List (String × List TaskState))
    → Memᴰ (t, s ∷ ss) gs
    → Memᴰ (t, first_least s ss) (roots gs)
unfolding roots
Memᴰ-roots t s ss [] m = elim m [ ]
Memᴰ-roots t s ss ((k, []) ∷ gs) (Memᴰ.head q) =
    absurd (empty (ap (λ (g : String × List TaskState). g.1) q))
  where
    empty : s ∷ ss ≡ [] → ⊥
    empty h = cc
Memᴰ-roots t s ss ((k, []) ∷ gs) (Memᴰ.tail m) = Memᴰ-roots t s ss gs m
Memᴰ-roots t s ss ((k, y ∷ ys) ∷ gs) (Memᴰ.head q) =
    Memᴰ.head (ap (λ (g : String × List TaskState). (g.0, least_of s g.1)) q)
Memᴰ-roots t s ss ((k, y ∷ ys) ∷ gs) (Memᴰ.tail m) = Memᴰ.tail (Memᴰ-roots t s ss gs m)

-- The first loop gathers the Task IDs of the states.
pub contains-task_ids :
    (g : Gathered) (xs : List TaskState) (p : String)
    → contains (gather_all g xs).task_ids p ≡ true
    → (contains g.task_ids p ≡ true) ⊎ ((s : TaskState) × Memᴰ s xs × (s.task_id ≡ p))
unfolding gather_all gather
contains-task_ids g [] p h = inl h
contains-task_ids g (x ∷ xs) p h = elim (contains-task_ids (gather g x) xs p h) [
  | inl k ↦ pick (x.task_id == p) (eq_of_beq x.task_id p) k
  | inr (s, m, same) ↦ inr (s, Memᴰ.tail m, same)
]
  where
    pick :
        (b : Bool)
        → (b ≡ true → x.task_id ≡ p)
        → (b || contains g.task_ids p) ≡ true
        → (contains g.task_ids p ≡ true) ⊎ ((s : TaskState) × Memᴰ s (x ∷ xs) × (s.task_id ≡ p))
    pick true same k = inr (x, Memᴰ.head refl, same refl)
    pick false same k = inl k
