-- ===== src/Tasks/Ancestry.antt =====
-- The Task that a lineage leads back to (agent_tasks.py).
use lit_grove.Prelude.{
  ℕ, zero, suc, String, ◌≡◌, refl, sym, ap, ◌∙◌, subst, Bool, true, false, Option, none, some, List,
  [], ◌∷◌, contains, Memᴰ, lookup, if◌then◌else◌, ◌==◌, string_eq, nat_eq, eq_of_beq,
}
use lit_grove.Tasks.State.{Lineage, predecessor_task_id, TaskState}
use lit_grove.Tasks.Chain.{gather_all, nothing_gathered}
use lit_grove.Tasks.Report.{Descent, origin, cyclic, descend, roots, lineage_predecessors}

-- The first state of a Task in a store.
pub record IsFirst (states : List TaskState) (task_id : String) (s : TaskState) : Type 0 where
  pub stored : Memᴰ s states
  pub task : s.task_id ≡ task_id
  pub revision : s.revision ≡ 1

-- The lineages of a Task's first state and of its predecessors' lead, in finitely many steps, to the first
-- state of a Task of the store that has no lineage.
pub data Ancestry (states : List TaskState) : String → Type 0 where
  first :
      {task_id : String} {s : TaskState}
      → IsFirst states task_id s
      → s.lineage ≡ none
      → Ancestry states task_id
  after :
      {task_id : String} {s : TaskState} {l : Lineage}
      → IsFirst states task_id s
      → s.lineage ≡ some l
      → Ancestry states (predecessor_task_id l)
      → Ancestry states task_id

-- What `lineage_predecessors` has of the first states.
lookup-lineage :
    (t p : String) (tasks : List (String × TaskState))
    → lookup t (lineage_predecessors tasks) ≡ some p
    → (r : TaskState) × (l : Lineage) × Memᴰ (t, r) tasks
      × (r.lineage ≡ some l)
      × (predecessor_task_id l ≡ p)
unfolding lookup lineage_predecessors
lookup-lineage t p [] h = cc
lookup-lineage t p ((k, r) ∷ tasks) h = go r.lineage refl h (lookup-lineage t p tasks)
  where
    entries : Option Lineage → List (String × String)
    entries o = elim o [
      | none ↦ lineage_predecessors tasks
      | some l ↦ (k, predecessor_task_id l) ∷ lineage_predecessors tasks
    ]

    Found : List (String × TaskState) → Type 0
    Found ts =
        (r : TaskState) × (l : Lineage) × Memᴰ (t, r) ts
        × (r.lineage ≡ some l)
        × (predecessor_task_id l ≡ p)

    later : Found tasks → Found ((k, r) ∷ tasks)
    later (r', l, m, e, q) = (r', l, Memᴰ.tail m, e, q)

    inner : {a : String} → some a ≡ some p → a ≡ p
    inner q = cc

    go :
        (o : Option Lineage)
        → r.lineage ≡ o
        → lookup t (entries o) ≡ some p
        → (lookup t (lineage_predecessors tasks) ≡ some p → Found tasks)
        → Found ((k, r) ∷ tasks)
    go none e h again = later (again h)
    go (some l) e h again = pick (k == t) (eq_of_beq k t) h
      where
        pick :
            (b : Bool)
            → (b ≡ true → k ≡ t)
            → (if b then some (predecessor_task_id l) else lookup t (lineage_predecessors tasks))
              ≡ some p
            → Found ((k, r) ∷ tasks)
        pick true same h = (r, l, Memᴰ.head (λ i. (sym (same refl) i, r)), e, inner h)
        pick false same h = later (again h)

lookup-no_lineage :
    (t : String) (r : TaskState) (tasks : List (String × TaskState))
    → lookup t (lineage_predecessors tasks) ≡ none
    → Memᴰ (t, r) tasks
    → r.lineage ≡ none
unfolding lookup lineage_predecessors
lookup-no_lineage t r [] h m = elim m [ ]
lookup-no_lineage t r ((k, x) ∷ tasks) h m = go x.lineage refl h m (lookup-no_lineage t r tasks)
  where
    go :
        (o : Option Lineage)
        → x.lineage ≡ o
        → lookup t (elim o as (λ _. List (String × String)) [
          | none ↦ lineage_predecessors tasks
          | some l ↦ (k, predecessor_task_id l) ∷ lineage_predecessors tasks
        ])
          ≡ none
        → Memᴰ (t, r) ((k, x) ∷ tasks)
        → (lookup t (lineage_predecessors tasks) ≡ none → Memᴰ (t, r) tasks → r.lineage ≡ none)
        → r.lineage ≡ none
    go none e h (Memᴰ.head q) again = ap (λ (y : String × TaskState). y.1.lineage) q ∙ e
    go none e h (Memᴰ.tail n) again = again h n
    go (some l) e h (Memᴰ.head q) again = absurd (
        taken (k == t) ((string_eq.beq_iff k t).1 (sym (ap (λ (y : String × TaskState). y.0) q))) h)
      where
        taken :
            (b : Bool)
            → b ≡ true
            → (if b then some (predecessor_task_id l) else lookup t (lineage_predecessors tasks))
              ≡ none
            → ⊥
        taken true p q = cc
        taken false p q = cc
    go (some l) e h (Memᴰ.tail n) again = again (rest (k == t) h) n
      where
        rest :
            (b : Bool)
            → (if b then some (predecessor_task_id l) else lookup t (lineage_predecessors tasks))
              ≡ none
            → lookup t (lineage_predecessors tasks) ≡ none
        rest true q = cc
        rest false q = q

module _ (states : List TaskState) where
  abbrev tasks : List (String × TaskState)
  tasks = roots (gather_all nothing_gathered states).by_task

  module _ (firsts : (t : String) (r : TaskState) → Memᴰ (t, r) tasks → IsFirst states t r)
      (there : (s : TaskState) → Memᴰ s states → (r : TaskState) × Memᴰ (s.task_id, r) tasks)
      (resolved : (s : TaskState) (l : Lineage)
        → Memᴰ s states
        → s.revision ≡ 1
        → s.lineage ≡ some l
        → (p : TaskState) × Memᴰ p states × (p.task_id ≡ predecessor_task_id l)) where
    pub descend-Ancestry :
        (fuel : ℕ) (seen : List String) (s : TaskState) (o : String)
        → Memᴰ s states
        → descend fuel (lineage_predecessors tasks) seen s.task_id ≡ origin o
        → Ancestry states s.task_id
    unfolding descend
    descend-Ancestry zero seen s o m h = cc
    descend-Ancestry (suc fuel) seen s o m h =
        go (lookup s.task_id (lineage_predecessors tasks)) refl h (descend-Ancestry fuel)
      where
        go :
            (x : Option String)
            → lookup s.task_id (lineage_predecessors tasks) ≡ x
            → elim x as (λ _. Descent) [
              | none ↦ origin s.task_id
              | some predecessor ↦ elim (contains seen s.task_id) [
                | true ↦ cyclic
                | false ↦ descend fuel (lineage_predecessors tasks) (s.task_id ∷ seen) predecessor
              ]
            ]
              ≡ origin o
            → ((seen : List String) (s : TaskState) (o : String)
                → Memᴰ s states
                → descend fuel (lineage_predecessors tasks) seen s.task_id ≡ origin o
                → Ancestry states s.task_id)
            → Ancestry states s.task_id
        go none e h again =
            let (r, k) = there s m in
            first (firsts s.task_id r k) (lookup-no_lineage s.task_id r tasks e k)
        go (some p) e h again =
            let (r, l, k, f, q) = lookup-lineage s.task_id p tasks e in
            let f1 = firsts s.task_id r k in
            let (before, n, same) = resolved r l f1.stored f1.revision f in
            after f1 f (
              subst (Ancestry states) same (
                again (s.task_id ∷ seen) before o n (
                  ap (descend fuel (lineage_predecessors tasks) (s.task_id ∷ seen)) (same ∙ q)
                  ∙ on_false (contains seen s.task_id) h)))
          where
            on_false :
                (b : Bool)
                → elim b as (λ _. Descent) [
                  | true ↦ cyclic
                  | false ↦ descend fuel (lineage_predecessors tasks) (s.task_id ∷ seen) p
                ]
                  ≡ origin o
                → descend fuel (lineage_predecessors tasks) (s.task_id ∷ seen) p ≡ origin o
            on_false true h = cc
            on_false false h = h
