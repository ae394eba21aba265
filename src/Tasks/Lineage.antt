-- ===== src/Tasks/Lineage.antt =====
-- The last loop of the report on Agent Tasks (agent_tasks.py), which looks for cycles of lineages.
use lit_grove.Prelude.{
  ap, All-map, All-Memᴰ, All-self, Memᴰ, ℕ, zero, suc, ◌+◌, ◌<◌, String, ◌≡◌, ◌≢◌, refl, inl, inr,
  true, false, Option-cases, none, some, is_some, List, [], ◌∷◌, length, All, All-sorted_by,
  sort_by, append-empty, if◌then◌else◌, Bool, lookup, Distinct, is_subset, length-le-of_subset,
  string_eq, arith,
}
use lit_grove.Identity.Project.{keys}
use lit_grove.Identity.Walk.{length-keys, contains-keys}
use lit_grove.Diagnostics.{Diagnostic}
use lit_grove.Tasks.State.{TaskState}
use lit_grove.Tasks.Chain.{Env, Gathered, nothing_gathered, gather_all}
use lit_grove.Tasks.Stored.{agent_task_chain_diagnostics-IsEmptyReport}
use lit_grove.Tasks.Ancestry.{Ancestry, first, descend-Ancestry}
use lit_grove.Tasks.Firsts.{roots-IsFirst, Memᴰ-of_roots, predecessor-stored}
use lit_grove.Tasks.Report.{
  Descent, origin, cyclic, unfinished, descend, descent, cycle_diagnostics, cycle_reports, roots,
  lineage_predecessors, by_task_id, agent_task_chain_diagnostics,
}

-- The Tasks that the loop has seen have a predecessor, and no two are the same.
abbrev IsSeen : List (String × String) → List String → Type 0
IsSeen predecessors seen = Distinct seen × (is_subset seen (keys predecessors) ≡ true)

descend-ends :
    (fuel : ℕ) (predecessors : List (String × String)) (seen : List String) (current : String)
    → IsSeen predecessors seen
    → length predecessors < fuel + length seen
    → descend fuel predecessors seen current ≢ unfinished
unfolding descend
descend-ends zero predecessors seen current h k e =
    absurd (
      omega (arith, length-le-of_subset seen (keys predecessors) h.0 h.1, length-keys predecessors))
descend-ends (suc fuel) predecessors seen current h k e =
    elim (Option-cases (lookup current predecessors)) [
      | inl missing ↦ ground arith
      | inr (predecessor, found) ↦ ground (
        arith,
        contains-keys current predecessors,
        descend-ends fuel predecessors (current ∷ seen) predecessor,
      )
    ]

-- A Task without a predecessor to which the loop comes back.
descend-origin :
    (fuel : ℕ) (predecessors : List (String × String)) (seen : List String) (current o : String)
    → descend fuel predecessors seen current ≡ origin o
    → lookup o predecessors ≡ none
unfolding descend
descend-origin zero predecessors seen current o h = cc
descend-origin (suc fuel) predecessors seen current o h =
    elim (Option-cases (lookup current predecessors)) [
      | inl missing ↦ ground arith
      | inr (predecessor, found) ↦
          ground (arith, descend-origin fuel predecessors (current ∷ seen) predecessor o)
    ]

-- Whatever the lineage, and from every Task, one round more than there are predecessors is enough for the
-- loop that looks for a cycle.
pub descent-ends :
    (predecessors : List (String × String)) (task_id : String)
    → descent predecessors task_id ≢ unfinished
unfolding descent
descent-ends predecessors task_id =
    descend-ends (suc (length predecessors)) predecessors [] task_id (tt, refl) (omega arith)

-- Each Task with a lineage goes back to one without a predecessor.
abbrev HasOrigin : List (String × String) → String × TaskState → Type 0
HasOrigin predecessors t =
    is_some t.1.lineage ≡ true
    → (o : String) × (descent predecessors t.0 ≡ origin o) × (lookup o predecessors ≡ none)

origin_of :
    (predecessors : List (String × String)) (task_id : String) (root : TaskState) (d : Descent)
    → descent predecessors task_id ≡ d
    → cycle_diagnostics root d ≡ []
    → (o : String) × (descent predecessors task_id ≡ origin o) × (lookup o predecessors ≡ none)
unfolding descent
origin_of predecessors task_id root (origin o) e h =
    (o, e, descend-origin (suc (length predecessors)) predecessors [] task_id o e)
origin_of predecessors task_id root cyclic e h = cc
origin_of predecessors task_id root unfinished e h = absurd (descent-ends predecessors task_id e)

cycle_reports-origins :
    (predecessors : List (String × String)) (tasks : List (String × TaskState))
    → cycle_reports predecessors tasks ≡ []
    → All (HasOrigin predecessors) tasks
unfolding cycle_reports
cycle_reports-origins predecessors [] h = tt
cycle_reports-origins predecessors ((task_id, root) ∷ others) h =
    let (here, later) =
      (append-empty
          (if is_some root.lineage
            then cycle_diagnostics root (descent predecessors task_id)
            else [])
          _).0
        h in
    (
      λ some_lineage.
          origin_of predecessors task_id root (descent predecessors task_id) refl
            (then_of (is_some root.lineage) some_lineage here),
      cycle_reports-origins predecessors others later,
    )
  where
    then_of : {xs : List Diagnostic} (b : Bool) → b ≡ true → (if b then xs else []) ≡ [] → xs ≡ []
    then_of true e k = k
    then_of false e k = cc

module _ (env : Env) (states : List TaskState) where
  abbrev pub gathered : Gathered
  gathered = gather_all nothing_gathered states

  abbrev tasks : List (String × TaskState)
  tasks = roots gathered.by_task

  -- Where the report on a store of Agent Tasks is empty, the lineage of each Task of the store leads back, from
  -- the predecessor that the Task's first state names to that one's predecessor and so on, in finitely many
  -- steps, to the first state of a Task of the store that has no lineage; each Task that is passed has a first
  -- state in the store.
  pub agent_task_chain_diagnostics-Ancestry :
      agent_task_chain_diagnostics env states ≡ some []
      → All (λ (s : TaskState). Ancestry states s.task_id) states
  unfolding descent
  agent_task_chain_diagnostics-Ancestry h =
      All-map states (λ s m. from_root s m (Memᴰ-of_roots env states h s m)) (All-self states)
    where
      origins : All (HasOrigin (lineage_predecessors tasks)) tasks
      origins = All-sorted_by by_task_id (HasOrigin (lineage_predecessors tasks)) tasks (
          cycle_reports-origins (lineage_predecessors tasks) (sort_by by_task_id tasks)
            (agent_task_chain_diagnostics-IsEmptyReport env states h).cycles)

      from_root :
          (s : TaskState)
          → Memᴰ s states
          → (r : TaskState) × Memᴰ (s.task_id, r) tasks
          → Ancestry states s.task_id
      from_root s m (r, k) = elim (Option-cases r.lineage) [
        | inl e ↦ first (roots-IsFirst env states h s.task_id r k) e
        | inr (l, e) ↦
            (let (o, leads, _) =
                All-Memᴰ (HasOrigin (lineage_predecessors tasks)) tasks (s.task_id, r) origins k
                  (ap is_some e) in
              descend-Ancestry states (roots-IsFirst env states h) (Memᴰ-of_roots env states h)
                (predecessor-stored env states h) (suc (length (lineage_predecessors tasks))) [] s o
                m leads)
      ]
