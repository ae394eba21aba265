-- ===== src/Tasks/Stored.antt =====
-- The first two loops of `agent_task_chain_diagnostics` (agent_tasks.py) on a whole store.
use mathlib.Core.Option
use lit_grove.Prelude.{
  String, ◌≡◌, ◌↔◌, refl, sym, ap, ◌∙◌, subst, Option, none, some, List, [], ◌∷◌, ◌++◌, All,
  Pairwise, select, sort_by, flat_map, append-empty, flat_map-eq-nil, group_from, All-group_from,
  string_eq, ◌==◌,
}
use lit_grove.Diagnostics.{Diagnostic, deduplicate, reports-eq-nil}
use lit_grove.Diagnostics.Deduplicate.{deduplicate-eq-nil}
use lit_grove.Jobs.Chain.Bound.{Fresh, Compatible, Fresh-Pairwise}
use lit_grove.Tasks.State.{TaskState}
use lit_grove.Tasks.Chain.{
  Env, Gathered, gather, gather_tests, gather_all, nothing_gathered, in_order, ordered_diagnostics,
  task_diagnostics,
}
use lit_grove.Tasks.History.{IsHistory}
use lit_grove.Tasks.Ordered.{ordered_diagnostics-IsHistory}
use lit_grove.Tasks.Report.{
  cycle_reports, roots, lineage_predecessors, lineage_of_states, by_task_id,
  agent_task_chain_diagnostics,
}

-- Two states have different IDs, and where their idempotency keys are the same, they are of one Task.
abbrev pub AreCompatible : TaskState → TaskState → Type 0
AreCompatible =
    Compatible (λ (s : TaskState). s.state_id) (λ (s : TaskState). s.idempotency_key)
      (λ (s : TaskState). s.task_id)

abbrev AreFresh : Gathered → List TaskState → Type 0
AreFresh g =
    Fresh (λ (s : TaskState). s.state_id) (λ (s : TaskState). s.idempotency_key)
      (λ (s : TaskState). s.task_id) g.state_ids g.idempotency_tasks

gather_all-AreFresh :
    (g : Gathered) (xs : List TaskState)
    → ((gather_all g xs).diagnostics ≡ []) ↔ ((g.diagnostics ≡ []) × AreFresh g xs)
unfolding gather_all gather gather_tests
gather_all-AreFresh g [] = (λ h. (h, tt), λ h. h.0)
gather_all-AreFresh g (x ∷ xs) =
    let again = gather_all-AreFresh (gather g x) xs in
    let tests = reports-eq-nil (gather_tests g x) in
    (
      λ h.
          (let (here, later) = again.0 h in
            let (before, new) = (append-empty g.diagnostics _).0 here in
            let (a, (b, c)) = tests.0 new in (before, (a, b, later))),
      λ h. again.1 ((append-empty g.diagnostics _).1 (h.0, tests.1 (h.1.0, (h.1.1, tt))), h.1.2),
    )

-- The first loop of the report finds nothing exactly if the states are compatible.
pub gather_all-AreCompatible :
    (states : List TaskState)
    → ((gather_all nothing_gathered states).diagnostics ≡ []) ↔ Pairwise AreCompatible states
gather_all-AreCompatible states =
    let first = gather_all-AreFresh nothing_gathered states in
    let compatible =
      Fresh-Pairwise (λ (s : TaskState). s.state_id) (λ (s : TaskState). s.idempotency_key)
        (λ (s : TaskState). s.task_id) states in
    (λ h. compatible.0 (first.0 h).1, λ h. first.1 (refl, compatible.1 h))

pub by_task-gather_all :
    (g : Gathered) (xs : List TaskState)
    → (gather_all g xs).by_task ≡ group_from (λ (s : TaskState). s.task_id) g.by_task xs
unfolding gather_all gather group_from
by_task-gather_all g [] = refl
by_task-gather_all g (x ∷ xs) = by_task-gather_all (gather g x) xs

module _ (env : Env) where
  -- The report on the Tasks is empty exactly if each has its history.
  task_diagnostics-IsHistory :
      (states : List TaskState)
      → (flat_map (task_diagnostics env) (gather_all nothing_gathered states).by_task ≡ []) ↔ (
          (task_id : String)
          → IsHistory env
              (sort_by in_order (select (λ (s : TaskState). s.task_id == task_id) states)))
  unfolding task_diagnostics ordered_diagnostics
  task_diagnostics-IsHistory states =
      let groups =
        flat_map-eq-nil (task_diagnostics env) (gather_all nothing_gathered states).by_task in
      let by_task =
        All-group_from (λ (s : TaskState). s.task_id)
          (λ xs. ordered_diagnostics env (sort_by in_order xs) ≡ []) states refl in
      (
        λ h task_id. (ordered_diagnostics-IsHistory env _).0 (
            by_task.0 (subst each (by_task-gather_all nothing_gathered states) (groups.0 h))
              task_id),
        λ h. groups.1 (
            subst each (sym (by_task-gather_all nothing_gathered states))
              (by_task.1 (λ task_id. (ordered_diagnostics-IsHistory env _).1 (h task_id)))),
      )
    where
      each : List (String × List TaskState) → Type 0
      each gs = All (λ (g : String × List TaskState). task_diagnostics env g ≡ []) gs

  -- The parts of an empty report.
  pub record IsEmptyReport (states : List TaskState) : Type 0 where
    pub gathered : (gather_all nothing_gathered states).diagnostics ≡ []
    pub histories :
        flat_map (task_diagnostics env) (gather_all nothing_gathered states).by_task ≡ []
    pub lineage : lineage_of_states env (gather_all nothing_gathered states) states ≡ some []
    pub cycles :
        cycle_reports
          (lineage_predecessors (roots (gather_all nothing_gathered states).by_task))
          (sort_by by_task_id (roots (gather_all nothing_gathered states).by_task))
        ≡ []

  pub agent_task_chain_diagnostics-IsEmptyReport :
      (states : List TaskState)
      → agent_task_chain_diagnostics env states ≡ some []
      → IsEmptyReport states
  unfolding agent_task_chain_diagnostics
  agent_task_chain_diagnostics-IsEmptyReport states h =
      go (lineage_of_states env (gather_all nothing_gathered states) states) refl h
    where
      g : Gathered
      g = gather_all nothing_gathered states

      some_inj : {a b : List Diagnostic} → some a ≡ some b → a ≡ b
      some_inj h = cc

      go :
          (o : Option (List Diagnostic))
          → lineage_of_states env g states ≡ o
          → Option.map
              (λ (lineage : List Diagnostic). deduplicate (
                g.diagnostics
                ++ (flat_map (task_diagnostics env) g.by_task
                    ++ (lineage
                        ++ cycle_reports
                            (lineage_predecessors (roots g.by_task))
                            (sort_by by_task_id (roots g.by_task))))))
              o
            ≡ some []
          → IsEmptyReport states
      go none e h = cc
      go (some lineage) e h =
          let (first, others) =
            (append-empty g.diagnostics _).0 ((deduplicate-eq-nil _).0 (some_inj h)) in
          let (second, last) =
            (append-empty (flat_map (task_diagnostics env) g.by_task) _).0 others in
          let (third, fourth) = (append-empty lineage _).0 last in
          record {
            gathered = first;
            histories = second;
            lineage = e ∙ ap some third;
            cycles = fourth;
          }

  -- Where the report on a store of Agent Tasks is empty, the states have different IDs, states with the same
  -- idempotency key are of the same Task, and for every Task ID the states with it, sorted by revision, are a
  -- history.
  pub agent_task_chain_diagnostics-IsHistory :
      (states : List TaskState)
      → agent_task_chain_diagnostics env states ≡ some []
      → Pairwise AreCompatible states
        × ((task_id : String)
            → IsHistory env
                (sort_by in_order (select (λ (s : TaskState). s.task_id == task_id) states)))
  agent_task_chain_diagnostics-IsHistory states h =
      let r = agent_task_chain_diagnostics-IsEmptyReport states h in
      (
        (gather_all-AreCompatible states).0 r.gathered,
        (task_diagnostics-IsHistory states).0 r.histories,
      )
