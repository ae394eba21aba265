-- ===== src/Tasks/Firsts.antt =====
-- The first states of the Tasks of a store on which the report (agent_tasks.py) is empty.
use lit_grove.Prelude.{
  ℕ, ◌≤◌, String, ◌≡◌, refl, sym, ap, ◌∙◌, subst, inl, inr, ◌⊎◌, Bool, true, false, not, Option,
  none, some, List, [], ◌∷◌, contains, All, All-map, All-Memᴰ, All-self, Memᴰ, Memᴰ-sort_by,
  sort_by-Memᴰ, sort_by, append-empty, flat_map-eq-nil, if◌then◌else◌, ◌==◌, string_eq, nat_eq,
  arith, group_from-Memᴰ, All-of_group_from,
}
use lit_grove.Diagnostics.{Diagnostic}
use lit_grove.Tasks.State.{Lineage, predecessor_task_id, TaskState}
use lit_grove.Tasks.Chain.{
  Env, Gathered, gather_all, nothing_gathered, in_order, ordered_diagnostics, task_diagnostics,
}
use lit_grove.Tasks.History.{IsHistory}
use lit_grove.Tasks.Ordered.{ordered_diagnostics-IsHistory}
use lit_grove.Tasks.Report.{
  first_least, roots, lineage_diagnostics, lineage_of_state, lineage_of_states, appended,
  agent_task_chain_diagnostics,
}
use lit_grove.Tasks.Stored.{by_task-gather_all, agent_task_chain_diagnostics-IsEmptyReport}
use lit_grove.Tasks.Ancestry.{IsFirst}
use lit_grove.Tasks.Roots.{
  revisions_from-least, first_least-Memᴰ, first_least-le, roots-Memᴰ, Memᴰ-roots, contains-task_ids,
}

module _ (env : Env) where
  lineage_of_states-each :
      (g : Gathered) (states : List TaskState)
      → lineage_of_states env g states ≡ some []
      → All (λ (s : TaskState). lineage_of_state env g s ≡ some []) states
  unfolding lineage_of_states
  lineage_of_states-each g [] h = tt
  lineage_of_states-each g (s ∷ states) h =
      let (here, later) = parts (lineage_of_state env g s) (lineage_of_states env g states) h in
      (here, lineage_of_states-each g states later)
    where
      parts :
          (a b : Option (List Diagnostic)) → appended a b ≡ some [] → (a ≡ some []) × (b ≡ some [])
      parts none b k = cc
      parts (some xs) none k = cc
      parts (some xs) (some ys) k =
          let (p, q) = (append-empty xs ys).0 (inner k) in (ap some p, ap some q)
        where
          inner : {xs ys : List Diagnostic} → some xs ≡ some ys → xs ≡ ys
          inner q = cc

  -- A first state that passes the third loop has a predecessor in the store.
  lineage_of_state-resolved :
      (g : Gathered) (s : TaskState) (l : Lineage)
      → s.revision ≡ 1
      → s.lineage ≡ some l
      → lineage_of_state env g s ≡ some []
      → contains g.task_ids (predecessor_task_id l) ≡ true
  unfolding lineage_of_state lineage_diagnostics
  lineage_of_state-resolved g s l one e h =
      resolved (contains g.task_ids (predecessor_task_id l)) _ _ (
        ap (lineage_diagnostics env g s) (sym e)
        ∙ on_first (s.revision == 1) ((nat_eq.beq_iff _ _).1 one) h)
    where
      on_first :
          {o : Option (List Diagnostic)} (b : Bool)
          → b ≡ true
          → (if b then o else some []) ≡ some []
          → o ≡ some []
      on_first true p k = k
      on_first false p k = cc

      resolved :
          (b : Bool) (x : Diagnostic) (o : Option (List Diagnostic))
          → (if not b then some (x ∷ []) else o) ≡ some []
          → b ≡ true
      resolved true x o k = refl
      resolved false x o k = cc

  history-least :
      (xs : List TaskState) → IsHistory env xs → All (λ (s : TaskState). 1 ≤ s.revision) xs
  history-least [] h = tt
  history-least (x ∷ xs) h = revisions_from-least 1 (x ∷ xs) h.0

  history-first :
      (xs : List TaskState) (s : TaskState)
      → IsHistory env xs
      → Memᴰ s xs
      → (x : TaskState) × Memᴰ x xs × (x.revision ≡ 1)
  history-first [] s h m = elim m [ ]
  history-first (x ∷ xs) s h m = (x, Memᴰ.head refl, here h.0)
    where
      here : {a b : ℕ} {xs ys : List ℕ} → a ∷ xs ≡ b ∷ ys → a ≡ b
      here q = cc

  -- The root of a history has revision 1.
  first_least-revision :
      (s : TaskState) (ss : List TaskState)
      → IsHistory env (sort_by in_order (s ∷ ss))
      → (first_least s ss).revision ≡ 1
  first_least-revision s ss h =
      let r = first_least s ss in
      let m = Memᴰ-sort_by in_order r (s ∷ ss) (first_least-Memᴰ s ss) in
      let (x, n, one) = history-first (sort_by in_order (s ∷ ss)) r h m in
      squeeze
        (All-Memᴰ (λ (y : TaskState). r.revision ≤ y.revision) (s ∷ ss) x (first_least-le s ss)
          (sort_by-Memᴰ in_order x (s ∷ ss) n))
        one
        (All-Memᴰ (λ (y : TaskState). 1 ≤ y.revision) (sort_by in_order (s ∷ ss)) r
          (history-least (sort_by in_order (s ∷ ss)) h) m)
    where
      squeeze : {a b : ℕ} → a ≤ b → b ≡ 1 → 1 ≤ a → a ≡ 1
      squeeze p q k = omega arith

  module _ (states : List TaskState) (h : agent_task_chain_diagnostics env states ≡ some []) where
    abbrev gathered : Gathered
    gathered = gather_all nothing_gathered states

    members :
        All
          (λ (g : String × List TaskState).
            All (λ (x : TaskState). Memᴰ x states × (x.task_id ≡ g.0)) g.1)
          gathered.by_task
    members =
        subst
          (All (λ (g : String × List TaskState).
            All (λ (x : TaskState). Memᴰ x states × (x.task_id ≡ g.0)) g.1))
          (sym (by_task-gather_all nothing_gathered states))
          (All-of_group_from (λ (s : TaskState). s.task_id)
            (λ t (x : TaskState). Memᴰ x states × (x.task_id ≡ t)) [] states tt
            (All-map states (λ x m. (m, refl)) (All-self states)))

    -- Each root is the first state of its Task.
    pub roots-IsFirst :
        (t : String) (r : TaskState) → Memᴰ (t, r) (roots gathered.by_task) → IsFirst states t r
    unfolding task_diagnostics ordered_diagnostics
    roots-IsFirst t r m =
        let (s, ss, n, q) = roots-Memᴰ t r gathered.by_task m in
        let (here, same) =
          All-Memᴰ (λ (x : TaskState). Memᴰ x states × (x.task_id ≡ t)) (s ∷ ss) (first_least s ss)
            (All-Memᴰ
              (λ (g : String × List TaskState).
                All (λ (x : TaskState). Memᴰ x states × (x.task_id ≡ g.0)) g.1)
              gathered.by_task (t, s ∷ ss) members n)
            (first_least-Memᴰ s ss) in
        let quiet =
          All-Memᴰ (λ (g : String × List TaskState). task_diagnostics env g ≡ []) gathered.by_task
            (t, s ∷ ss)
            ((flat_map-eq-nil (task_diagnostics env) gathered.by_task).0
              (agent_task_chain_diagnostics-IsEmptyReport env states h).histories)
            n in
        subst (IsFirst states t) (sym q) (record {
          stored = here;
          task = same;
          revision =
              first_least-revision s ss
                ((ordered_diagnostics-IsHistory env (sort_by in_order (s ∷ ss))).0 quiet);
        })

    -- Each state's Task has a root.
    pub Memᴰ-of_roots :
        (s : TaskState)
        → Memᴰ s states
        → (r : TaskState) × Memᴰ (s.task_id, r) (roots gathered.by_task)
    Memᴰ-of_roots s m =
        let (ys, n, k) = group_from-Memᴰ (λ (x : TaskState). x.task_id) s states m in
        nonempty ys
          (subst (Memᴰ (s.task_id, ys)) (sym (by_task-gather_all nothing_gathered states)) n) k
      where
        nonempty :
            (ys : List TaskState)
            → Memᴰ (s.task_id, ys) gathered.by_task
            → Memᴰ s ys
            → (r : TaskState) × Memᴰ (s.task_id, r) (roots gathered.by_task)
        nonempty [] n k = elim k [ ]
        nonempty (y ∷ ys) n k = (first_least y ys, Memᴰ-roots s.task_id y ys gathered.by_task n)

    -- The predecessor of a first state is a Task of the store.
    pub predecessor-stored :
        (s : TaskState) (l : Lineage)
        → Memᴰ s states
        → s.revision ≡ 1
        → s.lineage ≡ some l
        → (p : TaskState) × Memᴰ p states × (p.task_id ≡ predecessor_task_id l)
    predecessor-stored s l m one e = stored (
        contains-task_ids nothing_gathered states (predecessor_task_id l) (
          lineage_of_state-resolved gathered s l one e (
            All-Memᴰ (λ (x : TaskState). lineage_of_state env gathered x ≡ some []) states s
              (lineage_of_states-each gathered states
                (agent_task_chain_diagnostics-IsEmptyReport env states h).lineage)
              m)))
      where
        stored :
            {P : Type 0}
            → (contains nothing_gathered.task_ids (predecessor_task_id l) ≡ true) ⊎ P
            → P
        stored (inl q) = cc
        stored (inr p) = p
