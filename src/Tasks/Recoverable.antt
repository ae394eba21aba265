-- ===== src/Tasks/Recoverable.antt =====
-- The lineage loop of `agent_task_chain_diagnostics` does not fail where each Task has a valid history.
use mathlib.Core.Option
use lit_grove.Prelude.{
  String, ◌≡◌, refl, sym, ap, ◌∙◌, subst, Bool, true, false, not, Bool-cases, ◌⊎◌, inl, inr, Option,
  none, some, is_some, List, [], ◌∷◌, flat_map, append-empty, lookup, contains, All, All-get_last,
  get_last?, sort_by, ◌==◌, string_eq, nat_eq, eq_of_beq, if◌then◌else◌, arith,
}
use lit_grove.Diagnostics.{Diagnostic}
use lit_grove.Tasks.State.{
  Status, revision_requested, superseded, status_eq, Decision, Lineage, of_result, of_refresh,
  TaskState, predecessor_task_id,
}
use lit_grove.Tasks.WellFormed.{FitsStatus, IsDecided, IsWellFormed}
use lit_grove.Tasks.Chain.{Env, Gathered, nothing_gathered, gather_all, in_order, task_diagnostics}
use lit_grove.Tasks.History.{Follows, next, IsHistory}
use lit_grove.Tasks.Ordered.{ordered_diagnostics-IsHistory}
use lit_grove.Tasks.Report.{
  or_no_states, expected_status, decided_diagnostics, head_diagnostics, lineage_diagnostics,
  lineage_of_state, appended, lineage_of_states, agent_task_chain_diagnostics, unreciprocated,
}

lookup-cons :
    {B : Type 0} (j k : String) (w v : B) (d : List (String × B))
    → lookup k ((j, w) ∷ d) ≡ some v
    → (◌≡◌ {A = String × B} (j, w) (k, v)) ⊎ (lookup k d ≡ some v)
unfolding lookup
lookup-cons {B} j k w v d e = elim (Bool-cases (j == k)) [
  | inl same ↦ inl (pair_eq (eq_of_beq j k same) (value_of _ (j == k) same e))
  | inr other ↦ inr (rest_of _ (j == k) other e)
]
  where
    value_of : (o : Option B) (b : Bool) → b ≡ true → (if b then some w else o) ≡ some v → w ≡ v
    value_of o b p q = ground arith

    rest_of :
        (o : Option B) (b : Bool) → b ≡ false → (if b then some w else o) ≡ some v → o ≡ some v
    rest_of o b p q = ground arith

    pair_eq : j ≡ k → w ≡ v → ◌≡◌ {A = String × B} (j, w) (k, v)
    pair_eq p q = cc

flat_map-lookup :
    {B C : Type 0} (f : String × B → List C) (d : List (String × B)) (k : String) (v : B)
    → flat_map f d ≡ []
    → lookup k d ≡ some v
    → f (k, v) ≡ []
unfolding mathlib.Core.List.flat_map lookup
flat_map-lookup f [] k v h e = cc
flat_map-lookup f ((j, w) ∷ d) k v h e =
    let (here, later) = (append-empty (f (j, w)) _).0 h in
    elim (lookup-cons j k w v d e) [
      | inl same ↦ sym (ap f same) ∙ here
      | inr again ↦ flat_map-lookup f d k v later again
    ]

All-Follows :
    (env : Env) (root previous : TaskState) (states : List TaskState)
    → Follows env root previous states
    → All (IsWellFormed env.basis_digest) states
All-Follows env root previous [] h = tt
All-Follows env root previous (s ∷ states) h = elim h [
  | next step rest ↦ (step.well_formed, All-Follows env root s states rest)
]

All-IsHistory :
    (env : Env) (states : List TaskState)
    → IsHistory env states
    → All (IsWellFormed env.basis_digest) states
All-IsHistory env [] h = tt
All-IsHistory env (root ∷ states) h = (h.1, All-Follows env root root states h.2)

-- A well-formed state that asks for a successor has a decision.
decided_some :
    (status : Status) (kind : String) (o : Option Decision)
    → IsDecided status kind o
    → is_some o ≡ true
decided_some status kind none h = absurd h
decided_some status kind (some d) h = refl

decided_of :
    (lineage : Lineage) (status : Status) (s : TaskState)
    → status ≡ expected_status lineage
    → FitsStatus status s
    → is_some s.decision ≡ true
decided_of (of_result p d f) status s e fits =
    decided_some revision_requested s.task_kind s.decision
      (subst (λ (t : Status). FitsStatus t s) e fits).2
decided_of (of_refresh p d) status s e fits =
    decided_some superseded s.task_kind s.decision (subst (λ (t : Status). FitsStatus t s) e fits)

abbrev Runs : Option (List Diagnostic) → Type 0
Runs o = is_some o ≡ true

if_Runs : (b : Bool) (x y : Option (List Diagnostic)) → Runs x → Runs y → Runs (if b then x else y)
if_Runs true x y hx hy = hx
if_Runs false x y hx hy = hy

both_Runs : (x y : Option (List Diagnostic)) → Runs x → Runs y → Runs (appended x y)
both_Runs none y hx hy = cc
both_Runs (some xs) none hx hy = cc
both_Runs (some xs) (some ys) hx hy = refl

module _ (env : Env) where
  Runs-decided_diagnostics :
      (lineage : Lineage) (s head : TaskState) (o : Option Decision)
      → is_some o ≡ true
      → Runs (decided_diagnostics env lineage s head o)
  Runs-decided_diagnostics lineage s head none h = cc
  Runs-decided_diagnostics lineage s head (some d) h = refl

  Runs-head_diagnostics :
      (lineage : Lineage) (s : TaskState) (o : Option TaskState)
      → ((head : TaskState) → o ≡ some head → IsWellFormed env.basis_digest head)
      → Runs (head_diagnostics env lineage s o)
  unfolding head_diagnostics
  Runs-head_diagnostics lineage s none h = refl
  Runs-head_diagnostics lineage s (some head) h = go (head.status == expected_status lineage) refl
    where
      go :
          (b : Bool)
          → (head.status == expected_status lineage) ≡ b
          → Runs (
              if b
              then decided_diagnostics env lineage s head head.decision
              else some (unreciprocated s ∷ []))
      go true e = Runs-decided_diagnostics lineage s head head.decision (
          decided_of lineage head.status head (eq_of_beq head.status (expected_status lineage) e)
            (h head refl).fits)
      go false e = refl

  module _ (g : Gathered) (valid : flat_map (task_diagnostics env) g.by_task ≡ []) where
    valid_states :
        (p : String) (o : Option (List TaskState))
        → lookup p g.by_task ≡ o
        → All (IsWellFormed env.basis_digest) (sort_by in_order (or_no_states o))
    unfolding task_diagnostics
    valid_states p none e = tt
    valid_states p (some states) e = All-IsHistory env (sort_by in_order states) (
        (ordered_diagnostics-IsHistory env (sort_by in_order states)).0
          (flat_map-lookup (task_diagnostics env) g.by_task p states valid e))

    Runs-lineage_diagnostics :
        (s : TaskState) (o : Option Lineage) → Runs (lineage_diagnostics env g s o)
    unfolding lineage_diagnostics
    Runs-lineage_diagnostics s none = refl
    Runs-lineage_diagnostics s (some lineage) =
        let p = predecessor_task_id lineage in
        if_Runs (not (contains g.task_ids p)) _ _ refl (
          if_Runs (p == s.task_id) _ _ refl (
            Runs-head_diagnostics lineage s
              (get_last? (sort_by in_order (or_no_states (lookup p g.by_task))))
              (λ head e.
                All-get_last (IsWellFormed env.basis_digest) _ head e
                  (valid_states p (lookup p g.by_task) refl))))

    Runs-lineage_of_states : (states : List TaskState) → Runs (lineage_of_states env g states)
    unfolding lineage_of_states lineage_of_state
    Runs-lineage_of_states [] = refl
    Runs-lineage_of_states (s ∷ states) =
        both_Runs _ _ (if_Runs (s.revision == 1) _ _ (Runs-lineage_diagnostics s s.lineage) refl)
          (Runs-lineage_of_states states)

-- Where the states of each Agent Task are its history, `agent_task_chain_diagnostics` does not fail: it
-- returns a report.
pub agent_task_chain_diagnostics-Returns :
    (env : Env) (states : List TaskState)
    → flat_map (task_diagnostics env) (gather_all nothing_gathered states).by_task ≡ []
    → (report : List Diagnostic) × (agent_task_chain_diagnostics env states ≡ some report)
unfolding agent_task_chain_diagnostics
agent_task_chain_diagnostics-Returns env states valid =
    mapped _ _ (Runs-lineage_of_states env (gather_all nothing_gathered states) valid states)
  where
    mapped :
        (f : List Diagnostic → List Diagnostic) (o : Option (List Diagnostic))
        → Runs o
        → (report : List Diagnostic) × (Option.map f o ≡ some report)
    mapped f none h = cc
    mapped f (some xs) h = (f xs, refl)
