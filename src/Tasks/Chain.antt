-- ===== src/Tasks/Chain.antt =====
-- The first two loops of `agent_task_chain_diagnostics` (agent_tasks.py): the revisions of each Task.
use text.Mathlib.Text.{is_le}
use Prim.Native.String.{compare, ◌++◌ as append}
use lit_grove.Prelude.{
  ℕ, String, Bool, not, ◌&&◌, ◌||◌, Option, some, is_some, List, [], ◌∷◌, ◌++◌, map, contains,
  add_to_group, sort_by, ltb, ◌==◌, string_eq, nat_eq, option_eq, list_eq, if◌then◌else◌, suc,
}
use lit_grove.Diagnostics.{
  Diagnostic, diagnostic, incomplete_transaction, Result, ok, err, reports, ◌>>◌,
}
use lit_grove.Jobs.Chain.{set_default, is_bound_elsewhere}
use lit_grove.Tasks.State.{
  Predecessor, predecessor_eq, lease_eq, staged_eq, lineage_eq, StagedResult, TaskState,
}
use lit_grove.Tasks.Rules.{validate_task_state, validate_transition}

-- `canonical_digest` of a state, an input basis and a staged result, and `datetime.fromisoformat` as a
-- number on one scale.
pub record Env : Type 0 where
  pub state_digest : TaskState → String
  pub basis_digest : String → String
  pub result_digest : Option StagedResult → String
  pub parse_timestamp : String → ℕ

-- `_chain_diagnostic`
abbrev pub chain_diagnostic : TaskState → String → String → Diagnostic
chain_diagnostic s path message =
    diagnostic incomplete_transaction "agent-task-state" (some s.state_id) path message

-- `try: m` with `except ResearchKBError as error: diagnostics.append(_from_error(state, error))`
abbrev pub from_error : TaskState → Result (Unit {0}) → List Diagnostic
from_error s (ok u) = []
from_error s (err e) = chain_diagnostic s e.json_path e.message ∷ []

-- What the first loop has gathered.
pub record Gathered : Type 0 where
  pub diagnostics : List Diagnostic
  pub state_ids : List String
  pub task_ids : List String
  pub by_task : List (String × List TaskState)
  pub idempotency_tasks : List (String × String)

abbrev pub nothing_gathered : Gathered
nothing_gathered = record {
  diagnostics = [];
  state_ids = [];
  task_ids = [];
  by_task = [];
  idempotency_tasks = [];
}

-- What the first loop tests of one state. The schema allows no empty key.
unfoldable pub gather_tests : Gathered → TaskState → List (Bool × Diagnostic)
gather_tests g s =
    (
      contains g.state_ids s.state_id,
      chain_diagnostic s "/state_id" "duplicate Agent Task state ID",
    )
    ∷ (
      is_bound_elsewhere s.idempotency_key s.task_id g.idempotency_tasks,
      chain_diagnostic s "/idempotency_key" "Agent Task idempotency key is bound to another task",
    )
    ∷ []

-- One round of the first loop.
unfoldable pub gather : Gathered → TaskState → Gathered
gather g s = record {
  diagnostics = g.diagnostics ++ reports (gather_tests g s);
  state_ids = s.state_id ∷ g.state_ids;
  task_ids = s.task_id ∷ g.task_ids;
  by_task = add_to_group s.task_id s g.by_task;
  idempotency_tasks = set_default s.idempotency_key s.task_id g.idempotency_tasks;
}

unfoldable pub gather_all : Gathered → List TaskState → Gathered
gather_all g [] = g
gather_all g (s ∷ states) = gather_all (gather g s) states

-- The order of `(revision, state_id)`.
abbrev pub in_order : TaskState → TaskState → Bool
in_order a b =
    ltb a.revision b.revision || (a.revision == b.revision && is_le (compare a.state_id b.state_id))

-- `range(n, n + len(xs))`
abbrev pub revisions_from : ℕ → List TaskState → List ℕ
revisions_from n [] = []
revisions_from n (x ∷ xs) = n ∷ revisions_from (suc n) xs

-- One field of `_STABLE_FIELDS`
abbrev changed : Bool → TaskState → String → Bool × Diagnostic
changed same s field = (
  not same,
  chain_diagnostic s (append "/" field)
      (append "Agent Task field " (append field " changed after creation")),
)

unfoldable pub stable_tests : TaskState → TaskState → List (Bool × Diagnostic)
stable_tests root s =
    changed (s.schema_version == root.schema_version) s "schema_version"
    ∷ changed (s.task_id == root.task_id) s "task_id"
    ∷ changed (s.workspace_id == root.workspace_id) s "workspace_id"
    ∷ changed (s.task_kind == root.task_kind) s "task_kind"
    ∷ changed (s.result_contract == root.result_contract) s "result_contract"
    ∷ changed (s.privacy_registry_version == root.privacy_registry_version) s
        "privacy_registry_version"
    ∷ changed (s.executor_id == root.executor_id) s "executor_id"
    ∷ changed (s.execution_scope == root.execution_scope) s "execution_scope"
    ∷ changed (s.effective_content_classes == root.effective_content_classes) s
        "effective_content_classes"
    ∷ changed (s.input_basis == root.input_basis) s "input_basis"
    ∷ changed (s.input_basis_digest == root.input_basis_digest) s "input_basis_digest"
    ∷ changed (s.idempotency_key == root.idempotency_key) s "idempotency_key"
    ∷ changed (s.lineage == root.lineage) s "lineage"
    ∷ changed (s.created_at == root.created_at) s "created_at"
    ∷ []

-- A lease and a staged result stay as they are once they are there.
unfoldable pub kept_tests : TaskState → TaskState → List (Bool × Diagnostic)
kept_tests previous s =
    (
      is_some previous.lease && not (s.lease == previous.lease),
      chain_diagnostic s "/lease" "Agent Task lease changed after issue",
    )
    ∷ (
      is_some previous.staged_result && not (s.staged_result == previous.staged_result),
      chain_diagnostic s "/staged_result" "Agent Task staged result changed after submission",
    )
    ∷ []

module _ (env : Env) where
  abbrev pub predecessor_of : TaskState → Predecessor
  predecessor_of previous = record {
    state_id = previous.state_id;
    state_digest = env.state_digest previous;
  }

  unfoldable pub predecessor_tests : TaskState → TaskState → List (Bool × Diagnostic)
  predecessor_tests previous s =
      (
        not (s.predecessor == some (predecessor_of previous)),
        chain_diagnostic s "/predecessor" "Agent Task predecessor does not match prior revision",
      )
      ∷ []

  -- The two rules in one `try` block.
  abbrev pub rules : TaskState → TaskState → Result (Unit {0})
  rules previous s =
      validate_transition previous.status s.status >> validate_task_state env.basis_digest s

  unfoldable pub time_tests : TaskState → TaskState → List (Bool × Diagnostic)
  time_tests previous s =
      (
        ltb (env.parse_timestamp s.updated_at) (env.parse_timestamp previous.updated_at),
        chain_diagnostic s "/updated_at" "Agent Task update time moved backwards",
      )
      ∷ []

  -- The body of the loop for one state after the root.
  unfoldable pub step_diagnostics : TaskState → TaskState → TaskState → List Diagnostic
  step_diagnostics root previous s =
      reports (predecessor_tests previous s)
      ++ (reports (stable_tests root s)
          ++ (reports (kept_tests previous s)
              ++ (from_error s (rules previous s) ++ reports (time_tests previous s))))

  unfoldable pub walk : TaskState → TaskState → List TaskState → List Diagnostic
  walk root previous [] = []
  walk root previous (s ∷ states) = step_diagnostics root previous s ++ walk root s states

  unfoldable pub ordered_diagnostics : List TaskState → List Diagnostic
  ordered_diagnostics [] = []
  ordered_diagnostics (root ∷ states) =
      if map (λ (s : TaskState). s.revision) (root ∷ states) == revisions_from 1 (root ∷ states)
      then from_error root (validate_task_state env.basis_digest root) ++ walk root root states
      else chain_diagnostic root "/revision" "Agent Task revisions must be contiguous from one" ∷ []

  -- One round of the second loop.
  unfoldable pub task_diagnostics : String × List TaskState → List Diagnostic
  task_diagnostics (task_id, revisions) = ordered_diagnostics (sort_by in_order revisions)
