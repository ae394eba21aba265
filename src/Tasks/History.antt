-- ===== src/Tasks/History.antt =====
-- What it means for the states of one Agent Task to be its history.
use lit_grove.Prelude.{◌≤◌, ◌≡◌, ◌⊎◌, none, some, List, [], ◌∷◌, map}
use lit_grove.Diagnostics.{ok}
use lit_grove.Tasks.State.{TaskState}
use lit_grove.Tasks.Rules.{validate_transition}
use lit_grove.Tasks.WellFormed.{IsWellFormed}
use lit_grove.Tasks.Chain.{Env, predecessor_of, revisions_from}

-- The fields that a Task keeps for good.
pub record IsSameTask (root s : TaskState) : Type 0 where
  pub schema_version : s.schema_version ≡ root.schema_version
  pub task_id : s.task_id ≡ root.task_id
  pub workspace_id : s.workspace_id ≡ root.workspace_id
  pub task_kind : s.task_kind ≡ root.task_kind
  pub result_contract : s.result_contract ≡ root.result_contract
  pub privacy_registry_version : s.privacy_registry_version ≡ root.privacy_registry_version
  pub executor_id : s.executor_id ≡ root.executor_id
  pub execution_scope : s.execution_scope ≡ root.execution_scope
  pub effective_content_classes : s.effective_content_classes ≡ root.effective_content_classes
  pub input_basis : s.input_basis ≡ root.input_basis
  pub input_basis_digest : s.input_basis_digest ≡ root.input_basis_digest
  pub idempotency_key : s.idempotency_key ≡ root.idempotency_key
  pub lineage : s.lineage ≡ root.lineage
  pub created_at : s.created_at ≡ root.created_at

-- `s` may follow `previous` in the Task that begins with `root`.
pub record IsStep (env : Env) (root previous s : TaskState) : Type 0 where
  pub predecessor : s.predecessor ≡ some (predecessor_of env previous)
  pub same_task : IsSameTask root s
  pub lease : (previous.lease ≡ none) ⊎ (s.lease ≡ previous.lease)
  pub staged_result : (previous.staged_result ≡ none) ⊎ (s.staged_result ≡ previous.staged_result)
  pub transition : validate_transition previous.status s.status ≡ ok tt
  pub well_formed : IsWellFormed env.basis_digest s
  pub time : env.parse_timestamp previous.updated_at ≤ env.parse_timestamp s.updated_at

pub data Follows (env : Env) (root : TaskState) : TaskState → List TaskState → Type 0 where
  last : {previous : TaskState} → Follows env root previous []
  next :
      {previous s : TaskState} {states : List TaskState}
      → IsStep env root previous s
      → Follows env root s states
      → Follows env root previous (s ∷ states)

-- The states of one Task, in the order of their revisions, are its history.
abbrev pub IsHistory : Env → List TaskState → Type 0
IsHistory env [] = Unit
IsHistory env (root ∷ states) =
    (map (λ (s : TaskState). s.revision) (root ∷ states) ≡ revisions_from 1 (root ∷ states))
    × IsWellFormed env.basis_digest root
    × Follows env root root states
