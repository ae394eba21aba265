-- ===== src/Tasks/WellFormed.antt =====
-- What `validate_task_state` (agent_tasks.py) accepts, said by status.
use lit_grove.Prelude.{
  String, ◌≡◌, true, false, not, Option, none, some, is_some, contains, is_subset, sort_by,
  string_eq, nat_eq, option_eq, list_eq,
}
use lit_grove.Tasks.Kinds.{TaskKindDefinition}
use lit_grove.Tasks.Registry.{allowed_for, text_le}
use lit_grove.Tasks.State.{
  Status, created, leased, submitted, revision_requested, superseded, rejected, approved, cancelled,
  status_eq, StagedResult, Decision, TaskState,
}
use lit_grove.Tasks.Rules.{is_terminal, is_blank, definition_of, no_job_kinds, expected_reason}

-- The decision to approve, reject or revise a Task of some kind.
abbrev pub Decides : Status → String → Decision → Type 0
Decides approved kind d =
    (d.action ≡ approved)
    × (d.successor_task_id ≡ none)
    × (d.feedback ≡ none)
    × (d.reason_code ≡ some (expected_reason kind))
    × (is_some d.applied_job_state_id ≡ not (contains no_job_kinds kind))
Decides rejected kind d =
    (d.action ≡ rejected)
    × (d.successor_task_id ≡ none)
    × (d.feedback ≡ none)
    × (d.reason_code ≡ some "user_rejected")
    × (d.applied_job_state_id ≡ none)
Decides revision_requested kind d =
    (d.action ≡ revision_requested)
    × (is_some d.successor_task_id ≡ true)
    × (is_blank d.feedback ≡ false)
    × (d.reason_code ≡ none)
    × (d.applied_job_state_id ≡ none)
Decides superseded kind d =
    (d.action ≡ superseded)
    × (is_some d.successor_task_id ≡ true)
    × (d.feedback ≡ none)
    × (d.reason_code ≡ some "input_refreshed")
    × (d.applied_job_state_id ≡ none)
Decides _ kind d = ⊥

abbrev pub IsDecided : Status → String → Option Decision → Type 0
IsDecided status kind none = ⊥
IsDecided status kind (some d) = Decides status kind d

abbrev pub HasResult : Status → TaskState → Type 0
HasResult status s =
    (is_some s.lease ≡ true)
    × (is_some s.staged_result ≡ true)
    × IsDecided status s.task_kind s.decision

-- The lease, the staged result and the decision that a state of the status has.
abbrev pub FitsStatus : Status → TaskState → Type 0
FitsStatus leased s = (is_some s.lease ≡ true) × (s.staged_result ≡ none) × (s.decision ≡ none)
FitsStatus submitted s =
    (is_some s.lease ≡ true) × (is_some s.staged_result ≡ true) × (s.decision ≡ none)
FitsStatus revision_requested s = HasResult revision_requested s
FitsStatus rejected s = HasResult rejected s
FitsStatus approved s = HasResult approved s
FitsStatus superseded s = IsDecided superseded s.task_kind s.decision
FitsStatus created s = Unit
FitsStatus cancelled s = Unit

abbrev pub IsUnstarted : TaskState → Type 0
IsUnstarted s =
    (s.predecessor ≡ none)
    × (s.status ≡ created)
    × (s.lease ≡ none)
    × (s.staged_result ≡ none)
    × (s.decision ≡ none)

abbrev pub IsRegistered : Option TaskKindDefinition → TaskState → Type 0
IsRegistered none s = ⊥
IsRegistered (some d) s =
    (s.result_contract ≡ d.result_contract)
    × (is_subset d.required_content_classes s.effective_content_classes ≡ true)
    × (is_subset s.effective_content_classes (allowed_for d) ≡ true)

abbrev pub BelongsTo : Option StagedResult → TaskState → Type 0
BelongsTo none s = Unit
BelongsTo (some r) s = (r.task_id ≡ s.task_id) × (r.input_basis_digest ≡ s.input_basis_digest)

-- A state that the rules accept.
pub record IsWellFormed (basis_digest : String → String) (s : TaskState) : Type 0 where
  pub basis : s.input_basis_digest ≡ basis_digest s.input_basis
  pub sorted : s.effective_content_classes ≡ sort_by text_le s.effective_content_classes
  pub registered : IsRegistered (definition_of s.privacy_registry_version s.task_kind) s
  pub receipt : s.terminal_receipt ≡ is_terminal s.status
  pub root : s.revision ≡ 1 → IsUnstarted s
  pub fits : FitsStatus s.status s
  pub result : BelongsTo s.staged_result s
