-- ===== src/Tasks/Rules.antt =====
-- The rules of agent_tasks.py on one state and on one step: `validate_task_state` and
-- `validate_transition`.
use Prim.Native.Char.{code}
use Prim.Native.String.{◌++◌ as append}
use lit_grove.Prelude.{
  ℕ, String, Bool, true, not, ◌&&◌, ◌||◌, Option, none, some, is_some, List, [], ◌∷◌, ◌++◌,
  contains, is_subset, every, lookup, sort_by, leb, bool_beq, ◌==◌, string_eq, nat_eq, option_eq,
  list_eq, if◌then◌else◌,
}
use lit_grove.Diagnostics.{
  Diagnostic, diagnostic, schema_validation_failed, Result, raise_if, raise_first, ◌>>◌,
}
use lit_grove.Tasks.Kinds.{TaskKindDefinition, registry_task_kinds}
use lit_grove.Tasks.Registry.{allowed_for, text_le}
use lit_grove.Tasks.State.{
  Status, created, leased, submitted, revision_requested, superseded, rejected, approved, cancelled,
  status_eq, StagedResult, Decision, TaskState,
}

-- `TERMINAL_STATUSES`
abbrev pub terminal_statuses : List Status
terminal_statuses = revision_requested ∷ superseded ∷ rejected ∷ approved ∷ cancelled ∷ []

abbrev pub is_terminal : Status → Bool
is_terminal s = contains terminal_statuses s

-- `ALLOWED_TRANSITIONS`, with no successor where the table has no row.
unfoldable pub allowed_transitions : Status → List Status
allowed_transitions created = leased ∷ superseded ∷ cancelled ∷ []
allowed_transitions leased = submitted ∷ superseded ∷ cancelled ∷ []
allowed_transitions submitted = revision_requested ∷ superseded ∷ rejected ∷ approved ∷ []
allowed_transitions _ = []

-- `_task_error`
abbrev pub task_error : String → String → Diagnostic
task_error message path = diagnostic schema_validation_failed "agent-task-state" none path message

abbrev pub status_name : Status → String
status_name created = "created"
status_name leased = "leased"
status_name submitted = "submitted"
status_name revision_requested = "revision_requested"
status_name superseded = "superseded"
status_name rejected = "rejected"
status_name approved = "approved"
status_name cancelled = "cancelled"

unfoldable pub transition_message : Status → Status → String
transition_message previous status =
    append "invalid Agent Task transition from "
      (append (status_name previous) (append " to " (status_name status)))

-- `validate_transition`
unfoldable pub validate_transition : Status → Status → Result (Unit {0})
validate_transition previous status = do
  raise_if (is_terminal previous)
      (task_error "terminal Agent Task state cannot have a successor" "/status")
  raise_if (not (contains (allowed_transitions previous) status))
      (task_error (transition_message previous status) "/status")

-- The code points that `str.strip` removes.
abbrev pub is_space : ℕ → Bool
is_space c =
    (leb 9 c && leb c 13)
    || ((leb 28 c && leb c 32)
        || (contains (133 ∷ 160 ∷ 5760 ∷ 8232 ∷ 8233 ∷ 8239 ∷ 8287 ∷ 12288 ∷ []) c
            || (leb 8192 c && leb c 8202)))

abbrev pub codes : String → List ℕ
codes String.[] = []
codes (String.◌∷◌ c s) = code c ∷ codes s

-- `not isinstance(feedback, str) or not feedback.strip()`
unfoldable pub is_blank : Option String → Bool
is_blank none = true
is_blank (some s) = every is_space (codes s)

-- A test of `validate_task_state` with the error that it raises.
abbrev Test : Type 0
Test = Bool × Diagnostic

abbrev test : Bool → String → String → Test
test b message path = (b, task_error message path)

unfoldable pub registry_tests : Option TaskKindDefinition → TaskState → List (Bool × Diagnostic)
registry_tests none s =
    test true "Task kind is unavailable in its privacy registry version" "/privacy_registry_version"
    ∷ []
registry_tests (some d) s =
    test (not (s.result_contract == d.result_contract))
      "Task result contract does not match its registry definition" "/result_contract"
    ∷ test
        (not (is_subset d.required_content_classes s.effective_content_classes)
          || not (is_subset s.effective_content_classes (allowed_for d)))
        "Task content classes do not match its registry definition" "/effective_content_classes"
    ∷ []

-- `REGISTRY_TASK_KINDS.get(version)` and `.get(task_kind)`
unfoldable pub definition_of : String → String → Option TaskKindDefinition
definition_of version kind = elim (lookup version registry_task_kinds) [
  | none ↦ none
  | some kinds ↦ lookup kind kinds
]

unfoldable pub root_tests : TaskState → List (Bool × Diagnostic)
root_tests s =
    test (is_some s.predecessor) "Agent Task root must not have a predecessor state" "/predecessor"
    ∷ test (not (s.status == created)) "Agent Task root status must be created" "/status"
    ∷ test (is_some s.lease || (is_some s.staged_result || is_some s.decision))
        "Agent Task root cannot contain lease, result or decision data" "/status"
    ∷ []

-- The kinds whose approval names no state of a Job.
abbrev pub no_job_kinds : List String
no_job_kinds =
    "knowledge_query_report" ∷ "organization_proposal" ∷ "question_screening_criteria_proposal"
    ∷ "question_screening_decision_proposal" ∷ "research_synthesis_drafting" ∷ []

abbrev pub approval_reasons : List (String × String)
approval_reasons =
    ("primary_semantic_processing", "primary_bundle_committed")
    ∷ ("review_semantic_processing", "review_bundle_committed")
    ∷ ("knowledge_query_report", "report_accepted")
    ∷ ("organization_proposal", "organization_revision_committed")
    ∷ ("question_screening_criteria_proposal", "screening_revision_committed")
    ∷ ("question_screening_decision_proposal", "screening_revision_committed")
    ∷ ("research_synthesis_drafting", "research_synthesis_committed")
    ∷ []

-- `{...}.get(task_kind, "route_confirmed")`
unfoldable pub expected_reason : String → String
expected_reason kind = elim (lookup kind approval_reasons) [
  | none ↦ "route_confirmed"
  | some reason ↦ reason
]

-- The tests of a decision to revise, reject or approve.
unfoldable pub decision_tests : Status → String → Option Decision → List (Bool × Diagnostic)
decision_tests status kind none = []
decision_tests status kind (some d) =
    let revises = status == revision_requested in
    let approves = status == approved in
    let no_job_approval = approves && contains no_job_kinds kind in
    test (not (d.action == status)) "Agent Task decision action does not match status"
      "/decision/action"
    ∷ test (revises && not (is_some d.successor_task_id))
        "revision decision requires a successor task" "/decision/successor_task_id"
    ∷ test (not revises && is_some d.successor_task_id)
        "non-revision decision cannot name a successor task" "/decision/successor_task_id"
    ∷ test (approves && (not no_job_approval && not (is_some d.applied_job_state_id)))
        "approved scientific or route decision requires an applied Job state"
        "/decision/applied_job_state_id"
    ∷ test (no_job_approval && is_some d.applied_job_state_id)
        "approved direct Task cannot name an applied Job state" "/decision/applied_job_state_id"
    ∷ test (not approves && is_some d.applied_job_state_id)
        "non-approval decision cannot name an applied Job state" "/decision/applied_job_state_id"
    ∷ test (revises && is_blank d.feedback) "revision decision requires non-empty feedback"
        "/decision/feedback"
    ∷ test (revises && is_some d.reason_code) "revision decision cannot carry a reason code"
        "/decision/reason_code"
    ∷ test (not revises && is_some d.feedback) "non-revision decision cannot carry feedback"
        "/decision/feedback"
    ∷ test (status == rejected && not (d.reason_code == some "user_rejected"))
        "rejected decision requires the user-rejected reason" "/decision/reason_code"
    ∷ test (approves && not (d.reason_code == some (expected_reason kind)))
        "approved decision reason does not match the Task kind" "/decision/reason_code"
    ∷ []

unfoldable pub decided_tests : Status → TaskState → List (Bool × Diagnostic)
decided_tests status s =
    test (not (is_some s.lease) || (not (is_some s.staged_result) || not (is_some s.decision)))
      "decided Agent Task requires lease, staged result and decision" "/status"
    ∷ decision_tests status s.task_kind s.decision

unfoldable pub superseded_tests : Option Decision → List (Bool × Diagnostic)
superseded_tests none = test true "superseded Agent Task requires one decision" "/status" ∷ []
superseded_tests (some d) =
    test (not (d.action == superseded) || not (d.reason_code == some "input_refreshed"))
      "superseded Agent Task requires the input-refreshed decision" "/decision"
    ∷ test (not (is_some d.successor_task_id) || is_some d.applied_job_state_id)
        "superseded Agent Task requires only a successor Task reference" "/decision"
    ∷ test (is_some d.feedback) "superseded Agent Task cannot carry feedback" "/decision/feedback"
    ∷ []

-- What the status asks of the lease, the staged result and the decision.
unfoldable pub status_tests : Status → TaskState → List (Bool × Diagnostic)
status_tests leased s =
    test (not (is_some s.lease) || (is_some s.staged_result || is_some s.decision))
      "leased Agent Task requires only a lease" "/status"
    ∷ []
status_tests submitted s =
    test (not (is_some s.lease) || (not (is_some s.staged_result) || is_some s.decision))
      "submitted Agent Task requires lease and staged result" "/status"
    ∷ []
status_tests revision_requested s = decided_tests revision_requested s
status_tests rejected s = decided_tests rejected s
status_tests approved s = decided_tests approved s
status_tests superseded s = superseded_tests s.decision
status_tests created s = []
status_tests cancelled s = []

unfoldable pub result_tests : Option StagedResult → TaskState → List (Bool × Diagnostic)
result_tests none s = []
result_tests (some r) s =
    test (not (r.task_id == s.task_id)) "staged result belongs to another Agent Task"
      "/staged_result/task_id"
    ∷ test (not (r.input_basis_digest == s.input_basis_digest))
        "staged result input basis does not match Agent Task" "/staged_result/input_basis_digest"
    ∷ []

-- `canonical_digest` of an input basis.
module _ (basis_digest : String → String) where
  unfoldable pub basis_tests : TaskState → List (Bool × Diagnostic)
  basis_tests s =
      test (not (s.input_basis_digest == basis_digest s.input_basis))
        "input basis digest does not match the exact input basis" "/input_basis_digest"
      ∷ test (not (s.effective_content_classes == sort_by text_le s.effective_content_classes))
          "effective content classes are not deterministically ordered" "/effective_content_classes"
      ∷ []

  -- The tests of `validate_task_state` in their order.
  unfoldable pub state_tests : TaskState → List (Bool × Diagnostic)
  state_tests s =
      basis_tests s
      ++ (registry_tests (definition_of s.privacy_registry_version s.task_kind) s
          ++ (test (not (bool_beq s.terminal_receipt (is_terminal s.status)))
                "terminal receipt flag does not match Agent Task status" "/terminal_receipt"
              ∷ ((if s.revision == 1 then root_tests s else [])
                  ++ (status_tests s.status s ++ result_tests s.staged_result s))))

  -- `validate_task_state`
  unfoldable pub validate_task_state : TaskState → Result (Unit {0})
  validate_task_state s = raise_first (state_tests s)
