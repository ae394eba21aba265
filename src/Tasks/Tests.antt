-- ===== src/Tasks/Tests.antt =====
-- A query Task that is approved, one whose input is refreshed, and the successor of the latter.
use mathlib.Core.List
use lit_grove.Prelude.{
  ℕ, String, ◌≡◌, ◌↔◌, ◌≤◌, refl, Option, none, some, List, [], ◌∷◌, map, flat_map, length, All,
  lookup, insert, unique_from, Pairwise, select, sort_by, string_eq, ◌==◌,
}
use lit_grove.Diagnostics.{Diagnostic, deduplicate, ok}
use lit_grove.Jobs.Chain.{set_default, is_bound_elsewhere}
use lit_grove.Tasks.Kinds.{
  p4a_task_kinds, task_kinds, p4c_task_kinds, p5c_task_kinds, p7b_task_kinds, p7d_task_kinds,
  p8_task_kinds, registry_task_kinds, executors, task_kind_definition, executor,
}
use lit_grove.Tasks.Registry.{Policy, Resolved, effective_classes, resolve_effective_classes}
use lit_grove.Tasks.Registry.Classes.{IsGranted, resolve_effective_classes-IsGranted}
use lit_grove.Tasks.State.{
  Status, created, leased, submitted, superseded, approved, Predecessor, predecessor_beq, Lease,
  lease_beq, StagedResult, staged_beq, Decision, lineage_beq, of_refresh, TaskState,
}
use lit_grove.Tasks.Rules.{
  allowed_transitions, validate_transition, is_terminal, registry_tests, definition_of, root_tests,
  expected_reason, decision_tests, decided_tests, superseded_tests, status_tests, result_tests,
  basis_tests, state_tests, validate_task_state,
}
use lit_grove.Tasks.WellFormed.{IsWellFormed}
use lit_grove.Tasks.Validated.{validate_task_state-IsWellFormed}
use lit_grove.Tasks.Chain.{
  Env, in_order, gather_tests, gather, gather_all, nothing_gathered, stable_tests, kept_tests,
  predecessor_tests, time_tests, step_diagnostics, walk, ordered_diagnostics, task_diagnostics,
}
use lit_grove.Tasks.History.{IsHistory}
use lit_grove.Tasks.Ordered.{ordered_diagnostics-IsHistory}
use lit_grove.Tasks.Stored.{AreCompatible, agent_task_chain_diagnostics-IsHistory}
use lit_grove.Tasks.Course.{ordered_diagnostics-length, ordered_diagnostics-approved}
use lit_grove.Tasks.Report.{
  content_diagnostics, head_diagnostics, lineage_diagnostics, lineage_of_state, lineage_of_states,
  first_least, roots, lineage_predecessors, descend, descent, cycle_reports,
  agent_task_chain_diagnostics,
}
use lit_grove.Tasks.Ancestry.{Ancestry}
use lit_grove.Tasks.Lineage.{agent_task_chain_diagnostics-Ancestry}
use lit_grove.Tasks.Recoverable.{agent_task_chain_diagnostics-Returns}

abbrev sample_env : Env
sample_env = record {
  state_digest = λ s. s.state_id;
  basis_digest = λ b. b;
  result_digest = λ r. "result";
  parse_timestamp = λ t. 0;
}

abbrev query_classes : List String
query_classes = "canonical_evidence" ∷ "operational_context" ∷ "paper_card_content" ∷ []

abbrev after : String → Option Predecessor
after state = some (record { state_id = state; state_digest = state })

-- A state with a status and little else.
abbrev plain : String → String → ℕ → Status → Option Predecessor → TaskState
plain task state revision status previous = record {
  schema_version = "1.0";
  state_id = state;
  task_id = task;
  workspace_id = "workspace";
  revision = revision;
  predecessor = previous;
  task_kind = "knowledge_query_report";
  result_contract = "p5c-knowledge-query-report@1.0";
  privacy_registry_version = "p8-v1";
  executor_id = "codex_cli";
  execution_scope = "cloud_allowed";
  effective_content_classes = query_classes;
  input_basis = task;
  input_basis_digest = task;
  idempotency_key = task;
  lineage = none;
  status = status;
  lease = none;
  staged_result = none;
  decision = none;
  terminal_receipt = is_terminal status;
  created_at = "t";
  updated_at = "t";
}

abbrev decides : Status → Option String → Option String → Decision
decides action reason successor = record {
  action = action;
  reason_code = reason;
  feedback = none;
  successor_task_id = successor;
  applied_job_state_id = none;
  decided_at = "t";
}

abbrev sample_lease : Lease
sample_lease = record { lease_id = "lease"; handoff_digest = "handoff"; issued_at = "t" }

abbrev sample_result : StagedResult
sample_result = record { task_id = "query"; input_basis_digest = "query"; content = "report" }

abbrev query_created : TaskState
query_created = plain "query" "q1" 1 created none

abbrev query_leased : TaskState
query_leased = record (plain "query" "q2" 2 leased (after "q1")) { lease = some sample_lease }

abbrev query_submitted : TaskState
query_submitted = record (plain "query" "q3" 3 submitted (after "q2")) {
  lease = some sample_lease;
  staged_result = some sample_result;
}

abbrev query_approved : TaskState
query_approved = record (plain "query" "q4" 4 approved (after "q3")) {
  lease = some sample_lease;
  staged_result = some sample_result;
  decision = some (decides approved (some "report_accepted") none);
}

abbrev query_states : List TaskState
query_states = query_created ∷ query_leased ∷ query_submitted ∷ query_approved ∷ []

-- A Task whose input was refreshed, and its successor.
abbrev refreshed_states : List TaskState
refreshed_states =
    plain "old" "o1" 1 created none
    ∷ record (plain "old" "o2" 2 superseded (after "o1")) {
      decision = some (decides superseded (some "input_refreshed") (some "new"));
    }
    ∷ record (plain "new" "n1" 1 created none) { lineage = some (of_refresh "old" "old") }
    ∷ []

query_quiet : ordered_diagnostics sample_env query_states ≡ []
unfolding ordered_diagnostics walk step_diagnostics predecessor_tests stable_tests kept_tests
    time_tests validate_task_state state_tests basis_tests registry_tests definition_of root_tests
    status_tests decided_tests decision_tests superseded_tests result_tests expected_reason
    validate_transition allowed_transitions predecessor_beq lease_beq staged_beq lineage_beq lookup
    insert p4a_task_kinds task_kinds p4c_task_kinds p5c_task_kinds p7b_task_kinds p7d_task_kinds
    p8_task_kinds registry_task_kinds
query_quiet = refl

refreshed_quiet : agent_task_chain_diagnostics sample_env refreshed_states ≡ some []
unfolding ordered_diagnostics walk step_diagnostics predecessor_tests stable_tests kept_tests
    time_tests validate_task_state state_tests basis_tests registry_tests definition_of root_tests
    status_tests decided_tests decision_tests superseded_tests result_tests expected_reason
    validate_transition allowed_transitions predecessor_beq lease_beq staged_beq lineage_beq lookup
    insert p4a_task_kinds task_kinds p4c_task_kinds p5c_task_kinds p7b_task_kinds p7d_task_kinds
    p8_task_kinds registry_task_kinds gather_all gather gather_tests set_default is_bound_elsewhere
    task_diagnostics content_diagnostics head_diagnostics lineage_diagnostics lineage_of_state
    lineage_of_states first_least roots lineage_predecessors descend descent cycle_reports
    agent_task_chain_diagnostics deduplicate unique_from mathlib.Core.List.flat_map
refreshed_quiet = refl

refreshed_histories :
    flat_map (task_diagnostics sample_env) (gather_all nothing_gathered refreshed_states).by_task
    ≡ []
unfolding ordered_diagnostics walk step_diagnostics predecessor_tests stable_tests kept_tests
    time_tests validate_task_state state_tests basis_tests registry_tests definition_of root_tests
    status_tests decided_tests decision_tests superseded_tests result_tests expected_reason
    validate_transition allowed_transitions predecessor_beq lease_beq staged_beq lineage_beq lookup
    insert p4a_task_kinds task_kinds p4c_task_kinds p5c_task_kinds p7b_task_kinds p7d_task_kinds
    p8_task_kinds registry_task_kinds gather_all gather gather_tests set_default is_bound_elsewhere
    task_diagnostics content_diagnostics head_diagnostics lineage_diagnostics lineage_of_state
    lineage_of_states first_least roots lineage_predecessors descend descent cycle_reports
    agent_task_chain_diagnostics deduplicate unique_from mathlib.Core.List.flat_map
refreshed_histories = refl

-- `decision.get` of a predecessor that is superseded and has no decision.
undecided_fails :
    agent_task_chain_diagnostics sample_env (
      plain "old" "o1" 1 superseded none
      ∷ record (plain "new" "n1" 1 created none) { lineage = some (of_refresh "old" "old") }
      ∷ [])
    ≡ none
unfolding ordered_diagnostics walk step_diagnostics predecessor_tests stable_tests kept_tests
    time_tests validate_task_state state_tests basis_tests registry_tests definition_of root_tests
    status_tests decided_tests decision_tests superseded_tests result_tests expected_reason
    validate_transition allowed_transitions predecessor_beq lease_beq staged_beq lineage_beq lookup
    insert p4a_task_kinds task_kinds p4c_task_kinds p5c_task_kinds p7b_task_kinds p7d_task_kinds
    p8_task_kinds registry_task_kinds gather_all gather gather_tests set_default is_bound_elsewhere
    task_diagnostics content_diagnostics head_diagnostics lineage_diagnostics lineage_of_state
    lineage_of_states first_least roots lineage_predecessors descend descent cycle_reports
    agent_task_chain_diagnostics deduplicate unique_from mathlib.Core.List.flat_map
undecided_fails = refl

validate_task_state-IsWellFormed_example :
    (validate_task_state sample_env.basis_digest query_approved ≡ ok tt)
    ↔ IsWellFormed sample_env.basis_digest query_approved
validate_task_state-IsWellFormed_example =
    validate_task_state-IsWellFormed sample_env.basis_digest query_approved

ordered_diagnostics-IsHistory_example :
    (ordered_diagnostics sample_env query_states ≡ []) ↔ IsHistory sample_env query_states
ordered_diagnostics-IsHistory_example = ordered_diagnostics-IsHistory sample_env query_states

ordered_diagnostics-length_example : length query_states ≤ 4
ordered_diagnostics-length_example = ordered_diagnostics-length sample_env query_states query_quiet

ordered_diagnostics-approved_example :
    map (λ (s : TaskState). s.status) query_states ≡ created ∷ leased ∷ submitted ∷ approved ∷ []
ordered_diagnostics-approved_example =
    ordered_diagnostics-approved sample_env query_states query_approved query_quiet refl refl

agent_task_chain_diagnostics-Ancestry_example :
    All (λ (s : TaskState). Ancestry refreshed_states s.task_id) refreshed_states
agent_task_chain_diagnostics-Ancestry_example =
    agent_task_chain_diagnostics-Ancestry sample_env refreshed_states refreshed_quiet

agent_task_chain_diagnostics-IsHistory_example :
    Pairwise AreCompatible refreshed_states
    × ((task_id : String)
        → IsHistory sample_env
            (sort_by in_order (select (λ (s : TaskState). s.task_id == task_id) refreshed_states)))
agent_task_chain_diagnostics-IsHistory_example =
    agent_task_chain_diagnostics-IsHistory sample_env refreshed_states refreshed_quiet

agent_task_chain_diagnostics-Returns_example :
    (report : List Diagnostic) × (agent_task_chain_diagnostics sample_env refreshed_states
      ≡ some report)
agent_task_chain_diagnostics-Returns_example =
    agent_task_chain_diagnostics-Returns sample_env refreshed_states refreshed_histories

abbrev sample_policy : Policy
sample_policy = record {
  registry_version = "p8-v1";
  execution_scope = "cloud_allowed";
  allowed_content_classes = "metadata" ∷ "source_document" ∷ query_classes;
}

abbrev sample_resolved : Resolved
sample_resolved = record {
  definition =
      task_kind_definition "knowledge_query_report"
        ("paper_card_content" ∷ "canonical_evidence" ∷ "operational_context" ∷ [])
        ("metadata" ∷ "review_background" ∷ "research_routing_context" ∷ [])
        "p5c-knowledge-query-report@1.0" "available" 4 1048576 0 524288;
  executor_definition = executor "codex_cli";
  classes = query_classes;
}

query_resolves :
    resolve_effective_classes "knowledge_query_report" "codex_cli"
      (some sample_policy)
      (some query_classes)
    ≡ ok sample_resolved
unfolding resolve_effective_classes effective_classes executors unique_from lookup insert
    p4a_task_kinds task_kinds p4c_task_kinds p5c_task_kinds p7b_task_kinds p7d_task_kinds
    p8_task_kinds registry_task_kinds
query_resolves = refl

resolve_effective_classes-IsGranted_example :
    IsGranted "knowledge_query_report" "codex_cli" sample_policy query_classes sample_resolved
resolve_effective_classes-IsGranted_example =
    resolve_effective_classes-IsGranted "knowledge_query_report" "codex_cli" sample_policy
      query_classes sample_resolved query_resolves
