-- ===== src/Tasks/Report.antt =====
-- The lineage of Agent Tasks and the whole `agent_task_chain_diagnostics` (agent_tasks.py), with
-- `current_agent_task_states`.
use text.Mathlib.Text.{is_le}
use Prim.Native.String.{compare}
use mathlib.Core.Option
use lit_grove.Prelude.{
  ℕ, zero, suc, String, Bool, true, false, not, Option, none, some, is_some, List, [], ◌∷◌, ◌++◌,
  map, flat_map, contains, length, lookup, insert, get_last?, sort_by, ltb, ◌==◌, string_eq, nat_eq,
  option_eq, if◌then◌else◌,
}
use lit_grove.Diagnostics.{Diagnostic, Result, deduplicate, report_if}
use lit_grove.Jobs.Chain.{first_diagnostic}
use lit_grove.Tasks.State.{
  Status, revision_requested, superseded, status_eq, Decision, Lineage, of_result, of_refresh,
  predecessor_task_id, TaskState,
}
use lit_grove.Tasks.Chain.{
  Env, chain_diagnostic, Gathered, nothing_gathered, gather_all, in_order, task_diagnostics,
}

-- `by_task.get(task_id, [])`
abbrev pub or_no_states : Option (List TaskState) → List TaskState
or_no_states none = []
or_no_states (some states) = states

-- `(lease or {}).get("handoff_digest", input_basis_digest)`
abbrev pub handoff_digest_of : TaskState → String
handoff_digest_of s = elim s.lease [ none ↦ s.input_basis_digest | some l ↦ l.handoff_digest ]

abbrev pub expected_status : Lineage → Status
expected_status (of_result predecessor digest feedback) = revision_requested
expected_status (of_refresh predecessor digest) = superseded

-- Where the lineage is reciprocated, its digest and feedback are compared.
unfoldable pub content_diagnostics :
    Env → Lineage → TaskState → TaskState → Decision → List Diagnostic
content_diagnostics env (of_result predecessor digest feedback) s head d =
    if not (env.result_digest head.staged_result == digest)
    then chain_diagnostic s "/lineage/predecessor_result_digest"
        "Agent Task successor result digest does not match its predecessor"
      ∷ []
    else report_if (not (d.feedback == some feedback)) (
        chain_diagnostic s "/lineage/feedback"
          "Agent Task successor feedback does not match its predecessor decision")
content_diagnostics env (of_refresh predecessor digest) s head d =
    report_if (not (handoff_digest_of head == digest)) (
      chain_diagnostic s "/lineage/predecessor_handoff_digest"
        "Agent Task refreshed successor handoff digest does not match its predecessor")

abbrev pub unreciprocated : TaskState → Diagnostic
unreciprocated s =
    chain_diagnostic s "/lineage/predecessor_task_id"
      "Agent Task successor lineage is not reciprocated by its predecessor"

-- The head of the predecessor has the status of the lineage. `decision.get(...)` of a head without a
-- decision is an `AttributeError`, since the key is there with the value `None`: the run is `none`.
abbrev pub decided_diagnostics :
    Env → Lineage → TaskState → TaskState → Option Decision → Option (List Diagnostic)
decided_diagnostics env lineage s head none = none
decided_diagnostics env lineage s head (some d) = some (
    if d.successor_task_id == some s.task_id
    then content_diagnostics env lineage s head d
    else unreciprocated s ∷ [])

unfoldable pub head_diagnostics :
    Env → Lineage → TaskState → Option TaskState → Option (List Diagnostic)
head_diagnostics env lineage s none = some (unreciprocated s ∷ [])
head_diagnostics env lineage s (some head) =
    if head.status == expected_status lineage
    then decided_diagnostics env lineage s head head.decision
    else some (unreciprocated s ∷ [])

-- The third loop, for a root with a lineage.
unfoldable pub lineage_diagnostics :
    Env → Gathered → TaskState → Option Lineage → Option (List Diagnostic)
lineage_diagnostics env g s none = some []
lineage_diagnostics env g s (some lineage) =
    let p = predecessor_task_id lineage in
    if not (contains g.task_ids p)
    then some (
        chain_diagnostic s "/lineage/predecessor_task_id"
          "Agent Task lineage predecessor is unresolved"
        ∷ [])
    else (if p == s.task_id
        then some (
            chain_diagnostic s "/lineage/predecessor_task_id" "Agent Task cannot succeed itself"
            ∷ [])
        else head_diagnostics env lineage s
            (get_last? (sort_by in_order (or_no_states (lookup p g.by_task)))))

unfoldable pub lineage_of_state : Env → Gathered → TaskState → Option (List Diagnostic)
lineage_of_state env g s =
    if s.revision == 1 then lineage_diagnostics env g s s.lineage else some []

abbrev pub appended : Option (List Diagnostic) → Option (List Diagnostic) → Option (List Diagnostic)
appended none ys = none
appended (some xs) none = none
appended (some xs) (some ys) = some (xs ++ ys)

unfoldable pub lineage_of_states : Env → Gathered → List TaskState → Option (List Diagnostic)
lineage_of_states env g [] = some []
lineage_of_states env g (s ∷ states) =
    appended (lineage_of_state env g s) (lineage_of_states env g states)

-- `min(revisions, key=...)`: the first of the least revisions.
unfoldable pub first_least : TaskState → List TaskState → TaskState
first_least least [] = least
first_least least (s ∷ states) =
    first_least (if ltb s.revision least.revision then s else least) states

-- The roots by Task, in the order of `by_task`; a group is never empty.
unfoldable pub roots : List (String × List TaskState) → List (String × TaskState)
roots [] = []
roots ((task_id, []) ∷ groups) = roots groups
roots ((task_id, s ∷ states) ∷ groups) = (task_id, first_least s states) ∷ roots groups

-- `lineage_predecessors`
unfoldable pub lineage_predecessors : List (String × TaskState) → List (String × String)
lineage_predecessors [] = []
lineage_predecessors ((task_id, root) ∷ others) = elim root.lineage [
  | none ↦ lineage_predecessors others
  | some lineage ↦ (task_id, predecessor_task_id lineage) ∷ lineage_predecessors others
]

-- How the loop `while current in lineage_predecessors` ends.
pub data Descent : Type 0 where
  origin : String → Descent
  cyclic : Descent
  unfinished : Descent

unfoldable pub descend : ℕ → List (String × String) → List String → String → Descent
descend zero predecessors seen current = unfinished
descend (suc fuel) predecessors seen current = elim (lookup current predecessors) [
  | none ↦ origin current
  | some predecessor ↦ elim (contains seen current) [
    | true ↦ cyclic
    | false ↦ descend fuel predecessors (current ∷ seen) predecessor
  ]
]

-- One round more than there are predecessors is enough: no Task is passed twice.
unfoldable pub descent : List (String × String) → String → Descent
descent predecessors task_id = descend (suc (length predecessors)) predecessors [] task_id

abbrev pub cycle_diagnostics : TaskState → Descent → List Diagnostic
cycle_diagnostics root cyclic =
    chain_diagnostic root "/lineage/predecessor_task_id" "Agent Task lineage contains a cycle" ∷ []
cycle_diagnostics root _ = []

abbrev pub by_task_id : String × TaskState → String × TaskState → Bool
by_task_id a b = is_le (compare a.0 b.0)

-- The last loop; a root without a lineage is no key of `lineage_predecessors`.
unfoldable pub cycle_reports : List (String × String) → List (String × TaskState) → List Diagnostic
cycle_reports predecessors [] = []
cycle_reports predecessors ((task_id, root) ∷ others) =
    (if is_some root.lineage then cycle_diagnostics root (descent predecessors task_id) else [])
    ++ cycle_reports predecessors others

-- `agent_task_chain_diagnostics`; `none` is an `AttributeError`.
unfoldable pub agent_task_chain_diagnostics : Env → List TaskState → Option (List Diagnostic)
agent_task_chain_diagnostics env states =
    let g = gather_all nothing_gathered states in
    let tasks = roots g.by_task in
    Option.map
      (λ (lineage : List Diagnostic). deduplicate (
        g.diagnostics
        ++ (flat_map (task_diagnostics env) g.by_task
            ++ (lineage ++ cycle_reports (lineage_predecessors tasks) (sort_by by_task_id tasks)))))
      (lineage_of_states env g states)

-- The loop of `current_agent_task_states`.
unfoldable pub keep_newest : List (String × TaskState) → List TaskState → List (String × TaskState)
keep_newest current [] = current
keep_newest current (s ∷ states) =
    keep_newest
      (elim (lookup s.task_id current) [
        | none ↦ insert s.task_id s current
        | some existing ↦
            if ltb existing.revision s.revision then insert s.task_id s current else current
      ])
      states

abbrev in_task_order : TaskState → TaskState → Bool
in_task_order a b = is_le (compare a.task_id b.task_id)

-- `current_agent_task_states`
unfoldable pub current_agent_task_states : Env → List TaskState → Option (Result (List TaskState))
current_agent_task_states env states =
    Option.map
      (λ (report : List Diagnostic).
        first_diagnostic report
          (sort_by in_task_order (map (λ (e : String × TaskState). e.1) (keep_newest [] states))))
      (agent_task_chain_diagnostics env states)
