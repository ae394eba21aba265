-- ===== src/Jobs/Chain.antt =====
-- `pipeline_job_chain_diagnostics` and `current_pipeline_states` (pipeline_jobs.py).
pub mod History
pub mod Root
pub mod Report
pub mod Monotone
pub mod Bound
pub mod Ids
pub mod Groups
use text.Mathlib.Text.{is_le}
use Prim.Native.String.{compare, ◌++◌ as append}
use lit_grove.Prelude.{
  is_subset, ℕ, suc, String, ◌≡◌, Bool, true, false, not, ◌||◌, Option, none, some, List, [], ◌∷◌,
  ◌++◌, map, contains, flat_map, lookup, insert, add_to_group, sort_by, ltb, ◌==◌, ◌&&◌, bool_beq,
  option_eq, nat_eq, string_eq, list_eq, if◌then◌else◌,
}
use lit_grove.Diagnostics.{
  Diagnostic, diagnostic, Result, ok, err, ◌>>=◌, ◌>>◌, report_if, reports, deduplicate,
  incomplete_transaction,
}
use lit_grove.Jobs.State.{
  Status, created, status_eq, Predecessor, predecessor_eq, authority_eq, JobState,
}
use lit_grove.Jobs.Rules.{
  is_terminal, validate_wait_state, validate_transition, validate_running_progress, progress,
}

-- `canonical_digest` of a state, and `datetime.fromisoformat` as a number on one scale.
pub record Env : Type 0 where
  pub canonical_digest : JobState → String
  pub parse_timestamp : String → ℕ

-- `_chain_diagnostic`
abbrev pub chain_diagnostic : JobState → String → String → Diagnostic
chain_diagnostic state path message =
    diagnostic incomplete_transaction "pipeline-job-state" (some state.state_id) path message

-- `try: m` with `except ResearchKBError as error: diagnostics.append(_from_error(state, error))`
abbrev pub from_error : JobState → Result (Unit {0}) → List Diagnostic
from_error state (ok u) = []
from_error state (err e) = chain_diagnostic state e.json_path e.message ∷ []

-- What the first loop has gathered.
pub record Gathered : Type 0 where
  pub diagnostics : List Diagnostic
  pub state_ids : List String
  pub by_job : List (String × List JobState)
  pub idempotency_jobs : List (String × String)

abbrev pub nothing_gathered : Gathered
nothing_gathered = record { diagnostics = []; state_ids = []; by_job = []; idempotency_jobs = [] }

-- `idempotency_jobs.setdefault(key, job_id)`
unfoldable pub set_default : String → String → List (String × String) → List (String × String)
set_default key job_id jobs = elim (lookup key jobs) [
  | none ↦ insert key job_id jobs
  | some j ↦ jobs
]

unfoldable pub is_bound_elsewhere : String → String → List (String × String) → Bool
is_bound_elsewhere key job_id jobs = elim (lookup key jobs) [
  | none ↦ false
  | some j ↦ not (j == job_id)
]

-- What the first loop tests of one state. The schema allows no empty key.
unfoldable pub gather_tests : Gathered → JobState → List (Bool × Diagnostic)
gather_tests g state =
    (
      contains g.state_ids state.state_id,
      chain_diagnostic state "/state_id" "duplicate Pipeline Job state ID",
    )
    ∷ (
      is_bound_elsewhere state.idempotency_key state.job_id g.idempotency_jobs,
      chain_diagnostic state "/idempotency_key"
          "Pipeline Job idempotency key is bound to another Job",
    )
    ∷ []

-- One round of the first loop.
unfoldable pub gather : Gathered → JobState → Gathered
gather g state = record {
  diagnostics = g.diagnostics ++ reports (gather_tests g state);
  state_ids = state.state_id ∷ g.state_ids;
  by_job = add_to_group state.job_id state g.by_job;
  idempotency_jobs = set_default state.idempotency_key state.job_id g.idempotency_jobs;
}

unfoldable pub gather_all : Gathered → List JobState → Gathered
gather_all g [] = g
gather_all g (state ∷ states) = gather_all (gather g state) states

-- The order of `(revision, state_id)`.
abbrev pub in_order : JobState → JobState → Bool
in_order a b =
    ltb a.revision b.revision || (a.revision == b.revision && is_le (compare a.state_id b.state_id))

-- `range(n, n + len(xs))`
abbrev pub revisions_from : ℕ → List JobState → List ℕ
revisions_from n [] = []
revisions_from n (x ∷ xs) = n ∷ revisions_from (suc n) xs

unfoldable pub root_tests : JobState → List (Bool × Diagnostic)
root_tests root =
    (
      not (root.predecessor == none),
      chain_diagnostic root "/predecessor" "Pipeline Job root must not have a predecessor",
    )
    ∷ (
      not (root.status == created),
      chain_diagnostic root "/status" "Pipeline Job root status must be created",
    )
    ∷ (
      not (root.retry_count == 0),
      chain_diagnostic root "/retry_count" "Pipeline Job root retry count must be zero",
    )
    ∷ (
      not (root.output_refs == []),
      chain_diagnostic root "/output_refs" "Pipeline Job root cannot contain outputs",
    )
    ∷ (
      not (root.updated_at == root.created_at),
      chain_diagnostic root "/updated_at" "Pipeline Job root timestamps must match",
    )
    ∷ []

-- One field of `_STABLE_FIELDS`
abbrev changed : Bool → JobState → String → Bool × Diagnostic
changed same state field = (
  not same,
  chain_diagnostic state (append "/" field)
      (append "Pipeline Job field " (append field " changed after creation")),
)

unfoldable pub stable_tests : JobState → JobState → List (Bool × Diagnostic)
stable_tests root state =
    changed (state.workspace_id == root.workspace_id) state "workspace_id"
    ∷ changed (state.requested_route == root.requested_route) state "requested_route"
    ∷ changed (state.requested_depth == root.requested_depth) state "requested_depth"
    ∷ changed (state.input_refs == root.input_refs) state "input_refs"
    ∷ changed (state.authority_snapshot == root.authority_snapshot) state "authority_snapshot"
    ∷ changed (state.idempotency_key == root.idempotency_key) state "idempotency_key"
    ∷ changed (state.created_at == root.created_at) state "created_at"
    ∷ changed (state.fixture_origin == root.fixture_origin) state "fixture_origin"
    ∷ []

unfoldable pub receipt_tests : JobState → List (Bool × Diagnostic)
receipt_tests state =
    (
      not (bool_beq state.terminal_receipt (is_terminal state.status)),
      chain_diagnostic state "/terminal_receipt"
          "terminal receipt flag does not match Pipeline Job status",
    )
    ∷ []

module _ (env : Env) where
  abbrev pub predecessor_of : JobState → Predecessor
  predecessor_of previous = record {
    state_id = previous.state_id;
    state_digest = env.canonical_digest previous;
  }

  unfoldable pub predecessor_tests : JobState → JobState → List (Bool × Diagnostic)
  predecessor_tests previous state =
      (
        not (state.predecessor == some (predecessor_of previous)),
        chain_diagnostic state "/predecessor"
            "Pipeline Job predecessor ID or digest does not match the prior revision",
      )
      ∷ []

  unfoldable pub output_tests : JobState → JobState → List (Bool × Diagnostic)
  output_tests previous state =
      (
        not (is_subset previous.output_refs state.output_refs),
        chain_diagnostic state "/output_refs"
            "Pipeline Job output refs cannot discard prior committed outputs",
      )
      ∷ []

  -- The three rules in one `try` block.
  abbrev rules : JobState → JobState → Result (Unit {0})
  rules previous state = do
    validate_transition previous.status state.status
    validate_wait_state state.status state.wait_reason state.recovery_action
    validate_running_progress (progress previous) (progress state)

  unfoldable pub monotone_tests : JobState → JobState → List (Bool × Diagnostic)
  monotone_tests previous state =
      (
        ltb state.retry_count previous.retry_count,
        chain_diagnostic state "/retry_count" "Pipeline Job retry count cannot decrease",
      )
      ∷ (
        ltb (env.parse_timestamp state.updated_at) (env.parse_timestamp previous.updated_at),
        chain_diagnostic state "/updated_at" "Pipeline Job update time cannot move backwards",
      )
      ∷ []

  -- The body of the loop for one state after the root.
  unfoldable pub step_diagnostics : JobState → JobState → JobState → List Diagnostic
  step_diagnostics root previous state =
      reports (receipt_tests state)
      ++ (reports (predecessor_tests previous state)
          ++ (reports (stable_tests root state)
              ++ (reports (output_tests previous state)
                  ++ (from_error state (rules previous state)
                      ++ reports (monotone_tests previous state)))))

  unfoldable pub walk : JobState → JobState → List JobState → List Diagnostic
  walk root previous [] = []
  walk root previous (state ∷ states) =
      step_diagnostics root previous state ++ walk root state states

  unfoldable pub root_diagnostics : JobState → List Diagnostic
  root_diagnostics root =
      reports (root_tests root)
      ++ (from_error root (validate_wait_state root.status root.wait_reason root.recovery_action)
          ++ reports (receipt_tests root))

  unfoldable pub ordered_diagnostics : List JobState → List Diagnostic
  ordered_diagnostics [] = []
  ordered_diagnostics (root ∷ states) =
      if map (λ (s : JobState). s.revision) (root ∷ states) == revisions_from 1 (root ∷ states)
      then root_diagnostics root ++ walk root root states
      else chain_diagnostic root "/revision"
          "Pipeline Job revisions must be unique and contiguous from one"
        ∷ []

  -- One round of the second loop.
  unfoldable pub job_diagnostics : String × List JobState → List Diagnostic
  job_diagnostics (job_id, revisions) = ordered_diagnostics (sort_by in_order revisions)

  -- `pipeline_job_chain_diagnostics`
  unfoldable pub pipeline_job_chain_diagnostics : List JobState → List Diagnostic
  pipeline_job_chain_diagnostics states =
      let g = gather_all nothing_gathered states in
      deduplicate (g.diagnostics ++ flat_map job_diagnostics g.by_job)

-- The loop of `current_pipeline_states`.
unfoldable pub keep_newest : List (String × JobState) → List JobState → List (String × JobState)
keep_newest current [] = current
keep_newest current (state ∷ states) =
    keep_newest
      (elim (lookup state.job_id current) [
        | none ↦ insert state.job_id state current
        | some existing ↦
            if ltb existing.revision state.revision
            then insert state.job_id state current
            else current
      ])
      states

abbrev by_job_id : JobState → JobState → Bool
by_job_id a b = is_le (compare a.job_id b.job_id)

abbrev pub first_diagnostic : {A : Type 0} → List Diagnostic → A → Result A
first_diagnostic [] a = ok a
first_diagnostic (d ∷ ds) a = err d

-- `current_pipeline_states`
unfoldable pub current_pipeline_states : Env → List JobState → Result (List JobState)
current_pipeline_states env states =
    first_diagnostic (pipeline_job_chain_diagnostics env states)
      (sort_by by_job_id (map (λ (e : String × JobState). e.1) (keep_newest [] states)))
