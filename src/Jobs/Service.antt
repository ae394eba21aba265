-- ===== src/Jobs/Service.antt =====
-- `PipelineJobService` (services/pipeline_job.py) on the list of stored states.
pub mod Accepted
pub mod Replay
pub mod Race
pub mod Create
pub mod Creating
pub mod Ending
mod Tests
use text.Mathlib.Text.{is_le}
use Prim.Native.String.{compare, ◌++◌ as append}
use lit_grove.Prelude.{
  ℕ, ◌+◌, String, ◌≡◌, Bool, true, false, not, ◌||◌, ◌&&◌, Option, none, some, List, [], ◌∷◌, ◌++◌,
  map, contains, select, find, get_last?, unique_from, sort_by, leb, ◌==◌, string_eq, option_eq,
  list_eq, nat_eq, length, Eq, if◌then◌else◌,
}
use lit_grove.Diagnostics.{
  Diagnostic, diagnostic, Result, ok, err, ◌>>=◌, ◌>>◌, raise_if, schema_validation_failed,
  duplicate_id, unresolved_reference, invalid_authority, write_conflict,
}
use lit_grove.Jobs.State.{
  Status, created, cancelled, recovering, WaitReason, transaction_recovery, Predecessor,
  predecessor_eq, Authority, authority_eq, JobState,
}
use lit_grove.Jobs.Rules.{
  is_terminal, validate_wait_state, validate_transition, validate_running_progress, Progress,
  progress, progress_eq,
}
use lit_grove.Jobs.Chain.{
  Env, predecessor_of, pipeline_job_chain_diagnostics, current_pipeline_states, first_diagnostic,
}

-- What a call does to the store: nothing, with the state that was there already, or one more state,
-- which `TransactionManager.promote_bytes` then writes with the others.
pub data Mutation : Type 0 where
  unchanged : JobState → Mutation
  appended : JobState → Mutation

-- The states stored after the call.
abbrev pub stored : List JobState → Mutation → List JobState
stored states (unchanged s) = states
stored states (appended s) = states ++ s ∷ []

-- The identifiers that the allocator gives, and the reading of the clock.
pub record Fresh : Type 0 where
  pub job_id : String
  pub state_id : String
  pub now : String

-- What `validate_id` matches with a regular expression.
pub record Ids : Type 0 where
  pub is_job : String → Bool
  pub is_job_state : String → Bool

abbrev pub string_le : String → String → Bool
string_le a b = is_le (compare a b)

-- `len(xs) != len(set(xs))`
abbrev pub has_duplicates : List String → Bool
has_duplicates xs = not (length xs == length (unique_from (λ x. x) [] xs))

-- `sorted(set(xs) | set(ys))`
abbrev pub sorted_union : List String → List String → List String
sorted_union xs ys = sort_by string_le (unique_from (λ x. x) [] (xs ++ ys))

-- `_request_error`
abbrev pub request_error : Option String → String → String → Diagnostic
request_error id message path =
    diagnostic schema_validation_failed "pipeline-job-state" id path message

-- `_cas_error`
abbrev pub cas_error : String → String → Diagnostic
cas_error id message =
    diagnostic write_conflict "pipeline-job-state" (some id) "/predecessor" message

-- `validate_id(value, namespace)`
abbrev pub validate_id : (String → Bool) → String → String → Result (Unit {0})
validate_id matches namespace value = raise_if (not (matches value)) (
    diagnostic schema_validation_failed "identifier" (some value) ""
      (append "invalid identifier for namespace " namespace))

-- `_read_states`, of the records in the file
abbrev pub read_states : Env → List JobState → Result (List JobState)
read_states env states = first_diagnostic (pipeline_job_chain_diagnostics env states) states

-- `x if x is not None else raise`
abbrev pub expect : {A : Type 0} → Option A → Diagnostic → Result A
expect none d = err d
expect (some a) d = ok a

abbrev pub by_revision : JobState → JobState → Bool
by_revision a b = leb a.revision b.revision

abbrev pub history_of : String → List JobState → List JobState
history_of job_id states =
    sort_by by_revision (select (λ (s : JobState). s.job_id == job_id) states)

-- The arguments of `transition`. An increment is a natural number.
pub record Transition : Type 0 where
  pub job_id : String
  pub expected_state_id : String
  pub expected_state_digest : String
  pub status : Status
  pub current_node : String
  pub wait_reason : Option WaitReason
  pub output_refs : List String
  pub retry_increment : ℕ
  pub recovery_action : Option String
  pub actor : String

-- `_transition_intent`
abbrev pub transition_intent : JobState → Transition → Progress
transition_intent previous t = record {
  status = t.status;
  current_node = t.current_node;
  wait_reason = t.wait_reason;
  output_refs = sorted_union previous.output_refs t.output_refs;
  retry_count = previous.retry_count + t.retry_increment;
  recovery_action = t.recovery_action;
}

module _ (env : Env) (ids : Ids) where
  -- The state that `transition` adds after `head`.
  unfoldable pub next_state : Fresh → Transition → JobState → JobState
  next_state fresh t head =
      let intended = transition_intent head t in
      record head {
        state_id = fresh.state_id;
        revision = head.revision + 1;
        predecessor = some (predecessor_of env head);
        current_node = t.current_node;
        status = t.status;
        wait_reason = t.wait_reason;
        output_refs = intended.output_refs;
        retry_count = intended.retry_count;
        recovery_action = t.recovery_action;
        terminal_receipt = is_terminal t.status;
        updated_at = fresh.now;
      }

  -- `_append_state`, up to the transaction
  unfoldable pub append_state : List JobState → JobState → Result Mutation
  append_state states state =
      first_diagnostic (pipeline_job_chain_diagnostics env (states ++ state ∷ [])) (appended state)

  -- The compare-and-swap where the head is the expected state.
  unfoldable pub advance : Fresh → Transition → List JobState → JobState → Result Mutation
  unfolding append_state next_state
  advance fresh t states head = do
    validate_transition head.status t.status
    validate_running_progress (progress head) (transition_intent head t)
    validate_id ids.is_job_state "jobstate" fresh.state_id
    raise_if (contains (map (λ (s : JobState). s.state_id) states) fresh.state_id) (
        diagnostic duplicate_id "pipeline-job-state" (some fresh.state_id) "/state_id"
          "allocated Pipeline Job state ID is already in use")
    append_state states (next_state fresh t head)

  -- The compare-and-swap where another state has become the head: a replay of the same call.
  unfoldable pub replay : Transition → JobState → JobState → Result Mutation
  replay t expected head =
      if head.predecessor
          == some
              (record { state_id = t.expected_state_id; state_digest = t.expected_state_digest })
        && progress head == transition_intent expected t
      then ok (unchanged head)
      else err
          (cas_error t.expected_state_id "Pipeline Job current state changed before transition")

  unfoldable pub swap : Fresh → Transition → List JobState → JobState → JobState → Result Mutation
  unfolding advance replay
  swap fresh t states head expected =
      if head.state_id == t.expected_state_id
      then advance fresh t states head
      else replay t expected head

  unfoldable pub check_request : Transition → Result (Unit {0})
  check_request t = do
    validate_id ids.is_job "job" t.job_id
    validate_id ids.is_job_state "jobstate" t.expected_state_id
    raise_if (not (contains ("cli" ∷ "user" ∷ []) t.actor)) (
        diagnostic invalid_authority "pipeline-job-state" (some t.expected_state_id) "/actor"
          "Pipeline Job transition actor is invalid")
    raise_if (has_duplicates t.output_refs)
        (request_error (some t.expected_state_id) "output refs must be unique" "/output_refs")
    validate_wait_state t.status t.wait_reason t.recovery_action

  unfoldable pub swap_in : Fresh → Transition → List JobState → Result Mutation
  unfolding swap
  swap_in fresh t states = do
    let history = history_of t.job_id states
    head ← expect (get_last? history) (
        diagnostic unresolved_reference "pipeline-job-state" (some t.job_id) "/job_id"
          "Pipeline Job does not exist")
    expected ←
        expect (find (λ (s : JobState). s.state_id == t.expected_state_id) history)
          (cas_error t.expected_state_id "expected Pipeline Job state does not exist")
    raise_if (not (env.canonical_digest expected == t.expected_state_digest))
        (cas_error t.expected_state_id "expected Pipeline Job state digest does not match")
    swap fresh t states head expected

  -- `transition`
  unfoldable pub transition : Fresh → Transition → List JobState → Result Mutation
  unfolding check_request swap_in
  transition fresh t file = do
    check_request t
    states ← read_states env file
    swap_in fresh t states

  -- `_current`
  unfoldable pub current_state : String → List JobState → Result JobState
  current_state job_id file = do
    validate_id ids.is_job "job" job_id
    states ← read_states env file
    current ← current_pipeline_states env states
    expect (find (λ (s : JobState). s.job_id == job_id) current) (
        diagnostic unresolved_reference "pipeline-job-state" (some job_id) "/job_id"
          "Pipeline Job does not exist")

  -- `cancel`
  unfoldable pub cancel :
      Fresh → String → String → String → String → List JobState → Result Mutation
  unfolding current_state
  cancel fresh job_id expected_state_id expected_state_digest actor file = do
    head ← current_state job_id file
    transition fresh
        (record {
          job_id = job_id;
          expected_state_id = expected_state_id;
          expected_state_digest = expected_state_digest;
          status = cancelled;
          current_node = head.current_node;
          wait_reason = none;
          output_refs = [];
          retry_increment = 0;
          recovery_action = none;
          actor = actor;
        })
        file

  -- `recover`
  unfoldable pub recover_job :
      Fresh → String → String → String → String → String → List JobState → Result Mutation
  unfolding current_state
  recover_job fresh job_id expected_state_id expected_state_digest recovery_action actor file = do
    head ← current_state job_id file
    transition fresh
        (record {
          job_id = job_id;
          expected_state_id = expected_state_id;
          expected_state_digest = expected_state_digest;
          status = recovering;
          current_node = head.current_node;
          wait_reason = some transaction_recovery;
          output_refs = [];
          retry_increment = 1;
          recovery_action = some recovery_action;
          actor = actor;
        })
        file
