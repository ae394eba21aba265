-- ===== src/Jobs/Service/Create.antt =====
-- `PipelineJobService.create` (services/pipeline_job.py).
use lit_grove.Prelude.{
  String, Bool, false, not, ◌||◌, ◌&&◌, Option, none, some, List, [], map, contains, find, sort_by,
  ◌==◌, string_eq, option_eq, list_eq, nat_eq, if◌then◌else◌,
}
use lit_grove.Diagnostics.{
  diagnostic, Result, ok, err, ◌>>=◌, ◌>>◌, raise_if, duplicate_id, invalid_authority,
  write_conflict,
}
use lit_grove.Jobs.State.{created, predecessor_eq, Authority, authority_eq, JobState}
use lit_grove.Jobs.Rules.{progress_eq}
use lit_grove.Jobs.Chain.{Env, current_pipeline_states}
use lit_grove.Jobs.Service.{
  Mutation, unchanged, Fresh, Ids, string_le, has_duplicates, request_error, validate_id,
  read_states, expect, append_state,
}

-- The arguments of `create`.
pub record Creation : Type 0 where
  pub requested_route : String
  pub requested_depth : String
  pub current_node : String
  pub input_refs : List String
  pub authority_snapshot : Authority
  pub idempotency_key : String
  pub actor : String
  pub fixture_origin : Option String

-- `_normalize_authority_snapshot`, of a snapshot with the fields of the contract
unfoldable pub normalize_authority_snapshot : Authority → Result Authority
normalize_authority_snapshot value = do
  raise_if (not (value.actor == "user")) (
      request_error none "Pipeline Job creation requires a user authority snapshot"
        "/authority_snapshot/actor")
  raise_if (has_duplicates value.granted_operations) (
      request_error none "granted operations must be unique"
        "/authority_snapshot/granted_operations")
  ok (record {
    actor = "user";
    granted_operations = sort_by string_le value.granted_operations;
    captured_at = value.captured_at;
  })

-- `_creation_intent(root) == requested_intent`
unfoldable pub has_intent : JobState → Creation → Authority → Bool
has_intent root c authority =
    root.requested_route == c.requested_route
    && root.requested_depth == c.requested_depth
    && root.current_node == c.current_node
    && root.input_refs == sort_by string_le c.input_refs
    && root.authority_snapshot == authority
    && root.idempotency_key == c.idempotency_key
    && root.fixture_origin == c.fixture_origin

module _ (env : Env) (ids : Ids) (workspace_id : String) where
  unfoldable pub first_state : Fresh → Creation → Authority → JobState
  first_state fresh c authority = record {
    state_id = fresh.state_id;
    job_id = fresh.job_id;
    workspace_id = workspace_id;
    revision = 1;
    predecessor = none;
    requested_route = c.requested_route;
    requested_depth = c.requested_depth;
    current_node = c.current_node;
    status = created;
    wait_reason = none;
    input_refs = sort_by string_le c.input_refs;
    output_refs = [];
    authority_snapshot = authority;
    idempotency_key = c.idempotency_key;
    retry_count = 0;
    recovery_action = none;
    terminal_receipt = false;
    created_at = fresh.now;
    updated_at = fresh.now;
    fixture_origin = c.fixture_origin;
  }

  -- The key is bound: the same request again, or another one. (A store whose report is empty has a first
  -- state for each of its jobs.)
  unfoldable pub answer_bound : Creation → Authority → List JobState → JobState → Result Mutation
  unfolding has_intent
  answer_bound c authority states existing = do
    root ←
        expect (find (λ (s : JobState). s.job_id == existing.job_id && s.revision == 1) states)
          (request_error none "no first state" "")
    (if has_intent root c authority
        then ok (unchanged existing)
        else err (
            diagnostic write_conflict "pipeline-job-state" (some existing.state_id)
              "/idempotency_key"
              "Pipeline Job idempotency key is already bound to different content"))

  unfoldable pub create_new : Fresh → Creation → Authority → List JobState → Result Mutation
  unfolding first_state append_state
  create_new fresh c authority states = do
    validate_id ids.is_job "job" fresh.job_id
    validate_id ids.is_job_state "jobstate" fresh.state_id
    raise_if
        (contains (map (λ (s : JobState). s.job_id) states) fresh.job_id
          || contains (map (λ (s : JobState). s.state_id) states) fresh.state_id)
        (diagnostic duplicate_id "pipeline-job-state" (some fresh.state_id) "/state_id"
          "allocated Pipeline Job ID is already in use")
    append_state env ids states (first_state fresh c authority)

  unfoldable pub answer :
      Fresh → Creation → Authority → List JobState → Option JobState → Result Mutation
  unfolding answer_bound create_new
  answer fresh c authority states none = create_new fresh c authority states
  answer fresh c authority states (some existing) = answer_bound c authority states existing

  -- `create`
  unfoldable pub create : Fresh → Creation → List JobState → Result Mutation
  unfolding normalize_authority_snapshot answer
  create fresh c file = do
    raise_if (not (c.actor == "user")) (
        diagnostic invalid_authority "pipeline-job-state" none "/actor"
          "Pipeline Job creation requires explicit user authority")
    raise_if (has_duplicates c.input_refs)
        (request_error none "input refs must be unique" "/input_refs")
    authority ← normalize_authority_snapshot c.authority_snapshot
    states ← read_states env file
    current ← current_pipeline_states env states
    answer fresh c authority states
        (find (λ (s : JobState). s.idempotency_key == c.idempotency_key) current)
