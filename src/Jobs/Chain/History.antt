-- ===== src/Jobs/Chain/History.antt =====
-- What it means for the states of one job to be its history.
use lit_grove.Prelude.{
  is_subset, ◌≤◌, ◌≡◌, true, none, some, List, [], ◌∷◌, map, string_eq, nat_eq, list_eq, option_eq,
}
use lit_grove.Diagnostics.{ok}
use lit_grove.Jobs.State.{created, status_eq, predecessor_eq, authority_eq, JobState}
use lit_grove.Jobs.Rules.{
  is_terminal, validate_wait_state, validate_transition, validate_running_progress, progress,
}
use lit_grove.Jobs.Chain.{Env, predecessor_of, revisions_from}

-- The fields that a job keeps for good.
pub record IsSameJob (root state : JobState) : Type 0 where
  pub workspace_id : state.workspace_id ≡ root.workspace_id
  pub requested_route : state.requested_route ≡ root.requested_route
  pub requested_depth : state.requested_depth ≡ root.requested_depth
  pub input_refs : state.input_refs ≡ root.input_refs
  pub authority_snapshot : state.authority_snapshot ≡ root.authority_snapshot
  pub idempotency_key : state.idempotency_key ≡ root.idempotency_key
  pub created_at : state.created_at ≡ root.created_at
  pub fixture_origin : state.fixture_origin ≡ root.fixture_origin

pub record IsRoot (root : JobState) : Type 0 where
  pub predecessor : root.predecessor ≡ none
  pub status : root.status ≡ created
  pub retry_count : root.retry_count ≡ 0
  pub output_refs : root.output_refs ≡ []
  pub updated_at : root.updated_at ≡ root.created_at
  pub wait : validate_wait_state root.status root.wait_reason root.recovery_action ≡ ok tt
  pub receipt : root.terminal_receipt ≡ is_terminal root.status

-- `state` may follow `previous` in the job that begins with `root`.
pub record IsStep (env : Env) (root previous state : JobState) : Type 0 where
  pub receipt : state.terminal_receipt ≡ is_terminal state.status
  pub predecessor : state.predecessor ≡ some (predecessor_of env previous)
  pub same_job : IsSameJob root state
  pub outputs : is_subset previous.output_refs state.output_refs ≡ true
  pub transition : validate_transition previous.status state.status ≡ ok tt
  pub wait : validate_wait_state state.status state.wait_reason state.recovery_action ≡ ok tt
  pub running : validate_running_progress (progress previous) (progress state) ≡ ok tt
  pub retries : previous.retry_count ≤ state.retry_count
  pub time : env.parse_timestamp previous.updated_at ≤ env.parse_timestamp state.updated_at

pub data Follows (env : Env) (root : JobState) : JobState → List JobState → Type 0 where
  last : {previous : JobState} → Follows env root previous []
  next :
      {previous state : JobState} {states : List JobState}
      → IsStep env root previous state
      → Follows env root state states
      → Follows env root previous (state ∷ states)

-- The states of one job, in the order of their revisions, are its history.
abbrev pub IsHistory : Env → List JobState → Type 0
IsHistory env [] = Unit
IsHistory env (root ∷ states) =
    (map (λ (s : JobState). s.revision) (root ∷ states) ≡ revisions_from 1 (root ∷ states))
    × IsRoot root
    × Follows env root root states
