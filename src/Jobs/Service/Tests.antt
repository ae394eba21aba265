-- ===== src/Jobs/Service/Tests.antt =====
-- A job that is created, started, and started again by a repeated and by a competing call.
use lit_grove.Jobs.Chain.Groups.{pipeline_job_chain_diagnostics-IsHistory}
use lit_grove.Jobs.Chain.Ids.{AreCompatible}
use lit_grove.Prelude.{
  ◌⊎◌, String, sort_by, select, ◌==◌, string_eq, ◌↔◌, ◌≡◌, refl, true, none, some, [], ◌∷◌, ◌++◌,
  unique_from, lookup, insert, Pairwise,
}
use lit_grove.Diagnostics.{ok, err, deduplicate, key_beq}
use lit_grove.Jobs.State.{
  running, cancelled, paused, user_paused, authority_beq, predecessor_beq, JobState,
}
use lit_grove.Jobs.Rules.{
  validate_wait_state, validate_wait_reason, validate_recovery_action, validate_transition,
  validate_running_progress, progress_checks, progress_beq,
}
use lit_grove.Jobs.Chain.{
  in_order, Env, set_default, is_bound_elsewhere, gather_tests, gather, gather_all, root_tests,
  stable_tests, receipt_tests, predecessor_tests, output_tests, monotone_tests, step_diagnostics,
  walk, root_diagnostics, ordered_diagnostics, job_diagnostics, pipeline_job_chain_diagnostics,
  current_pipeline_states, keep_newest,
}
use lit_grove.Jobs.Chain.Monotone.{Keeps, ordered_diagnostics-Keeps}
use lit_grove.Jobs.Chain.History.{IsHistory}
use lit_grove.Jobs.Chain.Report.{ordered_diagnostics-eq-nil}
use lit_grove.Jobs.Lifecycle.{IsFinal, IsOpen, validate_transition-IsOpen}
use lit_grove.Jobs.Service.{
  cancel, current_state, unchanged, appended, stored, Fresh, Ids, Transition, cas_error, next_state,
  append_state, advance, replay, swap, check_request, swap_in, transition,
}
use lit_grove.Jobs.Service.Create.{
  Creation, normalize_authority_snapshot, has_intent, first_state, answer_bound, create_new, answer,
  create,
}
use lit_grove.Jobs.Service.Accepted.{transition-stored}
use lit_grove.Jobs.Service.Replay.{transition-replay}
use lit_grove.Jobs.Service.Race.{transition-conflict}
use lit_grove.Jobs.Service.Ending.{cancel-appended}
use lit_grove.Jobs.Service.Creating.{create-stored}

abbrev sample_env : Env
sample_env = record { canonical_digest = λ s. s.state_id; parse_timestamp = λ t. 0 }

abbrev sample_ids : Ids
sample_ids = record { is_job = λ s. true; is_job_state = λ s. true }

abbrev sample_creation : Creation
sample_creation = record {
  requested_route = "local_source";
  requested_depth = "parse_only";
  current_node = "intake";
  input_refs = "paper-1" ∷ [];
  authority_snapshot = record {
    actor = "user";
    granted_operations = [];
    captured_at = "2026-01-01T00:00:00Z";
  };
  idempotency_key = "key-1";
  actor = "user";
  fixture_origin = none;
}

abbrev first_fresh : Fresh
first_fresh = record { job_id = "job-1"; state_id = "jobstate-1"; now = "2026-01-01T00:00:00Z" }

abbrev next_fresh : Fresh
next_fresh = record { job_id = "job-1"; state_id = "jobstate-2"; now = "2026-01-02T00:00:00Z" }

abbrev last_fresh : Fresh
last_fresh = record { job_id = "job-1"; state_id = "jobstate-3"; now = "2026-01-03T00:00:00Z" }

abbrev sample_first : JobState
sample_first =
    first_state sample_env sample_ids "workspace-1" first_fresh sample_creation
      sample_creation.authority_snapshot

created_first :
    create sample_env sample_ids "workspace-1" first_fresh sample_creation []
    ≡ ok (appended sample_first)
unfolding unique_from deduplicate key_beq lookup insert authority_beq predecessor_beq
    validate_wait_state validate_wait_reason validate_recovery_action validate_transition
    validate_running_progress progress_checks progress_beq set_default is_bound_elsewhere
    gather_tests gather gather_all root_tests stable_tests receipt_tests predecessor_tests
    output_tests monotone_tests step_diagnostics walk root_diagnostics ordered_diagnostics
    job_diagnostics pipeline_job_chain_diagnostics current_pipeline_states keep_newest next_state
    append_state advance replay swap check_request swap_in transition normalize_authority_snapshot
    has_intent first_state answer_bound create_new answer create mathlib.Core.List.flat_map
created_first = refl

abbrev start : Transition
start = record {
  job_id = "job-1";
  expected_state_id = "jobstate-1";
  expected_state_digest = "jobstate-1";
  status = running;
  current_node = "parse";
  wait_reason = none;
  output_refs = "parse-1" ∷ [];
  retry_increment = 0;
  recovery_action = none;
  actor = "cli";
}

abbrev pause : Transition
pause = record start { status = paused; wait_reason = some user_paused }

abbrev sample_running : JobState
sample_running = next_state sample_env sample_ids next_fresh start sample_first

started :
    transition sample_env sample_ids next_fresh start (sample_first ∷ [])
    ≡ ok (appended sample_running)
unfolding unique_from deduplicate key_beq lookup insert authority_beq predecessor_beq
    validate_wait_state validate_wait_reason validate_recovery_action validate_transition
    validate_running_progress progress_checks progress_beq set_default is_bound_elsewhere
    gather_tests gather gather_all root_tests stable_tests receipt_tests predecessor_tests
    output_tests monotone_tests step_diagnostics walk root_diagnostics ordered_diagnostics
    job_diagnostics pipeline_job_chain_diagnostics current_pipeline_states keep_newest next_state
    append_state advance replay swap check_request swap_in transition normalize_authority_snapshot
    has_intent first_state answer_bound create_new answer create mathlib.Core.List.flat_map
started = refl

create-stored_example :
    pipeline_job_chain_diagnostics sample_env (stored [] (appended sample_first)) ≡ []
create-stored_example =
    create-stored sample_env sample_ids "workspace-1" first_fresh sample_creation []
      (appended sample_first) created_first

transition-stored_example :
    pipeline_job_chain_diagnostics sample_env (stored (sample_first ∷ []) (appended sample_running))
    ≡ []
transition-stored_example =
    transition-stored sample_env sample_ids next_fresh start (sample_first ∷ [])
      (appended sample_running) started

transition-replay_example :
    transition sample_env sample_ids last_fresh start ((sample_first ∷ []) ++ sample_running ∷ [])
    ≡ ok (unchanged sample_running)
transition-replay_example =
    transition-replay sample_env sample_ids next_fresh start (sample_first ∷ []) sample_running
      last_fresh started

pause_request : check_request sample_env sample_ids pause ≡ ok tt
unfolding unique_from deduplicate key_beq lookup insert authority_beq predecessor_beq
    validate_wait_state validate_wait_reason validate_recovery_action validate_transition
    validate_running_progress progress_checks progress_beq set_default is_bound_elsewhere
    gather_tests gather gather_all root_tests stable_tests receipt_tests predecessor_tests
    output_tests monotone_tests step_diagnostics walk root_diagnostics ordered_diagnostics
    job_diagnostics pipeline_job_chain_diagnostics current_pipeline_states keep_newest next_state
    append_state advance replay swap check_request swap_in transition normalize_authority_snapshot
    has_intent first_state answer_bound create_new answer create mathlib.Core.List.flat_map
pause_request = refl

transition-conflict_example :
    transition sample_env sample_ids last_fresh pause ((sample_first ∷ []) ++ sample_running ∷ [])
    ≡ err (cas_error "jobstate-1" "Pipeline Job current state changed before transition")
transition-conflict_example =
    transition-conflict sample_env sample_ids next_fresh start (sample_first ∷ []) sample_running
      last_fresh pause started refl refl refl pause_request refl

sample_history : ordered_diagnostics sample_env (sample_first ∷ sample_running ∷ []) ≡ []
unfolding unique_from deduplicate key_beq lookup insert authority_beq predecessor_beq
    validate_wait_state validate_wait_reason validate_recovery_action validate_transition
    validate_running_progress progress_checks progress_beq set_default is_bound_elsewhere
    gather_tests gather gather_all root_tests stable_tests receipt_tests predecessor_tests
    output_tests monotone_tests step_diagnostics walk root_diagnostics ordered_diagnostics
    job_diagnostics pipeline_job_chain_diagnostics current_pipeline_states keep_newest next_state
    append_state advance replay swap check_request swap_in transition normalize_authority_snapshot
    has_intent first_state answer_bound create_new answer create mathlib.Core.List.flat_map
sample_history = refl

ordered_diagnostics-Keeps_example : Pairwise (Keeps sample_env) (sample_first ∷ sample_running ∷ [])
ordered_diagnostics-Keeps_example =
    ordered_diagnostics-Keeps sample_env (sample_first ∷ sample_running ∷ []) sample_history

ordered_diagnostics-eq-nil_example :
    (ordered_diagnostics sample_env (sample_first ∷ sample_running ∷ []) ≡ [])
    ↔ IsHistory sample_env (sample_first ∷ sample_running ∷ [])
ordered_diagnostics-eq-nil_example =
    ordered_diagnostics-eq-nil sample_env (sample_first ∷ sample_running ∷ [])

validate_transition-IsOpen_example : IsFinal paused ⊎ IsOpen paused
validate_transition-IsOpen_example = validate_transition-IsOpen paused

abbrev sample_cancelled : JobState
sample_cancelled =
    next_state sample_env sample_ids last_fresh
      (record start {
        expected_state_id = "jobstate-2";
        expected_state_digest = "jobstate-2";
        status = cancelled;
        output_refs = [];
      })
      sample_running

cancelled_running :
    cancel sample_env sample_ids last_fresh "job-1" "jobstate-2" "jobstate-2" "user"
      (sample_first ∷ sample_running ∷ [])
    ≡ ok (appended sample_cancelled)
unfolding unique_from deduplicate key_beq lookup insert authority_beq predecessor_beq
    validate_wait_state validate_wait_reason validate_recovery_action validate_transition
    validate_running_progress progress_checks progress_beq set_default is_bound_elsewhere
    gather_tests gather gather_all root_tests stable_tests receipt_tests predecessor_tests
    output_tests monotone_tests step_diagnostics walk root_diagnostics ordered_diagnostics
    job_diagnostics pipeline_job_chain_diagnostics current_pipeline_states keep_newest next_state
    append_state advance replay swap check_request swap_in transition normalize_authority_snapshot
    has_intent first_state answer_bound create_new answer create mathlib.Core.List.flat_map cancel
    current_state
cancelled_running = refl

cancel-appended_example :
    (sample_cancelled.status ≡ cancelled)
    × (sample_cancelled.terminal_receipt ≡ true)
    × (sample_cancelled.wait_reason ≡ none)
    × (sample_cancelled.recovery_action ≡ none)
    × (pipeline_job_chain_diagnostics sample_env
          ((sample_first ∷ sample_running ∷ []) ++ sample_cancelled ∷ [])
        ≡ [])
cancel-appended_example =
    cancel-appended sample_env sample_ids last_fresh "job-1" "jobstate-2" "jobstate-2" "user"
      (sample_first ∷ sample_running ∷ []) sample_cancelled cancelled_running

sample_report : pipeline_job_chain_diagnostics sample_env (sample_first ∷ sample_running ∷ []) ≡ []
unfolding unique_from deduplicate key_beq lookup insert authority_beq predecessor_beq
    validate_wait_state validate_wait_reason validate_recovery_action validate_transition
    validate_running_progress progress_checks progress_beq set_default is_bound_elsewhere
    gather_tests gather gather_all root_tests stable_tests receipt_tests predecessor_tests
    output_tests monotone_tests step_diagnostics walk root_diagnostics ordered_diagnostics
    job_diagnostics pipeline_job_chain_diagnostics current_pipeline_states keep_newest next_state
    append_state advance replay swap check_request swap_in transition normalize_authority_snapshot
    has_intent first_state answer_bound create_new answer create mathlib.Core.List.flat_map
sample_report = refl

pipeline_job_chain_diagnostics-IsHistory_example :
    (pipeline_job_chain_diagnostics sample_env (sample_first ∷ sample_running ∷ []) ≡ []) ↔ (
      Pairwise AreCompatible (sample_first ∷ sample_running ∷ [])
      × ((job_id : String)
          → IsHistory sample_env (
              sort_by in_order (
                select
                  (λ (s : JobState). s.job_id == job_id)
                  (sample_first ∷ sample_running ∷ [])))))
pipeline_job_chain_diagnostics-IsHistory_example =
    pipeline_job_chain_diagnostics-IsHistory sample_env (sample_first ∷ sample_running ∷ [])
