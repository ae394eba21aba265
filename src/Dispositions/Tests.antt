-- ===== src/Dispositions/Tests.antt =====
-- Runs of the report and of `record`: a finding that is acknowledged and then resolved.
use mathlib.Core.List
use lit_grove.Prelude.{
  Memᴰ, String, ◌≡◌, ◌≢◌, refl, true, none, some, List, [], ◌∷◌, All, Pairwise, select, lookup,
  insert, flat_map, group_from, unique_from, ◌==◌,
}
use lit_grove.Diagnostics.{ok, deduplicate}
use lit_grove.Dispositions.State.{Disposition, GuardianReport, acknowledged, resolved}
use lit_grove.Dispositions.Report.{
  Finding, finding_of, finding_eq, finding_beq, reports_by_id, by_disposition_id, successors,
  follow, unfinished, transition_diagnostics, status_diagnostics, ordered_diagnostics,
  chain_diagnostics, chain_of, root_diagnostics, finding_diagnostics, duplicate_tests,
  item_diagnostics, guardian_disposition_diagnostics, current_guardian_dispositions,
}
use lit_grove.Dispositions.Ends.{chain_of-ends}
use lit_grove.Dispositions.Thread.{IsDecided, DifferentIds, IsOnFinding}
use lit_grove.Dispositions.Accepted.{guardian_disposition_diagnostics-IsDecided}
use lit_grove.Dispositions.Service.{
  Env, Fresh, Request, DispositionResult, check_request, new_disposition, propose, append_new, swap,
  record_disposition,
}
use lit_grove.Dispositions.Heads.{current_guardian_dispositions_unique}
use lit_grove.Dispositions.Replay.{record_disposition-replay}
use lit_grove.Dispositions.Recorded.{Recorded}

abbrev sample_env : Env
sample_env = record {
  finding_digest = λ f. f;
  is_report = λ i. true;
  is_disposition = λ i. true;
  validate_record = λ d. [];
}

abbrev sample_reports : List GuardianReport
sample_reports =
    record { guardian_report_id = "guardian-1"; findings = "broken link" ∷ "old digest" ∷ [] } ∷ []

abbrev first_request : Request
first_request = record {
  guardian_report_id = "guardian-1";
  finding_index = 1;
  status = acknowledged;
  rationale = "seen";
  expected_previous_disposition_id = none;
  actor = "user";
  fixture_origin = none;
}

abbrev second_request : Request
second_request = record first_request {
  status = resolved;
  rationale = "mended";
  expected_previous_disposition_id = some "gdisp-1";
}

abbrev fresh_of : String → Fresh
fresh_of id = record {
  workspace_id = "workspace-1";
  disposition_id = id;
  now = "2026-01-01T00:00:00Z";
}

abbrev first_disposition : Disposition
first_disposition = record {
  disposition_id = "gdisp-1";
  workspace_id = "workspace-1";
  guardian_report_id = "guardian-1";
  finding_index = 1;
  finding_digest = "old digest";
  status = acknowledged;
  rationale = "seen";
  previous_disposition_id = none;
  actor = "user";
  created_at = "2026-01-01T00:00:00Z";
  fixture_origin = none;
}

abbrev second_disposition : Disposition
second_disposition = record first_disposition {
  disposition_id = "gdisp-2";
  status = resolved;
  rationale = "mended";
  previous_disposition_id = some "gdisp-1";
}

-- In the order in which the file has them, the later one first.
abbrev both : List Disposition
both = second_disposition ∷ first_disposition ∷ []

report_of_both : guardian_disposition_diagnostics sample_env.finding_digest sample_reports both ≡ []
unfolding guardian_disposition_diagnostics item_diagnostics duplicate_tests reports_by_id
    finding_diagnostics root_diagnostics chain_of chain_diagnostics ordered_diagnostics
    status_diagnostics transition_diagnostics follow successors by_disposition_id finding_beq
    group_from lookup insert unique_from deduplicate mathlib.Core.List.flat_map
report_of_both = refl

abbrev second_result : DispositionResult
second_result = record {
  disposition = second_disposition;
  proposed = some (first_disposition ∷ second_disposition ∷ []);
}

second_recorded :
    record_disposition sample_env sample_reports
      (first_disposition ∷ [])
      (fresh_of "gdisp-2")
      second_request
    ≡ ok second_result
unfolding guardian_disposition_diagnostics item_diagnostics duplicate_tests reports_by_id
    finding_diagnostics root_diagnostics chain_of chain_diagnostics ordered_diagnostics
    status_diagnostics transition_diagnostics follow successors by_disposition_id finding_beq
    group_from lookup insert unique_from deduplicate mathlib.Core.List.flat_map
    current_guardian_dispositions check_request new_disposition propose append_new swap
    record_disposition
second_recorded = refl

-- The same call again, on the store with the new disposition: nothing is written.
second_replayed :
    record_disposition sample_env sample_reports both (fresh_of "gdisp-3") second_request
    ≡ ok (record { disposition = second_disposition; proposed = none })
unfolding guardian_disposition_diagnostics item_diagnostics duplicate_tests reports_by_id
    finding_diagnostics root_diagnostics chain_of chain_diagnostics ordered_diagnostics
    status_diagnostics transition_diagnostics follow successors by_disposition_id finding_beq
    group_from lookup insert unique_from deduplicate mathlib.Core.List.flat_map
    current_guardian_dispositions check_request new_disposition propose append_new swap
    record_disposition
second_replayed = refl

chain_of-ends_example : chain_of first_disposition both ≢ unfinished
chain_of-ends_example = chain_of-ends first_disposition both

guardian_disposition_diagnostics-IsDecided_example :
    Pairwise DifferentIds both
    × All (IsOnFinding sample_env.finding_digest sample_reports) both
    × ((finding : Finding) → IsDecided (select (λ (d : Disposition). finding_of d == finding) both))
guardian_disposition_diagnostics-IsDecided_example =
    guardian_disposition_diagnostics-IsDecided sample_env.finding_digest sample_reports both
      report_of_both

both_current :
    current_guardian_dispositions sample_env.finding_digest sample_reports both
    ≡ ok (second_disposition ∷ [])
unfolding guardian_disposition_diagnostics item_diagnostics duplicate_tests reports_by_id
    finding_diagnostics root_diagnostics chain_of chain_diagnostics ordered_diagnostics
    status_diagnostics transition_diagnostics follow successors by_disposition_id finding_beq
    group_from lookup insert unique_from deduplicate mathlib.Core.List.flat_map
    current_guardian_dispositions
both_current = refl

current_guardian_dispositions_unique_example :
    ◌≡◌ {A = Disposition} second_disposition second_disposition
current_guardian_dispositions_unique_example =
    current_guardian_dispositions_unique sample_env.finding_digest sample_reports both
      (second_disposition ∷ []) second_disposition second_disposition both_current (Memᴰ.head refl)
      (Memᴰ.head refl) refl

record_disposition-replay_example :
    record_disposition sample_env sample_reports
      (first_disposition ∷ second_disposition ∷ [])
      (fresh_of "gdisp-3")
      second_request
    ≡ ok (record { disposition = second_disposition; proposed = none })
record_disposition-replay_example =
    record_disposition-replay sample_env sample_reports (first_disposition ∷ [])
      (first_disposition ∷ second_disposition ∷ []) (fresh_of "gdisp-2") (fresh_of "gdisp-3")
      second_request second_result second_recorded refl
