-- ===== src/Transactions/Integrity/Tests.antt =====
-- Runs of the report on the completed journals: two journals of one target, out of order on disk.
use lit_grove.Prelude.{
  Pairwise, String, ◌≡◌, ◌↔◌, refl, none, some, List, [], ◌∷◌, All, length, string_eq, flat_map,
  group_from, lookup,
}
use lit_grove.Transactions.State.{complete, success, failure, Journal, Event, event_beq}
use lit_grove.Transactions.Manager.{journal_event}
use lit_grove.Transactions.Targets.{after_prefix, ends_with, transaction_target_matches_store}
use lit_grove.Transactions.Targets.Owner.{transaction_target_matches_store_unique}
use lit_grove.Transactions.Integrity.{
  accepted, JournalFile, safe, Disk, TargetKey, target_key_eq, examine_all, examine,
  examine_journal, binding_diagnostics, matching_events, event_diagnostics, target_key_beq,
  group_diagnostics, items_diagnostics, link_diagnostics, chain_diagnostics, current_diagnostics,
  transaction_integrity_diagnostics,
}
use lit_grove.Transactions.Integrity.Sound.{IsSound, IsLinked, Precedes}
use lit_grove.Transactions.Integrity.Accepted.{
  journals_of, transaction_integrity_diagnostics-IsLinked,
}

abbrev written : Journal
written = record {
  event_id = "event-2";
  job_id = none;
  operation = "registry_write";
  actor = "system";
  target_store = "registry";
  target_relative_path = "registry/papers.jsonl";
  before_sha256 = none;
  after_sha256 = "one";
  input_refs = [];
  output_refs = "paper-1" ∷ [];
  phase = complete;
  result = some success;
  created_at = "2026-01-01T00:00:00Z";
  updated_at = "2026-01-01T00:00:00Z";
  fixture_origin = none;
}

abbrev written_again : Journal
written_again = record written {
  event_id = "event-1";
  before_sha256 = some "one";
  after_sha256 = "two";
  result = some failure;
}

abbrev event_log : List Event
event_log = journal_event written success ∷ journal_event written_again failure ∷ []

abbrev journal_files : List JournalFile
journal_files =
    record { name = "event-1.json"; content = accepted written_again }
    ∷ record { name = "event-2.json"; content = accepted written }
    ∷ []

abbrev disk_at : String → Disk
disk_at digest = record {
  str = λ n. "n";
  inspect = λ path. safe;
  current_digest = λ path. some (some digest);
}

-- A failed write leaves the digest of the one before it.
report_is_empty : transaction_integrity_diagnostics (disk_at "one") event_log journal_files ≡ []
unfolding transaction_integrity_diagnostics examine_all examine examine_journal binding_diagnostics
    transaction_target_matches_store after_prefix matching_events event_diagnostics journal_event
    event_beq target_key_beq group_from group_diagnostics items_diagnostics link_diagnostics
    chain_diagnostics current_diagnostics mathlib.Core.List.flat_map lookup
report_is_empty = refl

changed_file :
    length (transaction_integrity_diagnostics (disk_at "two") event_log journal_files) ≡ 1
unfolding transaction_integrity_diagnostics examine_all examine examine_journal binding_diagnostics
    transaction_target_matches_store after_prefix matching_events event_diagnostics journal_event
    event_beq target_key_beq group_from group_diagnostics items_diagnostics link_diagnostics
    chain_diagnostics current_diagnostics mathlib.Core.List.flat_map lookup
changed_file = refl

transaction_integrity_diagnostics-IsLinked_example :
    (transaction_integrity_diagnostics (disk_at "one") event_log journal_files ≡ []) ↔ (
      All (IsSound (disk_at "one") event_log) journal_files
      × ((target : TargetKey)
          → IsLinked (disk_at "one") (journals_of event_log journal_files target)
            × Pairwise (Precedes event_log) (journals_of event_log journal_files target)))
transaction_integrity_diagnostics-IsLinked_example =
    transaction_integrity_diagnostics-IsLinked (disk_at "one") event_log journal_files

transaction_target_matches_store_unique_example : ◌≡◌ {A = String} "pipeline_jobs" "pipeline_jobs"
unfolding transaction_target_matches_store after_prefix ends_with lookup
transaction_target_matches_store_unique_example =
    transaction_target_matches_store_unique "pipeline_jobs" "pipeline_jobs" "process/jobs.jsonl"
      refl refl
