-- ===== src/Transactions/Manager/Tests.antt =====
-- A promotion of two bytes to a new file, run with and without a crash after the rename.
use lit_grove.Transactions.Samples.{
  sample_env, sample_request, empty_disk, first_journal, crash_after_rename,
}
use lit_grove.Prelude.{insert, lookup, false, ◌≢◌, ◌≡◌, refl, none, some, [], Memᴰ}
use lit_grove.Transactions.State.{
  find_event, temporary_beq, put_file, put_journal, event_at, journal_at,
}
use lit_grove.Transactions.Action.{
  atomic_write_bytes, write_fsynced_temp, replace_temp, open_exclusive, unlink, call, effect,
  faulty, without,
}
use lit_grove.Transactions.Rules.{world, Ends}
use lit_grove.Transactions.FaultFree.{Returns, quiet_rest}
use lit_grove.Transactions.Manager.{
  conflicts, digest, promote_body, clean_up, ensure_event_id_available, refuse_used, write_journal,
  validate_journal, phase_allows, set_state, post_replace_validation, append_result_event,
  promote_bytes, new_journal, file_sha256, record_failure,
}
use lit_grove.Transactions.Manager.Atomicity.{Done, Ended, promote_bytes-Ends}
use lit_grove.Transactions.Manager.Promoted.{own, Promoted, promote_bytes-Returns}
use lit_grove.Transactions.Manager.Recorded.{Recorded, Unrecorded, record_failure-Ends}
use lit_grove.Transactions.Recovery.{recover_journal}
use lit_grove.Transactions.Recovery.Crash.{Over, recover_journal-promote_bytes}

digest_changes : file_sha256 sample_env "pipeline_jobs.jsonl" empty_disk ≢ some "full"
unfolding file_sha256 digest
digest_changes h = cc

promote_bytes-Ends_example :
    Ends
      (Done sample_env sample_request empty_disk digest_changes)
      (Ended sample_env sample_request empty_disk digest_changes)
      (promote_bytes sample_env sample_request (world empty_disk first_journal crash_after_rename))
promote_bytes-Ends_example =
    promote_bytes-Ends sample_env sample_request empty_disk digest_changes first_journal
      crash_after_rename

not_conflicting :
    conflicts (some none) (file_sha256 sample_env "pipeline_jobs.jsonl" empty_disk) ≡ false
unfolding file_sha256 digest
not_conflicting = refl

no_event : event_at "event-1" empty_disk ≡ none
unfolding find_event
no_event = refl

no_journal : journal_at "event-1" empty_disk ≡ none
unfolding lookup
no_journal = refl

promote_bytes-Returns_example :
    Returns (own sample_env sample_request) (Promoted sample_env sample_request empty_disk 0) (
      promote_bytes sample_env sample_request
        (world empty_disk first_journal (quiet_rest [] none 0)))
promote_bytes-Returns_example =
    promote_bytes-Returns sample_env sample_request empty_disk first_journal [] none 0
      not_conflicting no_event no_journal (refl, (refl, (refl, tt)))

left_journal :
    journal_at "event-1"
      (promote_bytes sample_env sample_request
        (world empty_disk first_journal crash_after_rename)).1.canonical
    ≡ some first_journal
unfolding promote_bytes promote_body clean_up new_journal file_sha256 digest
    ensure_event_id_available refuse_used write_journal validate_journal phase_allows set_state
    post_replace_validation append_result_event atomic_write_bytes write_fsynced_temp replace_temp
    open_exclusive unlink call effect faulty without put_file put_journal insert lookup find_event
    temporary_beq
left_journal = refl

recover_journal-promote_bytes_example :
    Returns
      (own sample_env sample_request)
      (λ _ c' j'. Over sample_env sample_request empty_disk digest_changes c')
      (recover_journal sample_env false
        (promote_bytes sample_env sample_request
          (world empty_disk first_journal crash_after_rename)).1.canonical.events
        first_journal
        (world
          (promote_bytes sample_env sample_request
            (world empty_disk first_journal crash_after_rename)).1.canonical
          first_journal
          (quiet_rest [] none 1)))
recover_journal-promote_bytes_example =
    recover_journal-promote_bytes sample_env sample_request empty_disk digest_changes
      (own sample_env sample_request) (Memᴰ.head refl) (Memᴰ.tail (Memᴰ.head refl)) first_journal
      crash_after_rename first_journal first_journal [] none 1 no_journal left_journal
      (refl, (refl, tt))

record_failure-Ends_example :
    Ends
      (Recorded sample_env "event-2" "pipeline.create" "cli" [] (some "job-1") empty_disk)
      (Unrecorded sample_env "event-2" "pipeline.create" "cli" [] (some "job-1") empty_disk)
      (record_failure sample_env "event-2" "pipeline.create" "cli" []
        (some "job-1")
        (world empty_disk first_journal (quiet_rest [] none 0)))
record_failure-Ends_example =
    record_failure-Ends sample_env "event-2" "pipeline.create" "cli" [] (some "job-1") empty_disk
      first_journal (quiet_rest [] none 0)
