-- ===== src/Transactions/Recovery/Tests.antt =====
-- Runs of recovery on a workspace with one journal, in the phase `prepared`.
use lit_grove.Prelude.{All, false, ◌↔◌, ◌≡◌, refl, true, none, some, List, [], ◌∷◌, Memᴰ, lookup}
use lit_grove.Transactions.State.{
  temporary_beq, target_replaced, Canonical, success, Journal, Temporary, of_journal, of_events,
  find_event, event_beq,
}
use lit_grove.Transactions.Rules.{world, Ends}
use lit_grove.Transactions.FaultFree.{Returns, quiet_rest}
use lit_grove.Transactions.Stages.{Stage, prepared_old, marked}
use lit_grove.Transactions.Manager.{file_sha256, digest, new_journal, phase_allows, journal_event}
use lit_grove.Transactions.Samples.{sample_env, first_journal, prepared_disk, crash_after_rename}
use lit_grove.Transactions.Recovery.{
  of_incomplete, of_digest, finish, branch, recover, recover_journal, recovery_result,
}
use lit_grove.Transactions.Recovery.Settle.{Pending}
use lit_grove.Transactions.Recovery.Loop.{Ready, AllSettled, journals_of, recover-Returns}
use lit_grove.Transactions.Recovery.DryRun.{recover-Ends}
use lit_grove.Transactions.Recovery.Service.{
  Examined, branch_of, report_of, leaves_open, recovery_result_lem,
}
use lit_grove.Transactions.Recovery.Leftover.{IsStuck, recover_journal-IsStuck}

abbrev own_files : List Temporary
own_files = of_journal "event-1" ∷ of_events "event-1" ∷ []

abbrev at_start : Journal → Stage
at_start j = prepared_old

prepared_disk-Pending : Pending sample_env first_journal prepared_old prepared_disk
unfolding lookup file_sha256 digest new_journal find_event
prepared_disk-Pending = record {
  stamp = "2026-01-01T00:00:00Z";
  journal = refl;
  digest = refl;
  event = refl;
}

first_journal-Ready : Ready sample_env own_files at_start [] prepared_disk first_journal
unfolding lookup new_journal find_event
first_journal-Ready = record {
  changes = λ h. cc;
  pending = prepared_disk-Pending;
  on_disk = refl;
  recorded = refl;
  no_journal_file = Memᴰ.head refl;
  no_events_file = Memᴰ.tail (Memᴰ.head refl);
}

recover-Returns_example :
    Returns own_files
      (λ _ c' j'.
        AllSettled sample_env own_files at_start
          (journals_of sample_env own_files at_start prepared_disk)
          prepared_disk
          c')
      (recover sample_env false (world prepared_disk first_journal (quiet_rest [] none 1)))
recover-Returns_example =
    recover-Returns sample_env own_files at_start prepared_disk first_journal [] none 1 (tt, tt)
      (first_journal-Ready, tt) (refl, (refl, tt))

recover-Ends_example :
    Ends
      (λ _ c' j'. c' ≡ prepared_disk)
      (λ c' j'. c' ≡ prepared_disk)
      (recover sample_env true (world prepared_disk first_journal crash_after_rename))
recover-Ends_example = recover-Ends sample_env prepared_disk first_journal crash_after_rename

-- One journal to repair, and one whose target has a digest that is neither.
abbrev sample_rounds : List Examined
sample_rounds =
    record { journal = first_journal; existing = none; current = none }
    ∷ record { journal = first_journal; existing = none; current = some "other" }
    ∷ []

recovery_result_lem_example :
    ((recovery_result (report_of sample_rounds)).exit_code ≡ 4
      ↔ ((x : Examined) × Memᴰ x sample_rounds × (leaves_open (branch_of x) ≡ true)))
    × ((recovery_result (report_of sample_rounds)).exit_code ≡ 0
        ↔ All (λ (x : Examined). leaves_open (branch_of x) ≡ false) sample_rounds)
recovery_result_lem_example = recovery_result_lem sample_rounds

-- The journal is behind its event: the crash came while the journal was written.
abbrev logged_journal : Journal
logged_journal = marked first_journal target_replaced none "2026-01-01T00:00:00Z"

abbrev logged_disk : Canonical
logged_disk = record {
  files = λ p. some (123 ∷ 125 ∷ []);
  journals = ("event-1", logged_journal) ∷ [];
  events = journal_event logged_journal success ∷ [];
}

logged_branch :
    branch logged_journal
      (find_event "event-1" logged_disk.events)
      (file_sha256 sample_env "pipeline_jobs.jsonl" logged_disk)
    ≡ finish success
unfolding branch find_event file_sha256 digest new_journal journal_event event_beq of_incomplete
    of_digest
logged_branch = refl

recover_journal-IsStuck_example : IsStuck logged_disk (of_journal "event-1" ∷ []) (
    recover_journal sample_env false logged_disk.events logged_journal
      (world logged_disk first_journal (quiet_rest (of_journal "event-1" ∷ []) none 2)))
unfolding phase_allows new_journal temporary_beq
recover_journal-IsStuck_example =
    recover_journal-IsStuck sample_env logged_disk.events logged_disk logged_journal first_journal
      success (of_journal "event-1" ∷ []) none 2 refl refl logged_branch refl
