-- ===== src/Transactions/Recovery.antt =====
-- `TransactionManager.recover` (storage/transactions.py) and `TransactionRecoveryService.recover`
-- (services/recovery.py).
pub mod Branches
pub mod Kept
pub mod Settle
pub mod Round
pub mod Loop
pub mod Crash
pub mod DryRun
pub mod Service
pub mod Leftover
mod Tests
use text.Mathlib.Text.{is_le}
use Prim.Native.String.{compare, ◌++◌}
use lit_grove.Prelude.{
  ℕ, String, Bool, true, false, not, ◌||◌, Option, none, some, List, [], ◌∷◌, map, any, ◌==◌,
  option_eq, string_eq, if◌then◌else◌, sort_by,
}
use lit_grove.Transactions.State.{
  Phase, event_recorded, complete, Outcome, success, failure, outcome_eq, Journal, Event, event_eq,
  find_event,
}
use lit_grove.Transactions.Action.{Action, pure, gets, returned, ◌>>=◌, ◌>>◌, call}
use lit_grove.Transactions.Manager.{
  Env, file_sha256, validate_journal, journal_event, append_result_event, set_state,
}

-- The names of the reported actions.
pub data ActionName : Type 0 where
  completed_event_missing event_content_mismatch manual_resolution_required : ActionName
  target_digest_ambiguous journal_result_mismatch event_already_recorded : ActionName
  append_missing_success_event append_missing_failure_event : ActionName

-- The branch that the loop takes for a journal: nothing to do, `_needs_resolution`, the report alone,
-- `_complete_recovery` or `_recover_event`.
pub data Branch : Type 0 where
  skip : Branch
  flag : ActionName → Branch
  report_manual : Branch
  finish : Outcome → Branch
  append_missing : Outcome → ActionName → Branch

-- `expected_journal_event(journal, journal["result"])`
recorded_event : Journal → Option Event
recorded_event j = elim j.result [ none ↦ none | some r ↦ some (journal_event j r) ]

of_complete : Journal → Option Event → Branch
of_complete j none = flag completed_event_missing
of_complete j (some existing) =
    if some existing == recorded_event j then skip else flag event_content_mismatch

of_digest : Journal → Option Event → Option String → Outcome → Branch
of_digest j (some existing) current expected =
    if existing == journal_event j expected then finish expected else flag event_content_mismatch
of_digest j none current expected =
    if current == some j.after_sha256
    then append_missing success append_missing_success_event
    else append_missing failure append_missing_failure_event

of_incomplete : Journal → Option Event → Option String → Branch
of_incomplete j existing current =
    let expected = if current == some j.after_sha256 then success else failure in
    if not (current == j.before_sha256 || current == some j.after_sha256)
    then flag target_digest_ambiguous
    else if not (j.result == none || j.result == some expected)
    then flag journal_result_mismatch
    else of_digest j existing current expected

-- The tests of the loop, for a journal, its event in the log and the digest of its target now.
unfoldable pub branch : Journal → Option Event → Option String → Branch
unfolding recorded_event of_complete of_digest of_incomplete
branch j existing current = elim j.phase [
  | complete ↦ of_complete j existing
  | Phase.needs_resolution ↦ report_manual
  | _ ↦ of_incomplete j existing current
]

-- The action that the branch appends to the report.
unfoldable pub reported : Branch → Option ActionName
reported skip = none
reported (flag a) = some a
reported report_manual = some manual_resolution_required
reported (finish r) = some event_already_recorded
reported (append_missing r a) = some a

abbrev prepend :
    String → Option ActionName → List (String × ActionName) → List (String × ActionName)
prepend id none actions = actions
prepend id (some a) actions = (id, a) ∷ actions

-- The journals are read in the order of their file names.
abbrev pub by_name : Journal → Journal → Bool
by_name a b = is_le (compare (a.event_id ++ ".json") (b.event_id ++ ".json"))

module _ (env : Env) where
  -- What a branch writes where `dry_run` is false.
  unfoldable pub perform : Branch → Action (Unit {0})
  perform skip = pure tt
  perform (flag a) = set_state env Phase.needs_resolution (some Outcome.needs_resolution)
  perform report_manual = pure tt
  perform (finish r) = set_state env complete (some r)
  perform (append_missing r a) = do
    append_result_event r
    set_state env event_recorded (some r)
    set_state env complete none

  abbrev pub perform_unless : Bool → Branch → Action (Unit {0})
  perform_unless true b = pure tt
  perform_unless false b = perform b

  abbrev load_journal : Journal → Action (Unit {0})
  load_journal j w = (returned tt, record w { journal = j })

  -- One round of the loop. The call reads the journal and the target.
  unfoldable pub recover_journal : Bool → List Event → Journal → Action (Option ActionName)
  recover_journal dry_run events j = do
    call
    load_journal j
    validate_journal j
    b ← gets (λ w.
        branch j (find_event j.event_id events)
          (file_sha256 env j.target_relative_path w.canonical))
    perform_unless dry_run b
    pure (reported b)

  recover_journals : Bool → List Event → List Journal → Action (List (String × ActionName))
  recover_journals dry_run events [] = pure []
  recover_journals dry_run events (j ∷ js) = do
    a ← recover_journal dry_run events j
    actions ← recover_journals dry_run events js
    pure (prepend j.event_id a actions)

  -- `recover`. The calls are the workspace lock and the read of the log.
  unfoldable pub recover : Bool → Action (List (String × ActionName))
  unfolding recover_journals
  recover dry_run = do
    call
    call
    events ← gets (λ w. w.canonical.events)
    journals ←
        gets (λ w. sort_by by_name (map (λ (e : String × Journal). e.1) w.canonical.journals))
    recover_journals dry_run events journals

-- `MANUAL_RESOLUTION_ACTIONS`
unfoldable pub is_manual : ActionName → Bool
is_manual event_already_recorded = false
is_manual append_missing_success_event = false
is_manual append_missing_failure_event = false
is_manual _ = true

pub record RecoveryResult : Type 0 where
  pub needs_resolution : Bool
  pub actions : List (String × ActionName)
  pub exit_code : ℕ

-- `TransactionRecoveryService.recover`; `needs_resolution` tells the two values of `status` apart.
unfoldable pub recovery_result : List (String × ActionName) → RecoveryResult
unfolding is_manual
recovery_result actions =
    let needs_resolution = any (λ (e : String × ActionName). is_manual e.1) actions in
    record {
      needs_resolution = needs_resolution;
      actions = actions;
      exit_code = if needs_resolution then 4 else 0;
    }
