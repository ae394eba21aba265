-- ===== src/Transactions/Manager.antt =====
-- `TransactionManager.promote_bytes` and `record_failure` (storage/transactions.py), with
-- `build_process_event` and `append_process_event` (process_events.py).
pub mod Steps
pub mod Failing
pub mod Quiet
pub mod Body
pub mod Atomicity
pub mod Success
pub mod Promoted
pub mod Recorded
mod Tests
use lit_grove.Prelude.{
  ℕ, ◌+◌, String, Bool, true, false, not, ◌||◌, Option, none, some, List, [], ◌==◌, string_eq,
  option_eq, if◌then◌else◌, is_some, or_else,
}
use lit_grove.Diagnostics.{
  diagnostic, schema_validation_failed, write_conflict, incomplete_transaction,
}
use lit_grove.Transactions.State.{
  Bytes, Phase, prepared, target_replaced, event_recorded, complete, Outcome, success, failure,
  outcome_beq, phase_beq, Journal, Event, event_beq, Canonical, Temporary, of_target, of_journal,
  of_events, put_file, put_journal, add_event, journal_at, event_at,
}
use lit_grove.Transactions.Action.{
  Exit, returned, raised, interrupted, died, Failure, diagnosed, Action, pure, raise, gets, ◌>>=◌,
  ◌>>◌, raise_if, except_exception, finally, call, open_exclusive, unlink, write_fsynced_temp,
  replace_temp, atomic_write_bytes,
}

-- What the standard library computes: `hashlib.sha256(b).hexdigest()`, and the text of the clock's
-- n-th reading.
pub record Env : Type 0 where
  pub sha256 : Bytes → String
  pub timestamp : ℕ → String

-- The arguments of `promote_bytes`. The target is resolved, and the event ID is the one given or the
-- factory's; `expected_before` is `none` where the caller left `expected_before_sha256` out.
pub record Request : Type 0 where
  pub target : String
  pub content : Bytes
  pub target_store : String
  pub operation : String
  pub actor : String
  pub input_refs : List String
  pub output_refs : List String
  pub expected_before : Option (Option String)
  pub event_id : String
  pub job_id : Option String

pub record TransactionResult : Type 0 where
  pub event_id : String
  pub target : String
  pub before_sha256 : Option String
  pub after_sha256 : String

pub transaction_error : String → String → Option String → String → Failure
transaction_error code path id message = diagnosed (diagnostic code "transaction" id path message)

incomplete : String → String → Failure
unfolding transaction_error
incomplete id message = transaction_error incomplete_transaction "" (some id) message

-- What the journal's schema says of `phase` and `result` together.
unfoldable pub phase_allows : Phase → Option Outcome → Bool
phase_allows prepared none = true
phase_allows target_replaced none = true
phase_allows event_recorded (some success) = true
phase_allows event_recorded (some failure) = true
phase_allows complete (some success) = true
phase_allows complete (some failure) = true
phase_allows Phase.needs_resolution (some Outcome.needs_resolution) = true
phase_allows _ _ = false

-- `build_journal_event` and `expected_journal_event`: one event, built with and without validation.
unfoldable pub journal_event : Journal → Outcome → Event
journal_event j result = record {
  event_id = j.event_id;
  operation = j.operation;
  actor = j.actor;
  result = result;
  input_refs = j.input_refs;
  output_refs = if outcome_beq result success then j.output_refs else [];
  created_at = j.created_at;
  job_id = j.job_id;
  fixture_origin = none;
}

-- `_validate_journal`
unfoldable pub validate_journal : Journal → Action (Unit {0})
unfolding phase_allows
validate_journal j = raise_if (not (phase_allows j.phase j.result)) (
    diagnosed (
      diagnostic schema_validation_failed "transaction-journal" (some j.event_id) "/result"
        "schema validation failed"))

-- The write half of `append_process_event`.
unfoldable pub write_event : Event → Action (Unit {0})
write_event event =
    open_exclusive (of_events event.event_id)
    >> finally (call >> replace_temp (of_events event.event_id) (add_event event))
        (unlink (of_events event.event_id))

-- An equal event of the log is left, another one of the same ID is refused.
unfoldable pub append_if_new : Event → Action (Unit {0})
unfolding write_event
append_if_new event w = elim (event_at event.event_id w.canonical) [
  | none ↦ write_event event w
  | some existing ↦
      raise_if (not (event_beq existing event))
        (diagnosed (
          diagnostic schema_validation_failed "process-event" (some event.event_id) "/event_id"
            "event ID already exists with different content"))
        w
]

-- `append_process_event`. The call reads the log.
unfoldable pub append_process_event : Event → Action (Unit {0})
append_process_event event = call >> append_if_new event

unfoldable pub refuse_used : String → Action (Unit {0})
unfolding transaction_error
refuse_used id w =
    raise_if (is_some (event_at id w.canonical) || is_some (journal_at id w.canonical))
      (transaction_error write_conflict "/event_id" (some id) "event ID is already in use") w

-- `_ensure_event_id_available`. The call reads the log and looks for the journal.
unfoldable pub ensure_event_id_available : String → Action (Unit {0})
ensure_event_id_available id = call >> refuse_used id

abbrev set_temporary : Option Temporary → Action (Unit {0})
set_temporary t w = (returned tt, record w { rest = record w.rest { temporary = t } })

pub unlink_temporary : Action (Unit {0})
unlink_temporary w = elim w.temporary [ none ↦ (returned tt, w) | some t ↦ unlink t w ]

-- `expected is not _EXPECTED_BEFORE_UNSET and before != expected`
abbrev conflicts : Option (Option String) → Option String → Bool
conflicts none before = false
conflicts (some expected) before = not (before == expected)

abbrev stop : {A : Type 0} → Exit A → Action A
stop x w = (x, w)

-- `try: m` with `except BaseException`, where the handler sees how `m` ended.
abbrev except_base : {A : Type 0} → Action A → (Exit A → Action A) → Action A
except_base m h w = let (x, w') = m w in h x w'

abbrev read_clock : Action ℕ
read_clock w = (returned w.ticks, record w { rest = record w.rest { ticks = w.ticks + 1 } })

abbrev start_journal : (ℕ → Journal) → Action (Unit {0})
start_journal j w =
    (returned tt, record w { journal = j w.ticks; rest = record w.rest { ticks = w.ticks + 1 } })

-- `append_process_event` of the event that `journal` stands for.
unfoldable pub append_result_event : Outcome → Action (Unit {0})
append_result_event r w = append_process_event (journal_event w.journal r) w

module _ (env : Env) where
  unfoldable pub digest : Option Bytes → Option String
  digest none = none
  digest (some b) = some (env.sha256 b)

  -- `file_sha256`
  unfoldable pub file_sha256 : String → Canonical → Option String
  unfolding digest
  file_sha256 path c = digest (c.files path)

  -- `_write_journal`, of the local variable `journal`
  unfoldable pub write_journal : Action (Unit {0})
  unfolding validate_journal
  write_journal w =
      (validate_journal w.journal
          >> atomic_write_bytes (of_journal w.journal.event_id) (put_journal w.journal))
        w

  -- `_set_state`: the variable changes before the write, and stays changed where the write raises.
  unfoldable pub set_state : Phase → Option Outcome → Action (Unit {0})
  unfolding write_journal
  set_state phase result w = write_journal (record w {
    journal = record w.journal {
      phase = phase;
      result = or_else result w.journal.result;
      updated_at = env.timestamp w.ticks;
    };
    rest = record w.rest { ticks = w.ticks + 1 };
  })

  write_failure : Action (Unit {0})
  write_failure = do
    append_result_event failure
    set_state event_recorded (some failure)
    set_state complete none

  raise_incomplete : String → Action (Unit {0})
  unfolding incomplete
  raise_incomplete message w = raise (incomplete w.journal.event_id message) w

  -- The branches of `_handle_failure`: the target has its digest from before, or that of the content,
  -- or another one.
  failure_branch : Bool → Bool → Action (Unit {0})
  unfolding write_failure raise_incomplete
  failure_branch true is_after =
      except_exception write_failure (λ _. raise_incomplete "failure event could not be recorded")
  failure_branch false true = raise_incomplete "target was replaced but process event is incomplete"
  failure_branch false false =
      set_state Phase.needs_resolution (some Outcome.needs_resolution)
      >> raise_incomplete "transaction target digest is ambiguous"

  unfoldable pub handle_by_digest : String → Action (Unit {0})
  unfolding failure_branch file_sha256
  handle_by_digest target w =
      let current = file_sha256 target w.canonical in
      failure_branch (current == w.journal.before_sha256) (current == some w.journal.after_sha256) w

  -- `_handle_failure`. The call reads the target.
  unfoldable pub handle_failure : String → Action (Unit {0})
  handle_failure target = call >> handle_by_digest target

  abbrev handle_unless : Bool → String → Action (Unit {0})
  handle_unless true target = pure tt
  handle_unless false target = handle_failure target

  -- The call of `post_replace_validator` and what follows where it raises.
  unfoldable pub post_replace_validation : Action (Unit {0})
  unfolding raise_incomplete
  post_replace_validation = except_exception call (λ _.
      set_state Phase.needs_resolution (some Outcome.needs_resolution)
      >> raise_incomplete "post-replacement validation failed; manual resolution is required")

  -- The `try` block of `promote_bytes`.
  pub promote_body : Request → Option String → Action TransactionResult
  unfolding post_replace_validation
  promote_body req before_sha256 = do
    let t = of_target req.target req.event_id
    write_fsynced_temp t
    set_temporary (some t)
    call
    call
    replace_temp t (put_file req.target req.content)
    set_temporary none
    set_state target_replaced none
    call
    post_replace_validation
    append_result_event success
    set_state event_recorded (some success)
    set_state complete none
    pure (record {
      event_id = req.event_id;
      target = req.target;
      before_sha256 = before_sha256;
      after_sha256 = env.sha256 req.content;
    })

  -- The `except BaseException` block: the temporary file goes; only an `Exception` is handled further.
  pub clean_up : {A : Type 0} → Request → Exit A → Action A
  unfolding unlink_temporary
  clean_up req (returned a) = pure a
  clean_up req (raised e) = do
    unlink_temporary
    phase ← gets (λ w. w.journal.phase)
    handle_unless (phase_beq phase Phase.needs_resolution) req.target
    raise e
  clean_up req interrupted = do unlink_temporary; stop interrupted
  clean_up req died = stop died

  unfoldable pub new_journal : Request → Option String → ℕ → Journal
  new_journal req before_sha256 ticks = record {
    event_id = req.event_id;
    job_id = req.job_id;
    operation = req.operation;
    actor = req.actor;
    target_store = req.target_store;
    target_relative_path = req.target;
    before_sha256 = before_sha256;
    after_sha256 = env.sha256 req.content;
    input_refs = req.input_refs;
    output_refs = req.output_refs;
    phase = prepared;
    result = none;
    created_at = env.timestamp ticks;
    updated_at = env.timestamp ticks;
    fixture_origin = none;
  }

  -- `promote_bytes`. The first calls are the check of the path, the workspace lock, the caller's
  -- precondition and the read of the target.
  unfoldable pub promote_bytes : Request → Action TransactionResult
  unfolding promote_body clean_up new_journal file_sha256 transaction_error
  promote_bytes req = do
    call
    call
    call
    call
    before_sha256 ← gets (λ w. file_sha256 req.target w.canonical)
    raise_if (conflicts req.expected_before before_sha256)
        (transaction_error write_conflict "" none "canonical target changed before promotion")
    ensure_event_id_available req.event_id
    start_journal (new_journal req before_sha256)
    write_journal
    set_temporary none
    except_base (promote_body req before_sha256) (clean_up req)

  -- `record_failure`; the first call is the workspace lock.
  unfoldable pub record_failure :
      String → String → String → List String → Option String → Action String
  record_failure event_id operation actor input_refs job_id = do
    call
    ensure_event_id_available event_id
    now ← read_clock
    append_process_event (record {
      event_id = event_id;
      operation = operation;
      actor = actor;
      result = failure;
      input_refs = input_refs;
      output_refs = [];
      created_at = env.timestamp now;
      job_id = job_id;
      fixture_origin = none;
    })
    pure event_id
