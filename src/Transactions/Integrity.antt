-- ===== src/Transactions/Integrity.antt =====
-- `transaction_integrity_diagnostics` (storage/transactions.py): the report on the completed journals.
mod Tests
pub mod Sound
pub mod Matching
pub mod Ordered
pub mod Binding
pub mod Linked
pub mod Examined
pub mod Accepted
use text.Mathlib.Text.{is_le}
use Prim.Native.String.{compare, ◌++◌ as append}
use lit_grove.Prelude.{
  ℕ, suc, String, ◌≡◌, ◌↔◌, Bool, true, false, not, ◌&&◌, ◌||◌, Option, none, some, is_some, List,
  [], ◌∷◌, ◌++◌, map, flat_map, length, Eq, group_from, sort_by, ltb, ◌==◌, string_eq, nat_eq,
  option_eq, if◌then◌else◌, arith,
}
use lit_grove.Diagnostics.{
  Diagnostic, diagnostic, incomplete_transaction, path_escape, workspace_layout_conflict, report_if,
}
use lit_grove.Transactions.State.{
  Phase, complete, prepared, target_replaced, event_recorded, phase_beq, Outcome, success, failure,
  outcome_eq, Journal, Event, event_eq,
}
use lit_grove.Transactions.Manager.{journal_event}
use lit_grove.Transactions.Targets.{transaction_target_matches_store}

-- What `read_json_document` and the validation of the record give for a file.
pub data Reading : Type 0 where
  unreadable : Diagnostic → Reading
  refused : Diagnostic → List Diagnostic → Reading
  accepted : Journal → Reading

pub record JournalFile : Type 0 where
  pub name : String
  pub content : Reading

-- What `ensure_writable_target` gives for a target.
pub data Inspection : Type 0 where
  safe os_error : Inspection
  unsafe : Diagnostic → Inspection

-- `str` of a number, the inspection of a target, and the digest of the file there, where the inner option is
-- that of a missing file and the outer one an `OSError`.
pub record Disk : Type 0 where
  pub str : ℕ → String
  pub inspect : String → Inspection
  pub current_digest : String → Option (Option String)

abbrev pub journal_diagnostic : String → Journal → String → String → Diagnostic
journal_diagnostic code j path message =
    diagnostic code "transaction-journal" (some j.event_id) path message

abbrev pub phase_name : Phase → String
phase_name prepared = "prepared"
phase_name target_replaced = "target_replaced"
phase_name event_recorded = "event_recorded"
phase_name complete = "complete"
phase_name Phase.needs_resolution = "needs_resolution"

-- `journal["phase"] == "complete" and journal["result"] in {"success", "failure"}`
abbrev pub is_complete : Phase → Option Outcome → Bool
is_complete complete (some success) = true
is_complete complete (some failure) = true
is_complete _ _ = false

-- The events with the ID, with their places in the log.
unfoldable pub matching_events : ℕ → String → List Event → List (ℕ × Event)
matching_events n id [] = []
matching_events n id (e ∷ events) =
    let rest = matching_events (suc n) id events in if e.event_id == id then (n, e) ∷ rest else rest

-- The event that the journal stands for; `result` is there in a completed journal.
abbrev pub is_expected : Journal → Option Outcome → Event → Bool
is_expected j none e = false
is_expected j (some r) e = e == journal_event j r

unfoldable pub event_diagnostics : (ℕ → String) → Journal → List (ℕ × Event) → List Diagnostic
event_diagnostics str j ((n, e) ∷ []) = report_if (not (is_expected j j.result e)) (
    journal_diagnostic incomplete_transaction j "/event_id"
      "completed transaction process event does not match its journal")
event_diagnostics str j found =
    journal_diagnostic incomplete_transaction j "/event_id" (
      append "completed transaction must have exactly one process event; found "
        (str (length found)))
    ∷ []

abbrev pub event_position : List (ℕ × Event) → Option ℕ
event_position ((n, e) ∷ []) = some n
event_position _ = none

-- A completed journal as the second part of the report takes it.
pub record Completed : Type 0 where
  pub name : String
  pub journal : Journal
  pub position : Option ℕ

abbrev pub with_target : Inspection → List Diagnostic → Completed → List Diagnostic × List Completed
with_target safe before c = (before, c ∷ [])
with_target (unsafe d) before c = (before ++ d ∷ [], [])
with_target os_error before c = (
  before
      ++ journal_diagnostic path_escape c.journal "/target_relative_path"
          "transaction target could not be inspected safely"
        ∷ [],
  [],
)

unfoldable pub binding_diagnostics : String → Journal → List Diagnostic
binding_diagnostics name j =
    report_if (not (name == append j.event_id ".json")) (
      journal_diagnostic workspace_layout_conflict j "/event_id"
        "transaction journal filename does not match event_id")
    ++ report_if (not (transaction_target_matches_store j.target_store j.target_relative_path)) (
        journal_diagnostic incomplete_transaction j "/target_relative_path"
          "transaction target path does not match target_store")

unfoldable pub examine_journal :
    Disk → List Event → String → Journal → List Diagnostic × List Completed
examine_journal disk events name j =
    let bound = binding_diagnostics name j in
    let found = matching_events 0 j.event_id events in
    if is_complete j.phase j.result
    then with_target (disk.inspect j.target_relative_path)
        (bound ++ event_diagnostics disk.str j found)
        (record { name = name; journal = j; position = event_position found })
    else (
      bound
          ++ journal_diagnostic incomplete_transaction j "/phase"
              (append "transaction journal is not complete: " (phase_name j.phase))
            ∷ [],
      [],
    )

-- One round of the first loop.
unfoldable pub examine : Disk → List Event → String → Reading → List Diagnostic × List Completed
examine disk events name (unreadable d) = (d ∷ [], [])
examine disk events name (refused d ds) = (d ∷ ds, [])
examine disk events name (accepted j) = examine_journal disk events name j

unfoldable pub examine_all : Disk → List Event → List JournalFile → List Diagnostic × List Completed
examine_all disk events [] = ([], [])
examine_all disk events (f ∷ files) =
    let here = examine disk events f.name f.content in
    let later = examine_all disk events files in (here.0 ++ later.0, here.1 ++ later.1)

-- `(target_store, target_relative_path)`
pub record TargetKey : Type 0 where
  pub store : String
  pub path : String

abbrev pub target_key : Journal → TargetKey
target_key j = record { store = j.target_store; path = j.target_relative_path }

unfoldable pub target_key_beq : TargetKey → TargetKey → Bool
target_key_beq a b = a.store == b.store && a.path == b.path

pub target_key_beq_iff : (a b : TargetKey) → (target_key_beq a b ≡ true) ↔ (a ≡ b)
unfolding target_key_beq
target_key_beq_iff a b =
    ground (arith, string_eq.beq_iff a.store b.store, string_eq.beq_iff a.path b.path)

instance abbrev pub target_key_eq : Eq TargetKey
target_key_eq = record { beq = target_key_beq; beq_iff = target_key_beq_iff }

abbrev text_le : String → String → Bool
text_le a b = is_le (compare a b)

-- `(created_at, name)`
abbrev pub by_creation : Completed → Completed → Bool
by_creation a b =
    not (text_le b.journal.created_at a.journal.created_at)
    || (a.journal.created_at == b.journal.created_at && text_le a.name b.name)

-- The order of `(position is None, position or 0, created_at, name)`.
abbrev pub in_position : Option ℕ → Option ℕ → Bool → Bool
in_position none none rest = rest
in_position none (some n) rest = false
in_position (some m) none rest = true
in_position (some m) (some n) rest = ltb m n || (m == n && rest)

abbrev pub in_log_order : Completed → Completed → Bool
in_log_order a b = in_position a.position b.position (by_creation a b)

-- The digest that the target has after the journal.
abbrev pub digest_after : Journal → Option String
digest_after j = if j.result == some success then some j.after_sha256 else j.before_sha256

-- `previous_digest is not _EXPECTED_BEFORE_UNSET and before != previous_digest`
abbrev pub breaks_chain : Option (Option String) → Journal → Bool
breaks_chain none j = false
breaks_chain (some digest) j = not (j.before_sha256 == digest)

unfoldable pub chain_diagnostics : Option (Option String) → Journal → List Diagnostic
chain_diagnostics previous j = report_if (breaks_chain previous j) (
    journal_diagnostic incomplete_transaction j "/before_sha256"
      "completed transaction target digest chain does not match its predecessor")

unfoldable pub current_diagnostics : Option (Option String) → Journal → List Diagnostic
current_diagnostics none j =
    journal_diagnostic incomplete_transaction j "/target_relative_path"
      "transaction target could not be inspected safely"
    ∷ []
current_diagnostics (some digest) j = report_if (not (digest == digest_after j)) (
    journal_diagnostic incomplete_transaction j "/target_relative_path"
      "transaction target does not match the completed journal")

-- `path.name`
abbrev pub by_path_name : JournalFile → JournalFile → Bool
by_path_name a b = text_le a.name b.name

module _ (disk : Disk) where
  -- The journals of one target, from the first that is left.
  unfoldable pub link_diagnostics :
      Option (Option String) → Completed → List Completed → List Diagnostic
  link_diagnostics previous c [] =
      chain_diagnostics previous c.journal
      ++ current_diagnostics (disk.current_digest c.journal.target_relative_path) c.journal
  link_diagnostics previous c (next ∷ rest) =
      chain_diagnostics previous c.journal
      ++ link_diagnostics (some (digest_after c.journal)) next rest

  unfoldable pub items_diagnostics : List Completed → List Diagnostic
  items_diagnostics [] = []
  items_diagnostics (c ∷ cs) = link_diagnostics none c cs

  -- One round of the second loop.
  unfoldable pub group_diagnostics : TargetKey × List Completed → List Diagnostic
  group_diagnostics (key, items) = items_diagnostics (sort_by in_log_order items)

  -- `transaction_integrity_diagnostics`
  unfoldable pub transaction_integrity_diagnostics : List Event → List JournalFile → List Diagnostic
  transaction_integrity_diagnostics events files =
      let examined = examine_all disk events (sort_by by_path_name files) in
      examined.0
      ++ flat_map group_diagnostics
          (group_from (λ (c : Completed). target_key c.journal) [] examined.1)
