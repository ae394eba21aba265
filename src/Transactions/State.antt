-- ===== src/Transactions/State.antt =====
-- storage/transactions.py and process_events.py: the transaction journal, the process event and the
-- part of a workspace's files that a transaction reads and writes.
use lit_grove.Prelude.{
  ℕ, String, ◌≡◌, ◌==◌, ◌&&◌, Bool, true, false, Option, none, some, List, [], ◌∷◌, ◌++◌, Eq,
  insert, lookup, string_eq, option_eq, list_eq, if◌then◌else◌, arith, ◌↔◌, option_beq_iff,
  list_beq_iff,
}

abbrev pub Bytes : Type 0
Bytes = List ℕ

pub data Phase : Type 0 where
  prepared target_replaced event_recorded complete needs_resolution : Phase

-- The field `result` of a journal or an event.
pub data Outcome : Type 0 where
  success failure needs_resolution : Outcome

abbrev pub phase_beq : Phase → Phase → Bool
phase_beq prepared prepared = true
phase_beq target_replaced target_replaced = true
phase_beq event_recorded event_recorded = true
phase_beq complete complete = true
phase_beq Phase.needs_resolution Phase.needs_resolution = true
phase_beq _ _ = false

abbrev pub outcome_beq : Outcome → Outcome → Bool
outcome_beq success success = true
outcome_beq failure failure = true
outcome_beq Outcome.needs_resolution Outcome.needs_resolution = true
outcome_beq _ _ = false

pub outcome_beq_iff : (a b : Outcome) → (outcome_beq a b ≡ true) ↔ (a ≡ b)
outcome_beq_iff a b = ground arith

instance abbrev pub outcome_eq : Eq Outcome
outcome_eq = record { beq = outcome_beq; beq_iff = outcome_beq_iff }

pub record Journal : Type 0 where
  pub event_id : String
  pub job_id : Option String
  pub operation : String
  pub actor : String
  pub target_store : String
  pub target_relative_path : String
  pub before_sha256 : Option String
  pub after_sha256 : String
  pub input_refs : List String
  pub output_refs : List String
  pub phase : Phase
  pub result : Option Outcome
  pub created_at : String
  pub updated_at : String
  pub fixture_origin : Option String

pub record Event : Type 0 where
  pub event_id : String
  pub operation : String
  pub actor : String
  pub result : Outcome
  pub input_refs : List String
  pub output_refs : List String
  pub created_at : String
  pub job_id : Option String
  pub fixture_origin : Option String

unfoldable pub event_beq : Event → Event → Bool
event_beq a b =
    a.event_id == b.event_id
    && a.operation == b.operation
    && a.actor == b.actor
    && outcome_beq a.result b.result
    && a.input_refs == b.input_refs
    && a.output_refs == b.output_refs
    && a.created_at == b.created_at
    && a.job_id == b.job_id
    && a.fixture_origin == b.fixture_origin

pub event_beq_iff : (a b : Event) → (event_beq a b ≡ true) ↔ (a ≡ b)
unfolding event_beq
event_beq_iff a b = ground (
  arith,
  string_eq.beq_iff a.event_id b.event_id,
  string_eq.beq_iff a.operation b.operation,
  string_eq.beq_iff a.actor b.actor,
  list_beq_iff a.input_refs b.input_refs,
  list_beq_iff a.output_refs b.output_refs,
  string_eq.beq_iff a.created_at b.created_at,
  option_beq_iff a.job_id b.job_id,
  option_beq_iff a.fixture_origin b.fixture_origin,
)

instance abbrev pub event_eq : Eq Event
event_eq = record { beq = event_beq; beq_iff = event_beq_iff }

-- The temporary siblings `.<name>.<write_id>.tmp` that a transaction opens exclusively.
pub data Temporary : Type 0 where
  of_target : String → String → Temporary
  of_journal : String → Temporary
  of_events : String → Temporary

unfoldable pub temporary_beq : Temporary → Temporary → Bool
temporary_beq (of_target p i) (of_target q j) = p == q && i == j
temporary_beq (of_journal i) (of_journal j) = i == j
temporary_beq (of_events i) (of_events j) = i == j
temporary_beq _ _ = false

pub temporary_beq_iff : (a b : Temporary) → (temporary_beq a b ≡ true) ↔ (a ≡ b)
unfolding temporary_beq
temporary_beq_iff (of_target p i) (of_target q j) =
    ground (arith, string_eq.beq_iff p q, string_eq.beq_iff i j)
temporary_beq_iff (of_journal i) (of_journal j) = ground (arith, string_eq.beq_iff i j)
temporary_beq_iff (of_events i) (of_events j) = ground (arith, string_eq.beq_iff i j)
temporary_beq_iff (of_target p i) _ = ground arith
temporary_beq_iff (of_journal i) _ = ground arith
temporary_beq_iff (of_events i) _ = ground arith

instance abbrev pub temporary_eq : Eq Temporary
temporary_eq = record { beq = temporary_beq; beq_iff = temporary_beq_iff }

-- The canonical files on disk: by relative path, the journals by event ID, and the process event log.
pub record Canonical : Type 0 where
  pub files : String → Option Bytes
  pub journals : List (String × Journal)
  pub events : List Event

unfoldable pub put_file : String → Bytes → Canonical → Canonical
put_file path content c = record c { files = λ p. if path == p then some content else c.files p }

unfoldable pub put_journal : Journal → Canonical → Canonical
put_journal j c = record c { journals = insert j.event_id j c.journals }

unfoldable pub add_event : Event → Canonical → Canonical
add_event e c = record c { events = c.events ++ e ∷ [] }

abbrev pub journal_at : String → Canonical → Option Journal
journal_at id c = lookup id c.journals

-- The event that the log holds under an ID (`read_process_events` refuses a log with a duplicate).
unfoldable pub find_event : String → List Event → Option Event
find_event id [] = none
find_event id (e ∷ es) = let rest = find_event id es in if e.event_id == id then some e else rest

abbrev pub event_at : String → Canonical → Option Event
event_at id c = find_event id c.events
