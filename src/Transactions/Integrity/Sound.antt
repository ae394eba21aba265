-- ===== src/Transactions/Integrity/Sound.antt =====
-- What `transaction_integrity_diagnostics` (storage/transactions.py) asks of the journals, their events and the
-- files that they name.
use Prim.Native.String.{◌++◌ as append}
use lit_grove.Prelude.{
  String, ◌≡◌, ◌≢◌, true, false, some, List, [], ◌∷◌, ◌++◌, All, flat_map, string_eq, ◌==◌, Option,
  ◌⊎◌, Memᴰ,
}
use lit_grove.Transactions.State.{complete, success, failure, Outcome, Journal, Event}
use lit_grove.Transactions.Manager.{journal_event}
use lit_grove.Transactions.Targets.{transaction_target_matches_store}
use lit_grove.Transactions.Integrity.{
  Reading, unreadable, refused, accepted, JournalFile, safe, Disk, Completed, matching_events,
  event_position,
}

abbrev pub HasOtherId : String → Event → Type 0
HasOtherId id e = (e.event_id == id) ≡ false

-- The event is in the log, and no other event has its ID.
pub record IsOnlyEvent (id : String) (event : Event) (events : List Event) : Type 0 where
  pub before : List Event
  pub after : List Event
  pub log : events ≡ before ++ event ∷ after
  pub same_id : event.event_id ≡ id
  pub others_before : All (HasOtherId id) before
  pub others_after : All (HasOtherId id) after

pub record IsSoundJournal (disk : Disk) (events : List Event) (name : String) (j : Journal)
    : Type 0 where
  pub result : Outcome
  pub named : name ≡ append j.event_id ".json"
  pub target : transaction_target_matches_store j.target_store j.target_relative_path ≡ true
  pub phase : j.phase ≡ complete
  pub recorded : j.result ≡ some result
  pub settled : result ≢ Outcome.needs_resolution
  pub event : IsOnlyEvent j.event_id (journal_event j result) events
  pub inspected : disk.inspect j.target_relative_path ≡ safe

abbrev IsSoundReading : Disk → List Event → String → Reading → Type 0
IsSoundReading disk events name (unreadable d) = ⊥
IsSoundReading disk events name (refused d ds) = ⊥
IsSoundReading disk events name (accepted j) = IsSoundJournal disk events name j

abbrev pub IsSound : Disk → List Event → JournalFile → Type 0
IsSound disk events f = IsSoundReading disk events f.name f.content

abbrev pub completed_reading : List Event → String → Reading → List Completed
completed_reading events name (accepted j) =
    record {
      name = name;
      journal = j;
      position = event_position (matching_events 0 j.event_id events);
    }
    ∷ []
completed_reading events name _ = []

-- The journals of the files, with the places of their events in the log.
abbrev pub completed_journals : List Event → List JournalFile → List Completed
completed_journals events files =
    flat_map (λ (f : JournalFile). completed_reading events f.name f.content) files

-- What a journal leaves of its target: the new digest after a success, the one from before after a failure.
abbrev pub IsLeftBy : Journal → Option String → Type 0
IsLeftBy j digest =
    ((j.result ≡ some success) × (digest ≡ some j.after_sha256))
    ⊎ ((j.result ≡ some failure) × (digest ≡ j.before_sha256))

-- Each journal finds the digest that the one before it left, and the file has the digest that the last left.
pub data Links (disk : Disk) : Completed → List Completed → Type 0 where
  last :
      {c : Completed} {digest : Option String}
      → IsLeftBy c.journal digest
      → disk.current_digest c.journal.target_relative_path ≡ some digest
      → Links disk c []
  link :
      {c next : Completed} {rest : List Completed}
      → IsLeftBy c.journal next.journal.before_sha256
      → Links disk next rest
      → Links disk c (next ∷ rest)

abbrev pub IsLinked : Disk → List Completed → Type 0
IsLinked disk [] = Unit
IsLinked disk (c ∷ cs) = Links disk c cs

-- The log has an event of the first journal, and from there on one of the second.
pub record Precedes (events : List Event) (a b : Completed) : Type 0 where
  pub before : List Event
  pub first : Event
  pub after : List Event
  pub second : Event
  pub log : events ≡ before ++ first ∷ after
  pub first_id : first.event_id ≡ a.journal.event_id
  pub from_there : Memᴰ second (first ∷ after)
  pub second_id : second.event_id ≡ b.journal.event_id
