-- ===== src/Dispositions/Thread.antt =====
-- What is decided on a finding: the thread of its dispositions (guardian_dispositions.py).
use mathlib.Core.List.{Permᴰ}
use lit_grove.Prelude.{
  String, ◌≡◌, true, false, none, some, List, [], ◌∷◌, contains, string_eq, ◌==◌, lookup,
}
use lit_grove.Dispositions.State.{
  status_eq, Disposition, GuardianReport, terminal_statuses, initial_statuses,
  disposition_transitions,
}
use lit_grove.Dispositions.Report.{finding_at, reports_by_id}

-- A disposition and the one behind it.
pub record IsNext (previous d : Disposition) : Type 0 where
  pub names : d.previous_disposition_id ≡ some previous.disposition_id
  pub ongoing : contains terminal_statuses previous.status ≡ false
  pub allowed : contains (disposition_transitions previous.status) d.status ≡ true

pub data Follows : Disposition → List Disposition → Type 0 where
  last : {previous : Disposition} → Follows previous []
  next :
      {previous d : Disposition} {ds : List Disposition}
      → IsNext previous d
      → Follows d ds
      → Follows previous (d ∷ ds)

-- The records of a finding, in some order, are a thread from a root.
pub record IsThread (records : List Disposition) : Type 0 where
  pub root : Disposition
  pub others : List Disposition
  pub reordered : Permᴰ records (root ∷ others)
  pub first : root.previous_disposition_id ≡ none
  pub initial : contains initial_statuses root.status ≡ true
  pub follows : Follows root others

-- The records of a finding that has some.
abbrev pub IsDecided : List Disposition → Type 0
IsDecided [] = Unit
IsDecided (d ∷ ds) = IsThread (d ∷ ds)

abbrev pub DifferentIds : Disposition → Disposition → Type 0
DifferentIds a b = (a.disposition_id == b.disposition_id) ≡ false

-- A disposition is on a finding of a report, as it is in the report.
pub record IsOnFinding (digest : String → String) (reports : List GuardianReport) (d : Disposition)
    : Type 0 where
  pub report : GuardianReport
  pub finding : String
  pub known : lookup d.guardian_report_id (reports_by_id [] reports) ≡ some report
  pub in_range : finding_at report.findings d.finding_index ≡ some finding
  pub snapshot : d.finding_digest ≡ digest finding
