-- ===== src/Dispositions/Report.antt =====
-- `guardian_disposition_diagnostics` and `current_guardian_dispositions` (guardian_dispositions.py).
use text.Mathlib.Text.{is_le}
use Prim.Native.String.{compare}
use lit_grove.Prelude.{
  ℕ, zero, suc, String, ◌≡◌, ◌↔◌, Bool, true, not, ◌&&◌, ◌||◌, Option, none, some, is_some, List,
  [], ◌∷◌, ◌++◌, map, flat_map, select, length, contains, lookup, insert, group_from, sort_by, ltb,
  Eq, ◌==◌, string_eq, nat_eq, option_eq, if◌then◌else◌, arith,
}
use lit_grove.Diagnostics.{
  Diagnostic, diagnostic, incomplete_transaction, unresolved_reference, Result, report_if, reports,
  deduplicate,
}
use lit_grove.Jobs.Chain.{first_diagnostic}
use lit_grove.Dispositions.State.{
  status_eq, Disposition, GuardianReport, terminal_statuses, initial_statuses,
  disposition_transitions,
}

-- `_diagnostic`
abbrev pub disposition_diagnostic : Disposition → String → String → Diagnostic
disposition_diagnostic d path message =
    diagnostic incomplete_transaction "guardian-finding-disposition" (some d.disposition_id) path
      message

-- `(guardian_report_id, finding_index)`
pub record Finding : Type 0 where
  pub report : String
  pub index : ℕ

abbrev pub finding_of : Disposition → Finding
finding_of d = record { report = d.guardian_report_id; index = d.finding_index }

unfoldable pub finding_beq : Finding → Finding → Bool
finding_beq a b = a.report == b.report && a.index == b.index

pub finding_beq_iff : (a b : Finding) → (finding_beq a b ≡ true) ↔ (a ≡ b)
unfolding finding_beq
finding_beq_iff a b =
    ground (arith, string_eq.beq_iff a.report b.report, nat_eq.beq_iff a.index b.index)

instance abbrev pub finding_eq : Eq Finding
finding_eq = record { beq = finding_beq; beq_iff = finding_beq_iff }

-- `{item["guardian_report_id"]: item for item in reports}`
unfoldable pub reports_by_id :
    List (String × GuardianReport) → List GuardianReport → List (String × GuardianReport)
reports_by_id known [] = known
reports_by_id known (r ∷ rs) = reports_by_id (insert r.guardian_report_id r known) rs

abbrev pub finding_at : List String → ℕ → Option String
finding_at [] n = none
finding_at (f ∷ fs) zero = some f
finding_at (f ∷ fs) (suc n) = finding_at fs n

-- `remaining`: the records by ID, a later one in the place of an earlier one with the same ID.
unfoldable pub by_disposition_id :
    List (String × Disposition) → List Disposition → List (String × Disposition)
by_disposition_id known [] = known
by_disposition_id known (d ∷ ds) = by_disposition_id (insert d.disposition_id d known) ds

-- `remaining.pop(id)`
abbrev pub pop : String → List (String × Disposition) → List (String × Disposition)
pop id [] = []
pop id ((j, d) ∷ ds) = let rest = pop id ds in if j == id then ds else (j, d) ∷ rest

unfoldable pub successors : String → List (String × Disposition) → List Disposition
successors id remaining =
    select (λ (d : Disposition). d.previous_disposition_id == some id)
      (map (λ (e : String × Disposition). e.1) remaining)

-- The `while` loop: the records behind the last, and whether it broke off or is not finished.
pub data Chain : Type 0 where
  complete : List Disposition → Chain
  broken : List Disposition → Disposition → Chain
  unfinished : Chain

abbrev pub extend : Disposition → Chain → Chain
extend d (complete ds) = complete (d ∷ ds)
extend d (broken ds at) = broken (d ∷ ds) at
extend d unfinished = unfinished

abbrev pub only : List Disposition → Option Disposition
only (d ∷ []) = some d
only _ = none

unfoldable pub follow : ℕ → Disposition → List (String × Disposition) → Chain
follow fuel last [] = complete []
follow zero last (r ∷ rs) = unfinished
follow (suc fuel) last (r ∷ rs) = elim (only (successors last.disposition_id (r ∷ rs))) [
  | none ↦ broken [] last
  | some next ↦ extend next (follow fuel next (pop next.disposition_id (r ∷ rs)))
]

-- The transitions along `zip(ordered, ordered[1:])`.
unfoldable pub transition_diagnostics : Disposition → Disposition → List Diagnostic
transition_diagnostics previous current =
    if contains terminal_statuses previous.status
    then disposition_diagnostic current "/status"
        "terminal Guardian disposition cannot have a successor"
      ∷ []
    else report_if (not (contains (disposition_transitions previous.status) current.status))
        (disposition_diagnostic current "/status" "Guardian disposition transition is invalid")

unfoldable pub status_diagnostics : Disposition → List Disposition → List Diagnostic
status_diagnostics previous [] = []
status_diagnostics previous (d ∷ ds) = transition_diagnostics previous d ++ status_diagnostics d ds

unfoldable pub ordered_diagnostics : Disposition → List Disposition → List Diagnostic
ordered_diagnostics root ds =
    report_if (not (contains initial_statuses root.status))
      (disposition_diagnostic root "/status" "Guardian disposition root status is invalid")
    ++ status_diagnostics root ds

unfoldable pub chain_diagnostics : Disposition → Chain → List Diagnostic
chain_diagnostics root (complete ds) = ordered_diagnostics root ds
chain_diagnostics root (broken ds at) =
    disposition_diagnostic at "/previous_disposition_id"
      "Guardian disposition chain is forked or disconnected"
    ∷ ordered_diagnostics root ds
chain_diagnostics root unfinished = []

abbrev pub is_root : Disposition → Bool
is_root d = not (is_some d.previous_disposition_id)

-- With one root, the records that are not the root are those with a predecessor. One round for each of them
-- is enough.
unfoldable pub chain_of : Disposition → List Disposition → Chain
chain_of root records =
    let remaining = by_disposition_id [] (select (λ (d : Disposition). not (is_root d)) records) in
    follow (length remaining) root remaining

unfoldable pub root_diagnostics : List Disposition → Option Disposition → List Diagnostic
root_diagnostics [] root = []
root_diagnostics (d ∷ ds) none =
    disposition_diagnostic d "/previous_disposition_id"
      "Guardian finding must have exactly one disposition root"
    ∷ []
root_diagnostics (d ∷ ds) (some root) = chain_diagnostics root (chain_of root (d ∷ ds))

-- One round of the second loop.
unfoldable pub finding_diagnostics : Finding × List Disposition → List Diagnostic
finding_diagnostics (finding, records) = root_diagnostics records (only (select is_root records))

unfoldable pub duplicate_tests : List String → Disposition → List (Bool × Diagnostic)
duplicate_tests seen d =
    (
      contains seen d.disposition_id,
      disposition_diagnostic d "/disposition_id" "duplicate Guardian disposition ID",
    )
    ∷ []

-- `{item["previous_disposition_id"] for item in ... if it is not None}`
abbrev pub is_predecessor : List Disposition → String → Bool
is_predecessor dispositions id =
    contains (map (λ (d : Disposition). d.previous_disposition_id) dispositions) (some id)

abbrev pub heads : List Disposition → List Disposition
heads dispositions =
    select (λ (d : Disposition). not (is_predecessor dispositions d.disposition_id)) dispositions

-- The order of `(guardian_report_id, finding_index)`.
abbrev pub in_finding_order : Disposition → Disposition → Bool
in_finding_order a b =
    not (is_le (compare b.guardian_report_id a.guardian_report_id))
    || (a.guardian_report_id == b.guardian_report_id && not (ltb b.finding_index a.finding_index))

module _ (finding_digest : String → String) where
  abbrev pub snapshot_diagnostics : Disposition → Option String → List Diagnostic
  snapshot_diagnostics d none =
      disposition_diagnostic d "/finding_index" "Guardian disposition finding index is out of range"
      ∷ []
  snapshot_diagnostics d (some finding) =
      report_if (not (d.finding_digest == finding_digest finding)) (
        disposition_diagnostic d "/finding_digest"
          "Guardian disposition finding digest does not match the immutable report snapshot")

  abbrev pub reference_diagnostics : Disposition → Option GuardianReport → List Diagnostic
  reference_diagnostics d none =
      diagnostic unresolved_reference "guardian-finding-disposition" (some d.disposition_id)
        "/guardian_report_id" "Guardian disposition references an unavailable report"
      ∷ []
  reference_diagnostics d (some report) =
      snapshot_diagnostics d (finding_at report.findings d.finding_index)

  module _ (guardian_reports : List GuardianReport) where
    -- The first loop; `seen` is the keys of `by_id`.
    unfoldable pub item_diagnostics : List String → List Disposition → List Diagnostic
    item_diagnostics seen [] = []
    item_diagnostics seen (d ∷ ds) =
        reports (duplicate_tests seen d)
        ++ (reference_diagnostics d
              (lookup d.guardian_report_id (reports_by_id [] guardian_reports))
            ++ item_diagnostics (d.disposition_id ∷ seen) ds)

    -- `guardian_disposition_diagnostics`
    unfoldable pub guardian_disposition_diagnostics : List Disposition → List Diagnostic
    guardian_disposition_diagnostics dispositions = deduplicate (
        item_diagnostics [] dispositions
        ++ flat_map finding_diagnostics (group_from finding_of [] dispositions))

    -- `current_guardian_dispositions`
    unfoldable pub current_guardian_dispositions : List Disposition → Result (List Disposition)
    current_guardian_dispositions dispositions =
        first_diagnostic (guardian_disposition_diagnostics dispositions)
          (sort_by in_finding_order (heads dispositions))
