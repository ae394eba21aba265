-- ===== src/Dispositions/Service.antt =====
-- `GuardianFindingDispositionService.record` (services/guardian_disposition.py), up to the transaction that
-- writes the proposed records.
use lit_grove.Prelude.{
  ℕ, String, Bool, not, ◌&&◌, Option, none, some, List, [], ◌∷◌, ◌++◌, map, contains, find, ◌==◌,
  string_eq, nat_eq, option_eq, if◌then◌else◌,
}
use lit_grove.Diagnostics.{
  Diagnostic, diagnostic, invalid_authority, unresolved_reference, write_conflict, duplicate_id,
  Result, ok, err, raise_if, ◌>>◌, ◌>>=◌,
}
use lit_grove.Jobs.Chain.{first_diagnostic}
use lit_grove.Jobs.Service.{validate_id, expect}
use lit_grove.Dispositions.State.{
  Status, superseded, status_eq, Disposition, GuardianReport, terminal_statuses, initial_statuses,
  disposition_transitions,
}
use lit_grove.Dispositions.Report.{
  finding_at, guardian_disposition_diagnostics, current_guardian_dispositions,
}

-- `finding_digest`, what `validate_id` matches, and the validation of a record.
pub record Env : Type 0 where
  pub finding_digest : String → String
  pub is_report : String → Bool
  pub is_disposition : String → Bool
  pub validate_record : Disposition → List Diagnostic

-- The workspace, the next allocated ID and the time.
pub record Fresh : Type 0 where
  pub workspace_id : String
  pub disposition_id : String
  pub now : String

-- The arguments of `record`.
pub record Request : Type 0 where
  pub guardian_report_id : String
  pub finding_index : ℕ
  pub status : Status
  pub rationale : String
  pub expected_previous_disposition_id : Option String
  pub actor : String
  pub fixture_origin : Option String

-- `GuardianDispositionResult`: the disposition, and the records that the transaction writes.
pub record DispositionResult : Type 0 where
  pub disposition : Disposition
  pub proposed : Option (List Disposition)

abbrev pub request_error : String → Option String → String → String → Diagnostic
request_error code id path message = diagnostic code "guardian-finding-disposition" id path message

-- `item["disposition_id"] if item is not None else None`
abbrev pub id_of : Option Disposition → Option String
id_of none = none
id_of (some d) = some d.disposition_id

abbrev pub validate_expected : (String → Bool) → Option String → Result (Unit {0})
validate_expected matches none = ok tt
validate_expected matches (some id) = validate_id matches "gdisp" id

unfoldable pub check_request : Env → Request → Result (Unit {0})
check_request env r = do
  validate_id env.is_report "guardian" r.guardian_report_id
  validate_expected env.is_disposition r.expected_previous_disposition_id
  raise_if (not (contains ("user" ∷ "cli" ∷ []) r.actor)) (
      request_error invalid_authority none "/actor"
        "Guardian finding disposition requires user or Core authority")
  raise_if (r.actor == "cli" && not (r.status == superseded)) (
      request_error invalid_authority none "/status"
        "Core authority may only supersede a Guardian disposition")

abbrev pub check_status : Status → Option Disposition → Result (Unit {0})
check_status status none =
    raise_if (not (contains initial_statuses status))
      (request_error write_conflict none "/status" "Guardian disposition root status is invalid")
check_status status (some d) = do
  raise_if (contains terminal_statuses d.status) (
      request_error write_conflict (some d.disposition_id) "/status"
        "terminal Guardian disposition cannot have a successor")
  raise_if (not (contains (disposition_transitions d.status) status)) (
      request_error write_conflict (some d.disposition_id) "/status"
        "Guardian disposition transition is invalid")

-- The disposition that a request stands for.
abbrev pub is_same : Request → Disposition → Bool
is_same r d =
    d.previous_disposition_id == r.expected_previous_disposition_id
    && d.status == r.status
    && d.rationale == r.rationale
    && d.actor == r.actor

abbrev pub changed_before : Option Disposition → Diagnostic
changed_before current =
    request_error write_conflict (id_of current) "/previous_disposition_id"
      "Guardian finding disposition changed before update"

-- A head that is not the expected one: the request may have been carried out already.
abbrev pub replay : Request → Option Disposition → Result DispositionResult
replay r none = err (changed_before none)
replay r (some d) =
    if is_same r d
    then ok (record { disposition = d; proposed = none })
    else err (changed_before (some d))

-- The head of a finding among the current dispositions.
abbrev pub current_of : Request → List Disposition → Option Disposition
current_of r heads =
    find
      (λ (d : Disposition).
        d.guardian_report_id == r.guardian_report_id && d.finding_index == r.finding_index)
      heads

module _ (env : Env) where
  unfoldable pub new_disposition : Fresh → Request → String → Option Disposition → Disposition
  new_disposition fresh r finding current = record {
    disposition_id = fresh.disposition_id;
    workspace_id = fresh.workspace_id;
    guardian_report_id = r.guardian_report_id;
    finding_index = r.finding_index;
    finding_digest = env.finding_digest finding;
    status = r.status;
    rationale = r.rationale;
    previous_disposition_id = id_of current;
    actor = r.actor;
    created_at = fresh.now;
    fixture_origin = r.fixture_origin;
  }

  module _ (guardian_reports : List GuardianReport) (existing : List Disposition) where
    unfoldable pub propose : Disposition → Result DispositionResult
    propose d = do
      raise_if (contains (map (λ (x : Disposition). x.disposition_id) existing) d.disposition_id) (
          request_error duplicate_id (some d.disposition_id) "/disposition_id"
            "allocated Guardian disposition ID is already in use")
      first_diagnostic (env.validate_record d) tt
      first_diagnostic
          (guardian_disposition_diagnostics env.finding_digest guardian_reports
            (existing ++ d ∷ []))
          (record { disposition = d; proposed = some (existing ++ d ∷ []) })

    unfoldable pub append_new :
        Fresh → Request → String → Option Disposition → Result DispositionResult
    append_new fresh r finding current = do
      check_status r.status current
      validate_id env.is_disposition "gdisp" fresh.disposition_id
      propose (new_disposition fresh r finding current)

    -- The compare-and-swap on the head of the finding.
    unfoldable pub swap : Fresh → Request → String → Option Disposition → Result DispositionResult
    swap fresh r finding current =
        if id_of current == r.expected_previous_disposition_id
        then append_new fresh r finding current
        else replay r current

    -- `record`, of the reports and dispositions in the workspace
    unfoldable pub record_disposition : Fresh → Request → Result DispositionResult
    record_disposition fresh r = do
      check_request env r
      report ←
          expect
            (find (λ (g : GuardianReport). g.guardian_report_id == r.guardian_report_id)
              guardian_reports)
            (request_error unresolved_reference none "/guardian_report_id"
              "Guardian report does not exist")
      finding ← expect (finding_at report.findings r.finding_index) (
          request_error unresolved_reference none "/finding_index"
            "Guardian finding index is out of range")
      heads ← current_guardian_dispositions env.finding_digest guardian_reports existing
      swap fresh r finding (current_of r heads)
