-- ===== src/Dispositions/Recorded.antt =====
-- What holds where `record` (services/guardian_disposition.py) returns.
use lit_grove.Prelude.{
  String, ◌≡◌, refl, subst, Bool, true, false, Option, none, some, List, [], ◌∷◌, ◌++◌, map,
  contains, find, not-false, ◌==◌, string_eq, option_eq, eq_of_beq, if◌then◌else◌,
}
use lit_grove.Diagnostics.{ok, err, raise_if, bind-ok, raise_if-ok}
use lit_grove.Jobs.Chain.{first_diagnostic}
use lit_grove.Jobs.Service.{validate_id, expect}
use lit_grove.Jobs.Service.Accepted.{first_diagnostic-ok, expect-ok}
use lit_grove.Dispositions.State.{
  Status, status_eq, Disposition, GuardianReport, terminal_statuses, initial_statuses,
  disposition_transitions,
}
use lit_grove.Dispositions.Report.{
  finding_eq, finding_at, guardian_disposition_diagnostics, current_guardian_dispositions,
}
use lit_grove.Dispositions.Service.{
  Env, Fresh, Request, DispositionResult, id_of, check_request, check_status, is_same, replay,
  current_of, changed_before, new_disposition, propose, append_new, swap, record_disposition,
}

-- The status may follow that of the head, or is an initial one.
abbrev pub IsAllowed : Status → Option Disposition → Type 0
IsAllowed status none = contains initial_statuses status ≡ true
IsAllowed status (some d) =
    (contains terminal_statuses d.status ≡ false)
    × (contains (disposition_transitions d.status) status ≡ true)

module _ (env : Env) (guardian_reports : List GuardianReport) (existing : List Disposition)
    (fresh : Fresh) (r : Request) where
  -- What a new disposition is, and the store with it.
  pub record IsNew (current : Option Disposition) (d : Disposition) (file : List Disposition)
      : Type 0 where
    pub finding : String
    pub is_head : id_of current ≡ r.expected_previous_disposition_id
    pub allowed : IsAllowed r.status current
    pub new_id :
        contains (map (λ (x : Disposition). x.disposition_id) existing) fresh.disposition_id ≡ false
    pub made : d ≡ new_disposition env fresh r finding current
    pub appended : file ≡ existing ++ d ∷ []
    pub accepted : guardian_disposition_diagnostics env.finding_digest guardian_reports file ≡ []

  -- The two results: the head that the request stands for, and nothing written; or a new disposition.
  pub data Recorded (current : Option Disposition) : DispositionResult → Type 0 where
    kept :
        {d : Disposition}
        → current ≡ some d
        → is_same r d ≡ true
        → Recorded current (record { disposition = d; proposed = none })
    written :
        {d : Disposition} {file : List Disposition}
        → IsNew current d file
        → Recorded current (record { disposition = d; proposed = some file })

  check_status-IsAllowed :
      (current : Option Disposition) (u : Unit {0})
      → check_status r.status current ≡ ok u
      → IsAllowed r.status current
  check_status-IsAllowed none u h = (not-false _).0 (raise_if-ok _ _ u h)
  check_status-IsAllowed (some d) u h =
      let (u1, e1, h1) = bind-ok (raise_if (contains terminal_statuses d.status) _) _ u h in
      (raise_if-ok _ _ u1 e1, (not-false _).0 (raise_if-ok _ _ u h1))

  append_new-IsNew :
      (finding : String) (current : Option Disposition) (m : DispositionResult)
      → id_of current ≡ r.expected_previous_disposition_id
      → append_new env guardian_reports existing fresh r finding current ≡ ok m
      → Recorded current m
  unfolding append_new propose new_disposition
  append_new-IsNew finding current m e h =
      let d = new_disposition env fresh r finding current in
      let (u1, e1, h1) = bind-ok (check_status r.status current) _ m h in
      let (u2, e2, h2) =
        bind-ok (validate_id env.is_disposition "gdisp" fresh.disposition_id) _ m h1 in
      let (u3, e3, h3) =
        bind-ok
          (raise_if
            (contains (map (λ (x : Disposition). x.disposition_id) existing) d.disposition_id) _)
          _ m h2 in
      let (u4, e4, h4) = bind-ok (first_diagnostic (env.validate_record d) tt) _ m h3 in
      let (clean, made) = first_diagnostic-ok _ _ m h4 in
      subst (Recorded current) made (
        written (record {
          finding = finding;
          is_head = e;
          allowed = check_status-IsAllowed current u1 e1;
          new_id = raise_if-ok _ _ u3 e3;
          made = refl;
          appended = refl;
          accepted = clean;
        }))

  pub swap-Recorded :
      (finding : String) (current : Option Disposition) (m : DispositionResult)
      → swap env guardian_reports existing fresh r finding current ≡ ok m
      → Recorded current m
  unfolding swap
  swap-Recorded finding current m h =
      go (id_of current == r.expected_previous_disposition_id)
        (eq_of_beq (id_of current) r.expected_previous_disposition_id) h
    where
      repeated : (o : Option Disposition) → replay r o ≡ ok m → Recorded o m
      repeated none q = cc
      repeated (some d) q = same (is_same r d) refl q
        where
          same :
              (b : Bool)
              → is_same r d ≡ b
              → (if b
                  then ok (record { disposition = d; proposed = none })
                  else err (changed_before (some d)))
                ≡ ok m
              → Recorded (some d) m
          same true e q = subst (Recorded (some d)) (ok_inj q) (kept refl e)
            where
              ok_inj : {x y : DispositionResult} → ok x ≡ ok y → x ≡ y
              ok_inj p = cc
          same false e q = cc

      go :
          (b : Bool)
          → (b ≡ true → id_of current ≡ r.expected_previous_disposition_id)
          → (if b
              then append_new env guardian_reports existing fresh r finding current
              else replay r current)
            ≡ ok m
          → Recorded current m
      go true same h = append_new-IsNew finding current m (same refl) h
      go false same h = repeated current h

  -- The checks that a call which returns has passed.
  pub record HasPassed (m : DispositionResult) : Type 0 where
    pub request : check_request env r ≡ ok tt
    pub report : GuardianReport
    pub known :
        find (λ (g : GuardianReport). g.guardian_report_id == r.guardian_report_id) guardian_reports
        ≡ some report
    pub finding : String
    pub in_range : finding_at report.findings r.finding_index ≡ some finding
    pub heads : List Disposition
    pub current :
        current_guardian_dispositions env.finding_digest guardian_reports existing ≡ ok heads
    pub swapped : swap env guardian_reports existing fresh r finding (current_of r heads) ≡ ok m

  pub record_disposition-HasPassed :
      (m : DispositionResult)
      → record_disposition env guardian_reports existing fresh r ≡ ok m
      → HasPassed m
  unfolding record_disposition
  record_disposition-HasPassed m h =
      let (u1, e1, h1) = bind-ok (check_request env r) _ m h in
      let (report, e2, h2) =
        bind-ok
          (expect
            (find (λ (g : GuardianReport). g.guardian_report_id == r.guardian_report_id)
              guardian_reports)
            _)
          _ m h1 in
      let (finding, e3, h3) =
        bind-ok (expect (finding_at report.findings r.finding_index) _) _ m h2 in
      let (heads, e4, h4) =
        bind-ok (current_guardian_dispositions env.finding_digest guardian_reports existing) _ m
          h3 in
      record {
        request = e1;
        report = report;
        known = expect-ok _ _ report e2;
        finding = finding;
        in_range = expect-ok _ _ finding e3;
        heads = heads;
        current = e4;
        swapped = h4;
      }
