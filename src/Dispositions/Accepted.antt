-- ===== src/Dispositions/Accepted.antt =====
-- When `guardian_disposition_diagnostics` (guardian_dispositions.py) reports nothing.
use lit_grove.Prelude.{
  String, ◌≡◌, refl, Bool, true, false, not, or_false, not-false, Option, none, some, is_some, List,
  [], ◌∷◌, select, contains, All, All-map, Pairwise, Pairwise-select, append-empty, flat_map-eq-nil,
  All-group_from, if◌then◌else◌, ◌==◌, string_eq, differs-false, lookup,
}
use lit_grove.Diagnostics.{report_if, report_if-eq-nil, reports, reports-eq-nil}
use lit_grove.Diagnostics.Deduplicate.{deduplicate-eq-nil}
use lit_grove.Dispositions.State.{
  status_eq, Disposition, GuardianReport, terminal_statuses, disposition_transitions,
}
use lit_grove.Dispositions.Report.{
  Finding, finding_of, finding_eq, finding_at, reports_by_id, Chain, complete, broken, unfinished,
  only, transition_diagnostics, disposition_diagnostic, status_diagnostics, ordered_diagnostics,
  chain_diagnostics, is_root, chain_of, root_diagnostics, finding_diagnostics, duplicate_tests,
  snapshot_diagnostics, reference_diagnostics, item_diagnostics, guardian_disposition_diagnostics,
}
use lit_grove.Dispositions.Ends.{chain_of-ends}
use lit_grove.Dispositions.Thread.{
  IsNext, Follows, last, next, IsThread, IsDecided, DifferentIds, IsOnFinding,
}
use lit_grove.Dispositions.Linking.{Linked, chain_of-Linked}
use lit_grove.Dispositions.Entries.{only-Memᴰ}

transition-IsNext :
    (previous d : Disposition)
    → d.previous_disposition_id ≡ some previous.disposition_id
    → transition_diagnostics previous d ≡ []
    → IsNext previous d
unfolding transition_diagnostics
transition-IsNext previous d named h = go (contains terminal_statuses previous.status) refl h
  where
    go :
        (b : Bool)
        → contains terminal_statuses previous.status ≡ b
        → (if b
            then disposition_diagnostic d "/status"
                "terminal Guardian disposition cannot have a successor"
              ∷ []
            else report_if
                (not (contains (disposition_transitions previous.status) d.status))
                (disposition_diagnostic d "/status" "Guardian disposition transition is invalid"))
          ≡ []
        → IsNext previous d
    go true e h = cc
    go false e h = record {
      names = named;
      ongoing = e;
      allowed = (not-false _).0 ((report_if-eq-nil _ _).0 h);
    }

status-Follows :
    (previous : Disposition) (ds : List Disposition)
    → Linked previous ds
    → status_diagnostics previous ds ≡ []
    → Follows previous ds
unfolding status_diagnostics
status-Follows previous [] l h = last
status-Follows previous (d ∷ ds) (Linked.next named l) h =
    let (here, later) = (append-empty (transition_diagnostics previous d) _).0 h in
    next (transition-IsNext previous d named here) (status-Follows d ds l later)

chain-IsThread :
    (root : Disposition) (records : List Disposition) (c : Chain)
    → Pairwise DifferentIds records
    → only (select is_root records) ≡ some root
    → chain_of root records ≡ c
    → chain_diagnostics root c ≡ []
    → IsThread records
unfolding chain_diagnostics ordered_diagnostics
chain-IsThread root records (complete ds) d e f h =
    let (initial, statuses) = (append-empty _ (status_diagnostics root ds)).0 h in
    let (reordered, linked) = chain_of-Linked root records ds d e f in
    record {
      root = root;
      others = ds;
      reordered = reordered;
      first = rootless root.previous_disposition_id (only-Memᴰ is_root root records e).1;
      initial = (not-false _).0 ((report_if-eq-nil _ _).0 initial);
      follows = status-Follows root ds linked statuses;
    }
  where
    rootless : (o : Option String) → not (is_some o) ≡ true → o ≡ none
    rootless none q = refl
    rootless (some p) q = cc
chain-IsThread root records (broken ds at) d e f h = cc
chain-IsThread root records unfinished d e f h = absurd (chain_of-ends root records f)

root-IsDecided :
    (records : List Disposition) (o : Option Disposition)
    → Pairwise DifferentIds records
    → only (select is_root records) ≡ o
    → root_diagnostics records o ≡ []
    → IsDecided records
unfolding root_diagnostics
root-IsDecided [] o d e h = tt
root-IsDecided (r ∷ rs) none d e h = cc
root-IsDecided (r ∷ rs) (some root) d e h =
    chain-IsThread root (r ∷ rs) (chain_of root (r ∷ rs)) d e refl h

module _ (digest : String → String) (guardian_reports : List GuardianReport) where
  reference-IsOnFinding :
      (d : Disposition) (o : Option GuardianReport)
      → lookup d.guardian_report_id (reports_by_id [] guardian_reports) ≡ o
      → reference_diagnostics digest d o ≡ []
      → IsOnFinding digest guardian_reports d
  reference-IsOnFinding d none e h = cc
  reference-IsOnFinding d (some r) e h = go (finding_at r.findings d.finding_index) refl h
    where
      go :
          (o : Option String)
          → finding_at r.findings d.finding_index ≡ o
          → snapshot_diagnostics digest d o ≡ []
          → IsOnFinding digest guardian_reports d
      go none f h = cc
      go (some finding) f h = record {
        report = r;
        finding = finding;
        known = e;
        in_range = f;
        snapshot = (differs-false _ _).0 ((report_if-eq-nil _ _).0 h);
      }

  item_diagnostics-new :
      (seen : List String) (ds : List Disposition)
      → item_diagnostics digest guardian_reports seen ds ≡ []
      → All (λ d. contains seen d.disposition_id ≡ false) ds
        × Pairwise DifferentIds ds
        × All (IsOnFinding digest guardian_reports) ds
  unfolding item_diagnostics duplicate_tests
  item_diagnostics-new seen [] h = (tt, tt, tt)
  item_diagnostics-new seen (d ∷ ds) h =
      let (new, others) = (append-empty (reports (duplicate_tests seen d)) _).0 h in
      let (reference, later) = (append-empty (reference_diagnostics digest d _) _).0 others in
      let (unseen, different, found) = item_diagnostics-new (d.disposition_id ∷ seen) ds later in
      (
        (
          ((reports-eq-nil (duplicate_tests seen d)).0 new).0,
          All-map ds (λ x q. (or_false _ _ q).1) unseen,
        ),
        (All-map ds (λ x q. (or_false _ _ q).0) unseen, different),
        (reference-IsOnFinding d _ refl reference, found),
      )

  -- Where the report is empty, the dispositions have different IDs, each is on a finding of a known report
  -- with the digest of that finding, and those of each finding are, in some order, a thread from one root
  -- with an initial status: each names the one before it, which is not terminal and may go over into it.
  pub guardian_disposition_diagnostics-IsDecided :
      (dispositions : List Disposition)
      → guardian_disposition_diagnostics digest guardian_reports dispositions ≡ []
      → Pairwise DifferentIds dispositions
        × All (IsOnFinding digest guardian_reports) dispositions
        × ((finding : Finding)
            → IsDecided (select (λ (d : Disposition). finding_of d == finding) dispositions))
  unfolding guardian_disposition_diagnostics finding_diagnostics root_diagnostics
  guardian_disposition_diagnostics-IsDecided dispositions h =
      let (items, findings) =
        (append-empty (item_diagnostics digest guardian_reports [] dispositions) _).0
          ((deduplicate-eq-nil _).0 h) in
      let (_, different, found) = item_diagnostics-new [] dispositions items in
      let by_finding =
        All-group_from finding_of (λ rs. root_diagnostics rs (only (select is_root rs)) ≡ [])
          dispositions refl in
      (
        different,
        found,
        λ finding.
            root-IsDecided _ _
              (Pairwise-select DifferentIds (λ (d : Disposition). finding_of d == finding)
                dispositions different)
              refl (by_finding.0 ((flat_map-eq-nil finding_diagnostics _).0 findings) finding),
      )
