-- ===== src/Dispositions/Replay.antt =====
-- A call of `record` (services/guardian_disposition.py) that is made again.
use lit_grove.Prelude.{
  String, ◌≡◌, sym, ap, ◌∙◌, subst, Bool, Option, none, some, List, [], ◌∷◌, ◌++◌, find, sort_by,
  ◌==◌, string_eq, nat_eq, option_eq,
}
use lit_grove.Diagnostics.{Result, ok, ◌>>◌, ◌>>=◌, unresolved_reference}
use lit_grove.Jobs.Service.{expect}
use lit_grove.Jobs.Service.Accepted.{first_diagnostic-ok}
use lit_grove.Dispositions.State.{status_eq, Disposition, GuardianReport}
use lit_grove.Dispositions.Report.{
  finding_eq, finding_at, heads, in_finding_order, guardian_disposition_diagnostics,
  current_guardian_dispositions,
}
use lit_grove.Dispositions.Service.{
  Env, Fresh, Request, DispositionResult, check_request, current_of, request_error, new_disposition,
  swap, record_disposition,
}
use lit_grove.Dispositions.Recorded.{
  IsNew, Recorded, kept, written, HasPassed, record_disposition-HasPassed, swap-Recorded,
}
use lit_grove.Dispositions.After.{current_after, head_after, swap_after}

-- A call past its checks is the compare-and-swap.
passes :
    (env : Env) (guardian_reports : List GuardianReport) (file hs : List Disposition)
    (again : Fresh) (r : Request) (report : GuardianReport) (finding : String)
    → check_request env r ≡ ok tt
    → find (λ (g : GuardianReport). g.guardian_report_id == r.guardian_report_id) guardian_reports
      ≡ some report
    → finding_at report.findings r.finding_index ≡ some finding
    → current_guardian_dispositions env.finding_digest guardian_reports file ≡ ok hs
    → record_disposition env guardian_reports file again r
      ≡ swap env guardian_reports file again r finding (current_of r hs)
unfolding record_disposition
passes env guardian_reports file hs again r report finding a b c d =
    ap (λ x. x >> with_report (find of_request guardian_reports)) a
    ∙ ap with_report b
    ∙ ap with_finding c
    ∙ ap with_heads d
  where
    of_request : GuardianReport → Bool
    of_request g = g.guardian_report_id == r.guardian_report_id

    with_heads : Result (List Disposition) → Result DispositionResult
    with_heads x = x >>= (λ hs. swap env guardian_reports file again r finding (current_of r hs))

    with_finding : Option String → Result DispositionResult
    with_finding o =
        expect o (
          request_error unresolved_reference none "/finding_index"
            "Guardian finding index is out of range")
        >>= (λ f.
            current_guardian_dispositions env.finding_digest guardian_reports file
            >>= (λ hs. swap env guardian_reports file again r f (current_of r hs)))

    with_report : Option GuardianReport → Result DispositionResult
    with_report o =
        expect o (
          request_error unresolved_reference none "/guardian_report_id"
            "Guardian report does not exist")
        >>= (λ (g : GuardianReport). with_finding (finding_at g.findings r.finding_index))

-- Where a call of `record` has written a disposition, the same call on the store with it returns that
-- disposition and writes nothing.
pub record_disposition-replay :
    (env : Env) (guardian_reports : List GuardianReport) (existing store : List Disposition)
    (fresh again : Fresh) (r : Request) (m : DispositionResult)
    → record_disposition env guardian_reports existing fresh r ≡ ok m
    → m.proposed ≡ some store
    → record_disposition env guardian_reports store again r
      ≡ ok (record { disposition = m.disposition; proposed = none })
unfolding current_guardian_dispositions
record_disposition-replay env guardian_reports existing store fresh again r m h e =
    go m
      (swap-Recorded env guardian_reports existing fresh r p.finding (current_of r p.heads) m
        p.swapped)
      e
  where
    p : HasPassed env guardian_reports existing fresh r m
    p = record_disposition-HasPassed env guardian_reports existing fresh r m h

    clean : guardian_disposition_diagnostics env.finding_digest guardian_reports existing ≡ []
    clean = (first_diagnostic-ok _ _ p.heads p.current).0

    from_new :
        (d : Disposition)
        → IsNew env guardian_reports existing fresh r (current_of r p.heads) d store
        → record_disposition env guardian_reports store again r
          ≡ ok (record { disposition = d; proposed = none })
    from_new d n =
        ap (λ f. record_disposition env guardian_reports f again r) same_store
        ∙ passes env guardian_reports (existing ++ new ∷ []) current_then again r p.report p.finding
            p.request p.known p.in_range
            (current_after env guardian_reports existing p.heads fresh r n.finding clean p.current
              n.new_id accepted)
        ∙ ap (swap env guardian_reports (existing ++ new ∷ []) again r p.finding) (
            head_after env guardian_reports existing p.heads fresh r n.finding clean p.current
              n.new_id accepted)
        ∙ swap_after env guardian_reports existing p.heads fresh r n.finding clean p.current
            n.new_id accepted again p.finding n.is_head
        ∙ ap (λ x. ok (record { disposition = x; proposed = none })) (sym n.made)
      where
        new : Disposition
        new = new_disposition env fresh r n.finding (current_of r p.heads)

        current_then : List Disposition
        current_then = sort_by in_finding_order (heads (existing ++ new ∷ []))

        same_store : store ≡ existing ++ new ∷ []
        same_store = n.appended ∙ ap (λ x. existing ++ x ∷ []) n.made

        accepted :
            guardian_disposition_diagnostics env.finding_digest guardian_reports
              (existing ++ new ∷ [])
            ≡ []
        accepted =
            subst (λ f. guardian_disposition_diagnostics env.finding_digest guardian_reports f ≡ [])
              same_store n.accepted

    go :
        (x : DispositionResult)
        → Recorded env guardian_reports existing fresh r (current_of r p.heads) x
        → x.proposed ≡ some store
        → record_disposition env guardian_reports store again r
          ≡ ok (record { disposition = x.disposition; proposed = none })
    go x (kept a b) q = cc
    go x (written {d = d} {file = f} n) q =
        from_new d
          (subst (IsNew env guardian_reports existing fresh r (current_of r p.heads) d) (inner q) n)
      where
        inner : some f ≡ some store → f ≡ store
        inner s = cc
