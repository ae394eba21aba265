-- ===== src/Identity/Accepted.antt =====
-- What the report of `identity_correction_diagnostics` says of `project_registry_identity`.
use lit_grove.Prelude.{
  All-append, String, ◌≡◌, ◌↔◌, refl, sym, subst, Bool, true, false, not, ◌&&◌, or_false, not-false,
  Option, none, some, is_some, List, [], ◌∷◌, All, append-empty, insert, length, ◌==◌, nat_eq,
  string_eq, arith,
}
use lit_grove.Diagnostics.{Diagnostic, reports-eq-nil}
use lit_grove.Diagnostics.Deduplicate.{deduplicate-eq-nil}
use lit_grove.Identity.State.{
  Operation, confirmed_duplicate_merge, mistaken_merge_split, paper_alias, library_archive,
  library_tombstone, Correction, PaperIdentity, Run, returns, raises, crashes, exhausted, ◌>>=◌,
}
use lit_grove.Identity.Project.{project}
use lit_grove.Identity.Report.{
  subject_tests, retained_tests, operation_tests, previous_tests, correction_tests,
  loop_diagnostics, projected, paper_set, report_or_project, identity_correction_diagnostics,
  refuse_or_project, project_registry_identity, names_one_of,
}
use lit_grove.Identity.Mapped.{
  Settles, Settles-bind, Known, RetainsKnown, HasSubject, Fits, IsAdmissible,
}
use lit_grove.Identity.Entries.{IsRegistry, Settles-project}

-- The tests fail: nothing is reported.
abbrev Quiet : List (Bool × Diagnostic) → Type 0
Quiet tests = All (λ (t : Bool × Diagnostic). t.0 ≡ false) tests

module _ (ids : List String) where
  Quiet-subject_tests :
      (c : Correction) (ps : List String) → Quiet (subject_tests ids c ps) → Known ids ps
  unfolding subject_tests
  Quiet-subject_tests c [] h = tt
  Quiet-subject_tests c (p ∷ ps) h = ((not-false _).0 h.0, Quiet-subject_tests c ps h.1)

  -- A retained paper that is named is known.
  RetainsKnown-of :
      (r : Option String)
      → is_some r ≡ true
      → (is_some r && not (names_one_of r ids)) ≡ false
      → RetainsKnown ids r
  RetainsKnown-of none s h = cc
  RetainsKnown-of (some p) s h = (not-false _).0 h

  names_some : (r : Option String) (ps : List String) → names_one_of r ps ≡ true → is_some r ≡ true
  names_some none ps h = cc
  names_some (some p) ps h = refl

  HasSubject-of : (ps : List String) → not (length ps == 1) ≡ false → HasSubject ids ps
  HasSubject-of [] h = ground arith
  HasSubject-of (p ∷ ps) h = tt

  Fits-of :
      (o : Operation) (by_id : List (String × Correction)) (c : Correction)
      → Quiet (operation_tests o by_id c)
      → (is_some c.retained_paper_id && not (names_one_of c.retained_paper_id ids)) ≡ false
      → Fits ids o c
  unfolding operation_tests
  Fits-of confirmed_duplicate_merge by_id c h k =
      RetainsKnown-of c.retained_paper_id
        (names_some c.retained_paper_id c.subject_paper_ids
          ((not-false _).0 (or_false _ _ (or_false _ _ h.0).1).0))
        k
  Fits-of paper_alias by_id c h k =
      RetainsKnown-of c.retained_paper_id ((not-false _).0 (or_false _ _ (or_false _ _ h.0).1).0) k
  Fits-of mistaken_merge_split by_id c h k = tt
  Fits-of library_archive by_id c h k = HasSubject-of c.subject_paper_ids (or_false _ _ h.0).0
  Fits-of library_tombstone by_id c h k = HasSubject-of c.subject_paper_ids (or_false _ _ h.0).0

  module _ (canonical_digest : Correction → String) where
    IsAdmissible-correction_tests :
        (by_id : List (String × Correction)) (previous : Option Correction) (c : Correction)
        → Quiet (correction_tests canonical_digest ids by_id previous c)
        → IsAdmissible ids c
    unfolding correction_tests retained_tests
    IsAdmissible-correction_tests by_id previous c h =
        let after_previous =
          ((All-append _ (previous_tests canonical_digest previous c) _).0 h.1).1 in
        let (named, others) =
          (All-append _ (subject_tests ids c c.subject_paper_ids) _).0 after_previous.1 in
        record {
          subjects = Quiet-subject_tests c c.subject_paper_ids named;
          fits = Fits-of c.operation (insert c.correction_id c by_id) c others.1 others.0;
        }

    IsAdmissible-loop_diagnostics :
        (by_id : List (String × Correction)) (previous : Option Correction) (cs : List Correction)
        → loop_diagnostics canonical_digest ids by_id previous cs ≡ []
        → All (IsAdmissible ids) cs
    unfolding loop_diagnostics
    IsAdmissible-loop_diagnostics by_id previous [] h = tt
    IsAdmissible-loop_diagnostics by_id previous (c ∷ cs) h =
        let (here, later) = (append-empty _ _).0 h in
        (
          IsAdmissible-correction_tests by_id previous c ((reports-eq-nil _).0 here),
          IsAdmissible-loop_diagnostics (insert c.correction_id c by_id) (some c) cs later,
        )

module _ (canonical_digest : Correction → String) (papers : List String)
    (corrections : List Correction) where
  abbrev ids : List String
  ids = paper_set papers

  -- The report is empty only where the projection returns.
  abbrev Reported : List Diagnostic → Type 0
  Reported report =
      report ≡ []
      → ((es : List PaperIdentity) × (project ids corrections ≡ returns es) × IsRegistry ids es)

  Reported-projected :
      (x : Run (List PaperIdentity))
      → project ids corrections ≡ x
      → Settles (IsRegistry ids) x
      → Settles Reported (projected x)
  Reported-projected (returns es) q h = λ _. (es, q, h)
  Reported-projected (raises d) q h = λ k. cc ((deduplicate-eq-nil (d ∷ [])).0 k)
  Reported-projected crashes q h = h
  Reported-projected exhausted q h = h

  Reported-report_or_project :
      (ds : List Diagnostic)
      → loop_diagnostics canonical_digest ids [] none corrections ≡ ds
      → Settles Reported (report_or_project ids corrections ds)
  Reported-report_or_project (d ∷ ds) e = λ h. cc ((deduplicate-eq-nil (d ∷ ds)).0 h)
  Reported-report_or_project [] e = Reported-projected (project ids corrections) refl (
      Settles-project ids corrections
        (IsAdmissible-loop_diagnostics ids canonical_digest [] none corrections e))

  Settles-identity_correction_diagnostics :
      Settles Reported (identity_correction_diagnostics canonical_digest corrections papers)
  unfolding identity_correction_diagnostics
  Settles-identity_correction_diagnostics = Reported-report_or_project _ refl

  Settles-refuse_or_project :
      (report : List Diagnostic)
      → Reported report
      → Settles (IsRegistry ids) (refuse_or_project ids corrections report)
  Settles-refuse_or_project [] h =
      let (es, runs, registry) = h refl in subst (Settles (IsRegistry ids)) (sym runs) registry
  Settles-refuse_or_project (d ∷ ds) h = tt

  -- `project_registry_identity` never ends in a missing key, an empty list or a failed assertion, and its
  -- loops end: it raises `ResearchKBError`, or returns one item for each paper, in the order of the IDs,
  -- in which each canonical paper has an item that names itself.
  pub project_registry_identity-Settles :
      Settles (IsRegistry ids) (project_registry_identity canonical_digest papers corrections)
  unfolding project_registry_identity
  project_registry_identity-Settles =
      Settles-bind Reported (IsRegistry ids)
        (identity_correction_diagnostics canonical_digest corrections papers) _
        Settles-identity_correction_diagnostics Settles-refuse_or_project

  returns_of_empty :
      (x : Run (List Diagnostic))
      → Settles Reported x
      → x ≡ returns []
      → (es : List PaperIdentity) × ((x >>= refuse_or_project ids corrections) ≡ returns es)
  returns_of_empty (returns []) h e = let (es, runs, _) = h refl in (es, runs)
  returns_of_empty (returns (d ∷ ds)) h e = cc
  returns_of_empty (raises d) h e = cc
  returns_of_empty crashes h e = cc
  returns_of_empty exhausted h e = cc

  empty_of_returns :
      (x : Run (List Diagnostic)) (es : List PaperIdentity)
      → (x >>= refuse_or_project ids corrections) ≡ returns es
      → x ≡ returns []
  empty_of_returns (returns []) es e = refl
  empty_of_returns (returns (d ∷ ds)) es e = cc
  empty_of_returns (raises d) es e = cc
  empty_of_returns crashes es e = cc
  empty_of_returns exhausted es e = cc

  -- The report of `identity_correction_diagnostics` is empty exactly if `project_registry_identity`
  -- returns.
  pub identity_correction_diagnostics-eq-nil :
      (identity_correction_diagnostics canonical_digest corrections papers ≡ returns []) ↔ (
        (es : List PaperIdentity) × (project_registry_identity canonical_digest papers corrections
          ≡ returns es))
  unfolding project_registry_identity
  identity_correction_diagnostics-eq-nil = (
    returns_of_empty (identity_correction_diagnostics canonical_digest corrections papers)
        Settles-identity_correction_diagnostics,
    λ h. empty_of_returns _ h.0 h.1,
  )
