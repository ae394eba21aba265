-- ===== src/Identity/Report.antt =====
-- `identity_correction_diagnostics` and `project_registry_identity`.
use lit_grove.Prelude.{
  String, Bool, false, not, ◌&&◌, ◌||◌, Option, none, some, is_some, List, [], ◌∷◌, ◌++◌, length,
  select, contains, is_subset, lookup, insert, sort_by, ltb, unique_from, ◌==◌, string_eq, nat_eq,
  option_eq, list_eq,
}
use lit_grove.Diagnostics.{Diagnostic, diagnostic, reports, deduplicate, incomplete_transaction}
use lit_grove.Identity.State.{
  Operation, confirmed_duplicate_merge, mistaken_merge_split, paper_alias, operation_eq, Correction,
  PaperIdentity, Run, returns, raises, crashes, exhausted, ◌>>=◌,
}
use lit_grove.Identity.Project.{project, text_le}

-- `_diagnostic`
abbrev pub correction_diagnostic : Correction → String → String → Diagnostic
correction_diagnostic c path message =
    diagnostic incomplete_transaction "registry-identity-correction" (some c.correction_id) path
      message

unfoldable pub subject_tests : List String → Correction → List String → List (Bool × Diagnostic)
subject_tests paper_ids c [] = []
subject_tests paper_ids c (p ∷ ps) =
    (
      not (contains paper_ids p),
      correction_diagnostic c "/subject_paper_ids"
          "identity correction references an unknown paper",
    )
    ∷ subject_tests paper_ids c ps

-- `retained in papers`, which `None` is not.
abbrev pub names_one_of : Option String → List String → Bool
names_one_of none ps = false
names_one_of (some p) ps = contains ps p

unfoldable pub retained_tests : List String → Correction → List (Bool × Diagnostic)
retained_tests paper_ids c =
    (
      is_some c.retained_paper_id && not (names_one_of c.retained_paper_id paper_ids),
      correction_diagnostic c "/retained_paper_id" "identity correction retained paper is unknown",
    )
    ∷ []

abbrev pub target_of : List (String × Correction) → Option String → Option Correction
target_of by_id none = none
target_of by_id (some id) = lookup id by_id

abbrev pub is_merge : Option Correction → Bool
is_merge none = false
is_merge (some t) = t.operation == confirmed_duplicate_merge

-- `set(subject_paper_ids) - {retained_paper_id}` of the superseded correction.
abbrev pub merged_away : Option Correction → List String
merged_away none = []
merged_away (some t) =
    select (λ (p : String). not (t.retained_paper_id == some p)) t.subject_paper_ids

unfoldable pub operation_tests :
    Operation → List (String × Correction) → Correction → List (Bool × Diagnostic)
operation_tests confirmed_duplicate_merge by_id c =
    (
      ltb (length c.subject_paper_ids) 2
          || (not (names_one_of c.retained_paper_id c.subject_paper_ids)
              || is_some c.supersedes_correction_id),
      correction_diagnostic c "/operation"
          "duplicate merge requires two subjects and one retained subject",
    )
    ∷ []
operation_tests paper_alias by_id c =
    (
      not (length c.subject_paper_ids == 1)
          || (not (is_some c.retained_paper_id)
              || (names_one_of c.retained_paper_id c.subject_paper_ids
                  || is_some c.supersedes_correction_id)),
      correction_diagnostic c "/operation"
          "paper alias requires one distinct source and retained target",
    )
    ∷ []
operation_tests mistaken_merge_split by_id c =
    let target = target_of by_id c.supersedes_correction_id in
    let misplaced = is_some c.retained_paper_id || not (is_merge target) in
    (
      misplaced,
      correction_diagnostic c "/supersedes_correction_id"
          "split must supersede an earlier duplicate merge",
    )
    ∷ (
      not misplaced && not (is_subset c.subject_paper_ids (merged_away target)),
      correction_diagnostic c "/subject_paper_ids"
          "split subjects are outside the superseded merge",
    )
    ∷ []
operation_tests _ by_id c =
    (
      not (length c.subject_paper_ids == 1)
          || (is_some c.retained_paper_id || is_some c.supersedes_correction_id),
      correction_diagnostic c "/operation" "library lifecycle correction requires one subject only",
    )
    ∷ []

-- `try: _project(...)` with `except ResearchKBError`
abbrev pub projected : Run (List PaperIdentity) → Run (List Diagnostic)
projected (returns items) = returns (deduplicate [])
projected (raises d) = returns (deduplicate (d ∷ []))
projected crashes = crashes
projected exhausted = exhausted

-- The set of the papers.
abbrev pub paper_set : List String → List String
paper_set = unique_from (λ (p : String). p) []

abbrev pub report_or_project :
    List String → List Correction → List Diagnostic → Run (List Diagnostic)
report_or_project paper_ids corrections [] = projected (project paper_ids corrections)
report_or_project paper_ids corrections (d ∷ ds) = returns (deduplicate (d ∷ ds))

abbrev pub refuse_or_project :
    List String → List Correction → List Diagnostic → Run (List PaperIdentity)
refuse_or_project paper_ids corrections [] = project paper_ids corrections
refuse_or_project paper_ids corrections (d ∷ ds) = raises d

module _ (canonical_digest : Correction → String) where
  unfoldable pub previous_tests : Option Correction → Correction → List (Bool × Diagnostic)
  previous_tests none c =
      (
        is_some c.previous_correction_id || is_some c.previous_correction_digest,
        correction_diagnostic c "/previous_correction_id"
            "identity correction root must not have a predecessor",
      )
      ∷ []
  previous_tests (some previous) c =
      (
        not (c.previous_correction_id == some previous.correction_id),
        correction_diagnostic c "/previous_correction_id"
            "identity correction predecessor ID does not match",
      )
      ∷ (
        not (c.previous_correction_digest == some (canonical_digest previous)),
        correction_diagnostic c "/previous_correction_digest"
            "identity correction predecessor digest does not match",
      )
      ∷ []

  -- What one round of the loop tests, with `by_id` from before the round.
  unfoldable pub correction_tests :
      List String
      → List (String × Correction)
      → Option Correction
      → Correction
      → List (Bool × Diagnostic)
  correction_tests paper_ids by_id previous c =
      (
        is_some (lookup c.correction_id by_id),
        correction_diagnostic c "/correction_id" "duplicate identity correction ID",
      )
      ∷ (previous_tests previous c
          ++ ((
            not (c.subject_paper_ids == sort_by text_le c.subject_paper_ids),
            correction_diagnostic c "/subject_paper_ids"
                "identity correction subjects must be sorted",
          )
              ∷ (subject_tests paper_ids c c.subject_paper_ids
                  ++ (retained_tests paper_ids c
                      ++ operation_tests c.operation (insert c.correction_id c by_id) c))))

  unfoldable pub loop_diagnostics :
      List String
      → List (String × Correction)
      → Option Correction
      → List Correction
      → List Diagnostic
  loop_diagnostics paper_ids by_id previous [] = []
  loop_diagnostics paper_ids by_id previous (c ∷ cs) =
      reports (correction_tests paper_ids by_id previous c)
      ++ loop_diagnostics paper_ids (insert c.correction_id c by_id) (some c) cs

  -- `identity_correction_diagnostics`
  unfoldable pub identity_correction_diagnostics :
      List Correction → List String → Run (List Diagnostic)
  identity_correction_diagnostics corrections papers =
      report_or_project (paper_set papers) corrections
        (loop_diagnostics (paper_set papers) [] none corrections)

  -- `project_registry_identity`
  unfoldable pub project_registry_identity :
      List String → List Correction → Run (List PaperIdentity)
  project_registry_identity papers corrections =
      identity_correction_diagnostics corrections papers
      >>= refuse_or_project (paper_set papers) corrections
