-- ===== src/Identity/Tests.antt =====
-- Three papers, of which two are merged and split again.
use lit_grove.Prelude.{
  String, ◌≡◌, ◌↔◌, ◌≢◌, refl, true, none, some, List, [], ◌∷◌, contains, All, lookup, insert,
  unique_from, string_eq,
}
use lit_grove.Diagnostics.{deduplicate}
use lit_grove.Identity.State.{
  confirmed_duplicate_merge, mistaken_merge_split, Correction, PaperIdentity, active, returns,
}
use lit_grove.Identity.Project.{
  unfinished, walk, follow, assign, assign_self, require_acyclic, require_acyclic_from, resolve,
  apply_correction, apply_all, identity_of, identities, project,
}
use lit_grove.Identity.Report.{
  previous_tests, subject_tests, retained_tests, operation_tests, correction_tests,
  loop_diagnostics, identity_correction_diagnostics, project_registry_identity, paper_set,
}
use lit_grove.Identity.Walk.{follow-ends}
use lit_grove.Identity.Mapped.{Settles}
use lit_grove.Identity.Entries.{IsRegistry}
use lit_grove.Identity.Accepted.{
  project_registry_identity-Settles, identity_correction_diagnostics-eq-nil,
}
use lit_grove.Identity.Effects.{project_registry_identity-merge, project_registry_identity-split}

abbrev sample_papers : List String
sample_papers = "a" ∷ "b" ∷ "c" ∷ []

abbrev sample_digest : Correction → String
sample_digest c = c.correction_id

abbrev merge_a_b : Correction
merge_a_b = record {
  correction_id = "merge";
  previous_correction_id = none;
  previous_correction_digest = none;
  operation = confirmed_duplicate_merge;
  subject_paper_ids = "a" ∷ "b" ∷ [];
  retained_paper_id = some "b";
  supersedes_correction_id = none;
}

abbrev split_a : Correction
split_a = record {
  correction_id = "split";
  previous_correction_id = some "merge";
  previous_correction_digest = some "merge";
  operation = mistaken_merge_split;
  subject_paper_ids = "a" ∷ [];
  retained_paper_id = none;
  supersedes_correction_id = some "merge";
}

abbrev item : String → String → PaperIdentity
item p t = record { paper_id = p; canonical_paper_id = t; library_status = active }

abbrev merged : List PaperIdentity
merged = item "a" "b" ∷ item "b" "b" ∷ item "c" "c" ∷ []

abbrev separate : List PaperIdentity
separate = item "a" "a" ∷ item "b" "b" ∷ item "c" "c" ∷ []

merge_runs : project_registry_identity sample_digest sample_papers (merge_a_b ∷ []) ≡ returns merged
unfolding project_registry_identity identity_correction_diagnostics loop_diagnostics
    correction_tests previous_tests subject_tests retained_tests operation_tests deduplicate
    unique_from project apply_all apply_correction require_acyclic require_acyclic_from follow walk
    lookup insert assign assign_self identities identity_of resolve
merge_runs = refl

split_runs :
    project_registry_identity sample_digest sample_papers (merge_a_b ∷ split_a ∷ [])
    ≡ returns separate
unfolding project_registry_identity identity_correction_diagnostics loop_diagnostics
    correction_tests previous_tests subject_tests retained_tests operation_tests deduplicate
    unique_from project apply_all apply_correction require_acyclic require_acyclic_from follow walk
    lookup insert assign assign_self identities identity_of resolve
split_runs = refl

project_registry_identity-merge_example :
    All
      (λ (e : PaperIdentity).
        contains ("a" ∷ "b" ∷ []) e.paper_id ≡ true → e.canonical_paper_id ≡ "b")
      merged
project_registry_identity-merge_example =
    project_registry_identity-merge sample_digest sample_papers [] merge_a_b merged merge_runs "b"
      refl refl

project_registry_identity-split_example :
    All
      (λ (e : PaperIdentity).
        contains ("a" ∷ []) e.paper_id ≡ true → e.canonical_paper_id ≡ e.paper_id)
      separate
project_registry_identity-split_example =
    project_registry_identity-split sample_digest sample_papers (merge_a_b ∷ []) split_a separate
      split_runs refl

project_registry_identity-Settles_example :
    Settles
      (IsRegistry (paper_set sample_papers))
      (project_registry_identity sample_digest sample_papers (merge_a_b ∷ split_a ∷ []))
project_registry_identity-Settles_example =
    project_registry_identity-Settles sample_digest sample_papers (merge_a_b ∷ split_a ∷ [])

identity_correction_diagnostics-eq-nil_example :
    (identity_correction_diagnostics sample_digest (merge_a_b ∷ split_a ∷ []) sample_papers
      ≡ returns [])
    ↔ ((es : List PaperIdentity) × (project_registry_identity sample_digest sample_papers
            (merge_a_b ∷ split_a ∷ [])
          ≡ returns es))
identity_correction_diagnostics-eq-nil_example =
    identity_correction_diagnostics-eq-nil sample_digest sample_papers (merge_a_b ∷ split_a ∷ [])

follow-ends_example : follow (("a", "b") ∷ ("b", "a") ∷ []) "a" ≢ unfinished
follow-ends_example = follow-ends (("a", "b") ∷ ("b", "a") ∷ []) "a"
