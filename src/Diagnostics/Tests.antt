-- ===== src/Diagnostics/Tests.antt =====
-- A report with a repeated diagnostic.
use lit_grove.Prelude.{none, List, [], ◌∷◌, All, Pairwise, Memᴰ}
use lit_grove.Diagnostics.{
  Diagnostic, key_eq, diagnostic, deduplicate, write_conflict, duplicate_id,
}
use lit_grove.Diagnostics.Deduplicate.{AreDifferent, IsSame, deduplicate_keys}

abbrev sample_report : List Diagnostic
sample_report =
    diagnostic write_conflict "transaction" none "" "busy"
    ∷ diagnostic duplicate_id "transaction" none "" "twice"
    ∷ diagnostic write_conflict "transaction" none "" "busy"
    ∷ []

deduplicate_keys_example :
    All (λ (d : Diagnostic). Memᴰ d sample_report) (deduplicate sample_report)
    × Pairwise AreDifferent (deduplicate sample_report)
    × All
        (λ (d : Diagnostic). (e : Diagnostic) × Memᴰ e (deduplicate sample_report) × IsSame e d)
        sample_report
deduplicate_keys_example = deduplicate_keys sample_report
