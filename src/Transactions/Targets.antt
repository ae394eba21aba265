-- ===== src/Transactions/Targets.antt =====
-- `transaction_target_matches_store` (storage/transactions.py): which paths a store owns.
pub mod Owner
use Prim.Native.Char.{code}
use lit_grove.Prelude.{
  ℕ, String, ◌≡◌, Bool, true, false, not, ◌&&◌, Option, none, some, List, [], ◌∷◌, contains, lookup,
  ◌==◌, string_eq, nat_eq, list_eq, list_beq,
}

-- The code points of a text.
abbrev pub codes : String → List ℕ
codes String.[] = []
codes (String.◌∷◌ c s) = code c ∷ codes s

-- What follows the prefix, where the text has it.
unfoldable pub after_prefix : List ℕ → List ℕ → Option (List ℕ)
after_prefix [] text = some text
after_prefix (c ∷ cs) [] = none
after_prefix (c ∷ cs) (d ∷ ds) = elim (c == d) [ true ↦ after_prefix cs ds | false ↦ none ]

-- `text.endswith(suffix)`
unfoldable pub ends_with : List ℕ → List ℕ → Bool
ends_with suffix [] = list_beq suffix []
ends_with suffix (c ∷ text) = elim (list_beq suffix (c ∷ text)) [
  | true ↦ true
  | false ↦ ends_with suffix text
]

-- `_TRANSACTION_EXACT_TARGETS`
abbrev pub exact_targets : List (String × String)
exact_targets =
    ("registry", "registry/papers.jsonl")
    ∷ ("source_assets", "registry/source_assets.jsonl")
    ∷ ("identity_corrections", "registry/identity_corrections.jsonl")
    ∷ ("review_queue", "review_queue/items.jsonl")
    ∷ ("guardian_reports", "guardian/reports.jsonl")
    ∷ ("guardian_finding_dispositions", "guardian/finding_dispositions.jsonl")
    ∷ ("pipeline_jobs", "process/jobs.jsonl")
    ∷ ("source_adequacy", "process/source_adequacy.jsonl")
    ∷ ("question_mappings", "questions/mappings.jsonl")
    ∷ ("discovery_candidates", "discovery/candidates.jsonl")
    ∷ ("agent_tasks", "process/agent_tasks.jsonl")
    ∷ ("maintenance_work", "process/maintenance.jsonl")
    ∷ ("trusted_parse_authorities", "process/trusted_parse_authorities.jsonl")
    ∷ ("step7_synthesis", "step7/synthesis.jsonl")
    ∷ ("step7_review_angles", "step7/review_angles.jsonl")
    ∷ ("step7_insights", "step7/insights.jsonl")
    ∷ ("step7_cross_views", "step7/cross_views.jsonl")
    ∷ []

-- `_TRANSACTION_PATTERN_TARGETS`
abbrev pub pattern_targets : List (String × (String × String))
pattern_targets =
    ("parsed_pages", ("parse/by_paper/", ".pages.jsonl"))
    ∷ ("paper_cards", ("paper_cards/by_paper/", ".card.json"))
    ∷ ("evidence", ("evidence/by_paper/", ".evidence.jsonl"))
    ∷ ("review_memories", ("review_memories/by_paper/", ".review.json"))
    ∷ ("primary_bundles", ("primary_bundles/by_paper/", ".primary.json"))
    ∷ ("review_bundles", ("review_bundles/by_paper/", ".review-bundle.json"))
    ∷ ("organization_directions", ("organization/directions/by_id/", ".direction-bundle.json"))
    ∷ ("organization_field_map", ("organization/field_map/by_id/", ".field-map-bundle.json"))
    ∷ (
      "organization_questions",
      ("organization/questions/by_id/", ".question-revision-bundle.json"),
    )
    ∷ ("organization_tags", ("organization/tags/by_id/", ".tag-bundle.json"))
    ∷ ("organization_tag_links", ("organization/tag_links/by_id/", ".tag-link-bundle.json"))
    ∷ (
      "organization_screening_criteria",
      ("organization/screening_criteria/by_id/", ".screening-criteria-bundle.json"),
    )
    ∷ (
      "organization_screening_decisions",
      ("organization/screening_decisions/by_id/", ".screening-decision-bundle.json"),
    )
    ∷ []

-- `bool(remainder) and "/" not in remainder and remainder.endswith(suffix)`; the remainder is empty where
-- the path has not the prefix.
abbrev pub is_name : Option (List ℕ) → List ℕ → Bool
is_name none suffix = false
is_name (some []) suffix = false
is_name (some (c ∷ cs)) suffix = not (contains (c ∷ cs) b'/') && ends_with suffix (c ∷ cs)

abbrev pub fits_pattern : Option (String × String) → String → Bool
fits_pattern none path = false
fits_pattern (some (prefix, suffix)) path =
    is_name (after_prefix (codes prefix) (codes path)) (codes suffix)

abbrev pub fits_target : Option String → Option (String × String) → String → Bool
fits_target (some exact) pattern path = path == exact
fits_target none pattern path = fits_pattern pattern path

-- `transaction_target_matches_store`
unfoldable pub transaction_target_matches_store : String → String → Bool
transaction_target_matches_store target_store path =
    fits_target (lookup target_store exact_targets) (lookup target_store pattern_targets) path
