-- ===== src/Tasks/Kinds.antt =====
-- agent_task_registry.py: the kinds of Agent Task by registry version, and the executors.
use lit_grove.Prelude.{ℕ, String, not, List, [], ◌∷◌, select, insert, ◌==◌, string_eq}

pub record TaskKindDefinition : Type 0 where
  pub task_kind : String
  pub required_content_classes : List String
  pub optional_content_classes : List String
  pub result_contract : String
  pub runtime_status : String
  pub max_items : ℕ
  pub max_payload_bytes : ℕ
  pub max_excerpt_bytes : ℕ
  pub max_result_bytes : ℕ

pub record ExecutorDefinition : Type 0 where
  pub executor_id : String
  pub execution_scope : String
  pub allowed_content_classes : List String

abbrev pub content_classes : List String
content_classes =
    "metadata" ∷ "parsed_excerpt" ∷ "canonical_evidence" ∷ "paper_card_content"
    ∷ "review_background" ∷ "research_routing_context" ∷ "research_synthesis"
    ∷ "operational_context" ∷ "source_document" ∷ []

abbrev pub task_kind_definition :
    String → List String → List String → String → String → ℕ → ℕ → ℕ → ℕ → TaskKindDefinition
task_kind_definition kind required optional contract runtime items payload excerpt result = record {
  task_kind = kind;
  required_content_classes = required;
  optional_content_classes = optional;
  result_contract = contract;
  runtime_status = runtime;
  max_items = items;
  max_payload_bytes = payload;
  max_excerpt_bytes = excerpt;
  max_result_bytes = result;
}

abbrev pub TaskKinds : Type 0
TaskKinds = List (String × TaskKindDefinition)

-- `d[definition.task_kind] = definition`
abbrev pub put : TaskKindDefinition → TaskKinds → TaskKinds
put d kinds = insert d.task_kind d kinds

-- `_ROUTE_CLASSES`
abbrev pub route_classes : List String
route_classes = "metadata" ∷ "parsed_excerpt" ∷ "operational_context" ∷ []

unfoldable pub p4a_task_kinds : TaskKinds
p4a_task_kinds =
    put
      (task_kind_definition "semantic_review" ("operational_context" ∷ []) [] "deferred-p4b"
        "deferred" 0 0 0 0)
      (put
        (task_kind_definition "research_synthesis_drafting"
          ("paper_card_content" ∷ "canonical_evidence" ∷ "research_routing_context"
            ∷ "operational_context" ∷ [])
          ("review_background" ∷ "research_synthesis" ∷ "metadata" ∷ []) "deferred-p8" "deferred" 0
          0 0 0)
        (put
          (task_kind_definition "question_direction_mapping"
            ("paper_card_content" ∷ "research_routing_context" ∷ "operational_context" ∷ [])
            ("canonical_evidence" ∷ "review_background" ∷ "metadata" ∷ []) "deferred-p7" "deferred"
            0 0 0 0)
          (put
            (task_kind_definition "review_semantic_processing" route_classes
              ("source_document" ∷ "research_routing_context" ∷ []) "deferred-p4c" "deferred" 0 0 0
              0)
            (put
              (task_kind_definition "primary_semantic_processing" route_classes
                ("source_document" ∷ "research_routing_context" ∷ []) "deferred-p4b" "deferred" 0 0
                0 0)
              (put
                (task_kind_definition "source_adequacy_assessment" route_classes
                  ("source_document" ∷ []) "deferred-p4" "deferred" 0 0 0 0)
                (put
                  (task_kind_definition "document_route_resolution" route_classes
                    ("source_document" ∷ []) "p4a-document-route-decision@1.0" "available" 128
                    262144 131072 262144)
                  []))))))

unfoldable pub task_kinds : TaskKinds
task_kinds =
    put
      (task_kind_definition "primary_semantic_processing" route_classes
        ("research_routing_context" ∷ []) "p4b-primary-semantic-candidate@1.0" "available" 256
        1048576 524288 1048576)
      p4a_task_kinds

unfoldable pub p4c_task_kinds : TaskKinds
p4c_task_kinds =
    put
      (task_kind_definition "review_semantic_processing" route_classes ("review_background" ∷ [])
        "p4c-review-semantic-candidate@1.0" "available" 256 1048576 524288 1048576)
      task_kinds

unfoldable pub p5c_task_kinds : TaskKinds
p5c_task_kinds =
    put
      (task_kind_definition "knowledge_query_report"
        ("paper_card_content" ∷ "canonical_evidence" ∷ "operational_context" ∷ [])
        ("metadata" ∷ "review_background" ∷ "research_routing_context" ∷ [])
        "p5c-knowledge-query-report@1.0" "available" 4 1048576 0 524288)
      p4c_task_kinds

unfoldable pub p7b_task_kinds : TaskKinds
p7b_task_kinds =
    put
      (task_kind_definition "organization_proposal"
        ("paper_card_content" ∷ "research_routing_context" ∷ "operational_context" ∷ [])
        ("metadata" ∷ "canonical_evidence" ∷ "review_background" ∷ [])
        "p7b-organization-proposal@1.0" "available" 25 2097152 0 1048576)
      p5c_task_kinds

unfoldable pub p7d_task_kinds : TaskKinds
p7d_task_kinds =
    put
      (task_kind_definition "question_screening_decision_proposal"
        ("metadata" ∷ "research_routing_context" ∷ "operational_context" ∷ [])
        ("paper_card_content" ∷ []) "p7d-screening-decision-proposal@1.0" "available" 200 1048576 0
        524288)
      (put
        (task_kind_definition "question_screening_criteria_proposal"
          ("research_routing_context" ∷ "operational_context" ∷ []) []
          "p7d-screening-criteria-proposal@1.0" "available" 200 524288 0 524288)
        p7b_task_kinds)

unfoldable pub p8_task_kinds : TaskKinds
p8_task_kinds =
    put
      (task_kind_definition "research_synthesis_drafting"
        ("paper_card_content" ∷ "canonical_evidence" ∷ "research_routing_context"
          ∷ "research_synthesis" ∷ "operational_context" ∷ [])
        ("metadata" ∷ "review_background" ∷ []) "p8-research-synthesis-proposal@1.0" "available" 512
        2097152 0 1048576)
      p7d_task_kinds

-- `REGISTRY_TASK_KINDS`
unfoldable pub registry_task_kinds : List (String × TaskKinds)
registry_task_kinds =
    ("p4a-v1", p4a_task_kinds)
    ∷ ("p4b-v1", task_kinds)
    ∷ ("p4c-v1", p4c_task_kinds)
    ∷ ("p5c-v1", p5c_task_kinds)
    ∷ ("p7b-v1", p7b_task_kinds)
    ∷ ("p7d-v1", p7d_task_kinds)
    ∷ ("p8-v1", p8_task_kinds)
    ∷ []

-- `_EXECUTOR_CLASSES`
abbrev pub executor_classes : List String
executor_classes = select (λ (c : String). not (c == "source_document")) content_classes

abbrev pub executor : String → ExecutorDefinition
executor id = record {
  executor_id = id;
  execution_scope = "cloud_allowed";
  allowed_content_classes = executor_classes;
}

-- `EXECUTORS`
unfoldable pub executors : List (String × ExecutorDefinition)
executors =
    ("codex_cli", executor "codex_cli") ∷ ("claude_code_cli", executor "claude_code_cli") ∷ []
