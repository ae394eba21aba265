-- ===== src/Tasks/Registry.antt =====
-- agent_task_registry.py: what an Agent Task may see, `resolve_effective_classes`.
pub mod Classes
use text.Mathlib.Text.{is_le}
use Prim.Native.String.{compare}
use lit_grove.Prelude.{
  map, if◌then◌else◌, ℕ, String, ◌≡◌, Bool, true, false, not, ◌&&◌, Option, none, some, is_some,
  List, [], ◌∷◌, ◌++◌, contains, is_subset, select, every, length, lookup, insert, unique_from,
  sort_by, ◌==◌, string_eq, nat_eq,
}
use lit_grove.Diagnostics.{
  Diagnostic, diagnostic, schema_validation_failed, Result, ok, err, raise_if, ◌>>=◌, ◌>>◌,
}
use lit_grove.Tasks.Kinds.{
  TaskKindDefinition, ExecutorDefinition, content_classes, registry_task_kinds, executors, executor,
  executor_classes,
}

-- The workspace's Agent policy.
pub record Policy : Type 0 where
  pub registry_version : String
  pub execution_scope : String
  pub allowed_content_classes : List String

-- `_registry_error`
abbrev pub registry_error : String → String → Diagnostic
registry_error message path =
    diagnostic schema_validation_failed "agent-task-registry" none path message

-- The value under a key, or the error for a missing one.
abbrev pub found {ℓ} : {A : Type ℓ} → Option A → Diagnostic → Result A
found none d = err d
found (some a) d = ok a

abbrev pub unique : List String → List String
unique = unique_from (λ (c : String). c) []

abbrev pub text_le : String → String → Bool
text_le a b = is_le (compare a b)

abbrev pub allowed_for : TaskKindDefinition → List String
allowed_for d = d.required_content_classes ++ d.optional_content_classes

-- `workspace_classes & approved & executor.allowed_content_classes & allowed_for_kind`
unfoldable pub effective_classes :
    Policy → List String → ExecutorDefinition → TaskKindDefinition → List String
effective_classes policy approved e d =
    select
      (λ (c : String).
        contains approved c && (contains e.allowed_content_classes c && contains (allowed_for d) c))
      (unique policy.allowed_content_classes)

-- `registry_version or PRIVACY_REGISTRY_VERSION`
abbrev pub or_else_version : Option String → String
or_else_version none = "p8-v1"
or_else_version (some version) = if version == "" then "p8-v1" else version

-- What `registry_projection` returns.
pub record Projection : Type 0 where
  pub registry_version : String
  pub content_classes : List String
  pub task_kinds : List TaskKindDefinition
  pub executors : List ExecutorDefinition

-- `TaskKindDefinition.projection` and `ExecutorDefinition.projection` sort their class lists.
abbrev pub projection : TaskKindDefinition → TaskKindDefinition
projection d = record d {
  required_content_classes = sort_by text_le d.required_content_classes;
  optional_content_classes = sort_by text_le d.optional_content_classes;
}

abbrev pub executor_projection : ExecutorDefinition → ExecutorDefinition
executor_projection e = record e {
  allowed_content_classes = sort_by text_le e.allowed_content_classes;
}

abbrev pub by_key : {A : Type 0} → String × A → String × A → Bool
by_key a b = text_le a.0 b.0

-- `[d[key] for key in sorted(d)]`
abbrev pub in_key_order : {A : Type 0} → List (String × A) → List A
in_key_order {A} d = map (λ (e : String × A). e.1) (sort_by by_key d)

-- `registry_projection`; without an argument it takes the current version.
unfoldable pub registry_projection : Option String → Result Projection
registry_projection registry_version =
    let selected = or_else_version registry_version in
    found (lookup selected registry_task_kinds)
      (registry_error "Agent Task registry version is unsupported" "/registry_version")
    >>= λ definitions. ok (record {
      registry_version = selected;
      content_classes = sort_by text_le content_classes;
      task_kinds = map projection (in_key_order definitions);
      executors = map executor_projection (in_key_order executors);
    })

pub record Resolved : Type 0 where
  pub definition : TaskKindDefinition
  pub executor_definition : ExecutorDefinition
  pub classes : List String

-- `resolve_effective_classes`; `approved` is `none` where the value is no list of texts.
unfoldable pub resolve_effective_classes :
    String → String → Option Policy → Option (List String) → Result Resolved
resolve_effective_classes task_kind executor_id workspace_policy approved_content_classes = do
  policy ←
      found workspace_policy
        (registry_error "workspace Agent policy is absent; Agent Tasks are denied" "/agent_policy")
  definitions ← found (lookup policy.registry_version registry_task_kinds) (
      registry_error "workspace Agent policy registry version is unsupported"
        "/agent_policy/registry_version")
  definition ←
      found (lookup task_kind definitions)
        (registry_error "Agent Task kind is not registered" "/task_kind")
  raise_if (not (definition.runtime_status == "available")) (
      registry_error "Agent Task kind is registered but not available in this runtime" "/task_kind")
  profile ←
      found (lookup executor_id executors)
        (registry_error "Agent executor profile is not registered" "/executor_id")
  raise_if (policy.execution_scope == "local_only" && not (profile.execution_scope == "local_only"))
      (registry_error "local-only Agent Task cannot use a cloud executor" "/executor_id")
  approved ←
      found approved_content_classes (
        registry_error "approved content classes must be a string array"
          "/approved_content_classes")
  raise_if (not (length (unique approved) == length approved))
      (registry_error "approved content classes must be unique" "/approved_content_classes")
  raise_if (not (is_subset approved content_classes))
      (registry_error "approved content class is not registered" "/approved_content_classes")
  raise_if
      (not (
        is_subset definition.required_content_classes
          (effective_classes policy approved profile definition)))
      (registry_error "effective privacy scope lacks a required content class"
        "/approved_content_classes")
  ok (record {
    definition = definition;
    executor_definition = profile;
    classes = sort_by text_le (effective_classes policy approved profile definition);
  })
