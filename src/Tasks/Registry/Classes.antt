-- ===== src/Tasks/Registry/Classes.antt =====
-- What `resolve_effective_classes` grants.
use lit_grove.Prelude.{
  String, ◌≡◌, ◌↔◌, refl, sym, ap, ◌∙◌, subst, Bool, true, false, Bool-cases, inl, inr, not,
  not-false, ◌&&◌, Option, none, some, List, [], ◌∷◌, contains, is_subset, contains-sort_by,
  contains-sorted_by, is_subset_trans, differs-false, length, nat_eq, is_subset-of_contains, select,
  lookup, insert, every, every-lookup, sort_by, unique_keys, ◌==◌, string_eq, eq_of_beq, arith, map,
}
use lit_grove.Diagnostics.{Diagnostic, Result, ok, raise_if, ◌>>=◌, ◌>>◌}
use lit_grove.Tasks.Kinds.{
  TaskKindDefinition, ExecutorDefinition, content_classes, executors, executor_classes,
  registry_task_kinds, TaskKinds, p4a_task_kinds, task_kinds, p4c_task_kinds, p5c_task_kinds,
  p7b_task_kinds, p7d_task_kinds, p8_task_kinds,
}
use lit_grove.Tasks.Registry.{
  Policy, found, allowed_for, unique, effective_classes, Resolved, resolve_effective_classes,
  text_le,
}

found-ok :
    {A B : Type 0} (o : Option A) (d : Diagnostic) (f : A → Result B) (b : B)
    → (found o d >>= f) ≡ ok b
    → (a : A) × (o ≡ some a) × (f a ≡ ok b)
found-ok none d f b h = cc
found-ok (some a) d f b h = (a, refl, h)

passed :
    {B : Type 0} (t : Bool) (d : Diagnostic) (k : Result B) (b : B)
    → (raise_if t d >> k) ≡ ok b
    → (t ≡ false) × (k ≡ ok b)
passed true d k b h = cc
passed false d k b h = (refl, h)

contains-select :
    (p : String → Bool) (xs : List String) (a : String)
    → contains (select p xs) a ≡ (contains xs a && p a)
contains-select p [] a = refl
contains-select p (x ∷ xs) a = elim (Bool-cases (x == a)) [
  | inl same ↦
      subst (λ b. contains (select p (x ∷ xs)) b ≡ (contains (x ∷ xs) b && p b))
        (eq_of_beq x a same) (ground (arith, contains-select p xs x, string_eq.beq_iff x x))
  | inr other ↦ ground (arith, contains-select p xs a)
]

map_self : (xs : List String) → map (λ (c : String). c) xs ≡ xs
map_self [] = refl
map_self (x ∷ xs) = ap (λ (r : List String). x ∷ r) (map_self xs)

contains-unique : (xs : List String) (a : String) → contains (unique xs) a ≡ contains xs a
contains-unique xs a =
    ap (λ (r : List String). contains r a) (sym (map_self (unique xs)))
    ∙ (unique_keys (λ (c : String). c) xs).1 a
    ∙ ap (λ (r : List String). contains r a) (map_self xs)

-- The classes that every party allows.
abbrev pub IsAllowed : Policy → List String → Resolved → String → Type 0
IsAllowed policy approved r c =
    (contains policy.allowed_content_classes c ≡ true)
    × (contains approved c ≡ true)
    × (contains r.executor_definition.allowed_content_classes c ≡ true)
    × (contains (allowed_for r.definition) c ≡ true)

pub record IsGranted (task_kind executor_id : String) (policy : Policy) (approved : List String)
    (r : Resolved) : Type 0 where
  pub kinds : TaskKinds
  pub registered : lookup policy.registry_version registry_task_kinds ≡ some kinds
  pub kind : lookup task_kind kinds ≡ some r.definition
  pub kind_name : r.definition.task_kind ≡ task_kind
  pub executor : lookup executor_id executors ≡ some r.executor_definition
  pub executor_name : r.executor_definition.executor_id ≡ executor_id
  pub local :
      policy.execution_scope ≡ "local_only" → r.executor_definition.execution_scope ≡ "local_only"
  pub known : is_subset approved content_classes ≡ true
  pub distinct : length (unique approved) ≡ length approved
  pub exact : (c : String) → (contains r.classes c ≡ true) ↔ IsAllowed policy approved r c
  pub required : is_subset r.definition.required_content_classes r.classes ≡ true
  pub available : r.definition.runtime_status ≡ "available"
  pub no_document : contains r.classes "source_document" ≡ false

abbrev names_kinds : String × TaskKinds → Bool
names_kinds k = every (λ (d : String × TaskKindDefinition). d.1.task_kind == d.0) k.1

abbrev names_executor : String × ExecutorDefinition → Bool
names_executor e = e.1.executor_id == e.0

-- The tables, entry by entry.
kinds_named : every names_kinds registry_task_kinds ≡ true
unfolding registry_task_kinds p4a_task_kinds task_kinds p4c_task_kinds p5c_task_kinds p7b_task_kinds
    p7d_task_kinds p8_task_kinds insert
kinds_named = refl

executors_named : every names_executor executors ≡ true
unfolding executors
executors_named = refl

local_kept :
    (s e : String)
    → (s == "local_only" && not (e == "local_only")) ≡ false
    → s ≡ "local_only"
    → e ≡ "local_only"
local_kept s e h q =
    ground (arith, string_eq.beq_iff s "local_only", string_eq.beq_iff e "local_only")

contains-effective_classes :
    (policy : Policy) (approved : List String) (e : ExecutorDefinition) (d : TaskKindDefinition)
    (c : String)
    → contains (effective_classes policy approved e d) c ≡ (
        contains policy.allowed_content_classes c
        && (contains approved c
            && (contains e.allowed_content_classes c && contains (allowed_for d) c)))
unfolding effective_classes
contains-effective_classes policy approved e d c =
    contains-select _ (unique policy.allowed_content_classes) c
    ∙ ap
        (λ (b : Bool).
          b
          && (contains approved c
              && (contains e.allowed_content_classes c && contains (allowed_for d) c)))
        (contains-unique policy.allowed_content_classes c)

executors-classes :
    (id : String) (e : ExecutorDefinition)
    → lookup id executors ≡ some e
    → e.allowed_content_classes ≡ executor_classes
unfolding executors lookup
executors-classes id e h = ground arith

module _ (policy : Policy) (approved : List String) (e : ExecutorDefinition)
    (d : TaskKindDefinition) where
  abbrev granted : Resolved
  granted = record {
    definition = d;
    executor_definition = e;
    classes = sort_by text_le (effective_classes policy approved e d);
  }

  exact_classes :
      (c : String) → (contains granted.classes c ≡ true) ↔ IsAllowed policy approved granted c
  exact_classes c = (
    λ h. split_all _ _ _ _ (
        sym (contains-effective_classes policy approved e d c)
        ∙ contains-sorted_by text_le (effective_classes policy approved e d) c h),
    λ h.
        contains-sort_by text_le (effective_classes policy approved e d) c
          (contains-effective_classes policy approved e d c ∙ join_all _ _ _ _ h),
  )
    where
      split_all :
          (p q r s : Bool)
          → (p && (q && (r && s))) ≡ true
          → (p ≡ true) × (q ≡ true) × (r ≡ true) × (s ≡ true)
      split_all p q r s h = ground arith

      join_all :
          (p q r s : Bool)
          → (p ≡ true) × (q ≡ true) × (r ≡ true) × (s ≡ true)
          → (p && (q && (r && s))) ≡ true
      join_all p q r s h = ground arith

  no_document_class :
      e.allowed_content_classes ≡ executor_classes
      → contains granted.classes "source_document" ≡ false
  no_document_class h = of_not _ (λ b.
      absurd_of (ap (λ (cs : List String). contains cs "source_document") h)
        ((exact_classes "source_document").0 b).2)
    where
      absurd_of : {b : Bool} → b ≡ false → b ≡ true → ⊥
      absurd_of p q = cc

      of_not : (b : Bool) → (b ≡ true → ⊥) → b ≡ false
      of_not true k = absurd (k refl)
      of_not false k = refl

-- Where `resolve_effective_classes` succeeds, its result has the definition of the requested kind in the
-- registry version of the policy and the profile of the requested executor; the kind is available, a
-- local-only policy has a local executor, the approved classes are registered and each is there once, and
-- the classes are exactly those that the policy, the user's approval, the executor and the kind all
-- allow; they hold each class that the kind requires and never the source document.
pub resolve_effective_classes-IsGranted :
    (task_kind executor_id : String) (policy : Policy) (approved : List String) (r : Resolved)
    → resolve_effective_classes task_kind executor_id (some policy) (some approved) ≡ ok r
    → IsGranted task_kind executor_id policy approved r
unfolding resolve_effective_classes
resolve_effective_classes-IsGranted task_kind executor_id policy approved r h =
    let (kinds, registered, h1) =
      found-ok (lookup policy.registry_version registry_task_kinds) _ _ r h in
    let (d, kind, h2) = found-ok (lookup task_kind kinds) _ _ r h1 in
    let (runtime, h3) = passed (not (d.runtime_status == "available")) _ _ r h2 in
    let (e, profile, h4) = found-ok (lookup executor_id executors) _ _ r h3 in
    let (local, h5) =
      passed (policy.execution_scope == "local_only" && not (e.execution_scope == "local_only")) _ _
        r h4 in
    let (repeated, h6) = passed (not (length (unique approved) == length approved)) _ _ r h5 in
    let (unknown, h7) = passed (not (is_subset approved content_classes)) _ _ r h6 in
    let (needed, made) =
      passed (not (is_subset d.required_content_classes (effective_classes policy approved e d))) _
        _ r h7 in
    subst (IsGranted task_kind executor_id policy approved) (ok_of made) (record {
      kinds = kinds;
      registered = registered;
      kind = kind;
      kind_name = eq_of_beq d.task_kind task_kind (
          every-lookup (λ (x : String × TaskKindDefinition). x.1.task_kind == x.0) kinds task_kind d
            (every-lookup names_kinds registry_task_kinds policy.registry_version kinds kinds_named
              registered)
            kind);
      executor = profile;
      executor_name =
          eq_of_beq e.executor_id executor_id
            (every-lookup names_executor executors executor_id e executors_named profile);
      local = local_kept policy.execution_scope e.execution_scope local;
      known = (not-false _).0 unknown;
      distinct = (nat_eq.beq_iff _ _).0 ((not-false _).0 repeated);
      exact = exact_classes policy approved e d;
      required =
          is_subset_trans d.required_content_classes (effective_classes policy approved e d) _
            ((not-false _).0 needed)
            (is_subset-of_contains _ _
              (λ a m. contains-sort_by text_le (effective_classes policy approved e d) a m));
      available = (differs-false d.runtime_status "available").0 runtime;
      no_document = no_document_class policy approved e d (executors-classes executor_id e profile);
    })
  where
    ok_of : {a b : Resolved} → ok a ≡ ok b → a ≡ b
    ok_of h = cc
