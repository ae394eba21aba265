-- ===== src/Tasks/Course.antt =====
-- The course of an Agent Task: at most four states, and how it comes to an approval.
use lit_grove.Prelude.{
  ℕ, suc, ◌+◌, ◌≤◌, ◌≡◌, Option, none, some, List, [], ◌∷◌, map, length, get_last?, arith,
}
use lit_grove.Diagnostics.{ok}
use lit_grove.Tasks.State.{
  Status, created, leased, submitted, revision_requested, superseded, rejected, approved, cancelled,
  status_eq, TaskState,
}
use lit_grove.Tasks.Rules.{allowed_transitions, validate_transition}
use lit_grove.Tasks.Chain.{Env, ordered_diagnostics}
use lit_grove.Tasks.History.{Follows, next}
use lit_grove.Tasks.Ordered.{ordered_diagnostics-IsHistory}

-- How far a Task has come.
abbrev rank : Status → ℕ
rank created = 0
rank leased = 1
rank submitted = 2
rank _ = 3

rank-step : (p s : Status) → validate_transition p s ≡ ok tt → suc (rank p) ≤ rank s
unfolding validate_transition allowed_transitions
rank-step created s h = ground arith
rank-step leased s h = ground arith
rank-step submitted s h = ground arith
rank-step revision_requested s h = ground arith
rank-step superseded s h = ground arith
rank-step rejected s h = ground arith
rank-step approved s h = ground arith
rank-step cancelled s h = ground arith

rank-le : (s : Status) → rank s ≤ 3
rank-le created = ground arith
rank-le leased = ground arith
rank-le submitted = ground arith
rank-le _ = ground arith

length-Follows :
    (env : Env) (root previous : TaskState) (states : List TaskState)
    → Follows env root previous states
    → length states + rank previous.status ≤ 3
length-Follows env root previous [] h = omega (arith, rank-le previous.status)
length-Follows env root previous (s ∷ states) h = elim h [
  | next step rest ↦ omega (
    arith,
    rank-step previous.status s.status step.transition,
    length-Follows env root s states rest,
  )
]

-- Where the report on the ordered states of an Agent Task is empty, there are at most four of them.
pub ordered_diagnostics-length :
    (env : Env) (states : List TaskState) → ordered_diagnostics env states ≡ [] → length states ≤ 4
ordered_diagnostics-length env [] h = omega arith
ordered_diagnostics-length env (root ∷ states) h =
    let history = (ordered_diagnostics-IsHistory env (root ∷ states)).0 h in
    omega (arith, length-Follows env root root states history.2)

-- The statuses still to come before an approval; `none` where there is no way to one.
abbrev way_to_approval : Status → Option (List Status)
way_to_approval created = some (leased ∷ submitted ∷ approved ∷ [])
way_to_approval leased = some (submitted ∷ approved ∷ [])
way_to_approval submitted = some (approved ∷ [])
way_to_approval approved = some []
way_to_approval _ = none

way-step :
    (p s : Status) (xs : List Status)
    → validate_transition p s ≡ ok tt
    → way_to_approval s ≡ some xs
    → way_to_approval p ≡ some (s ∷ xs)
unfolding validate_transition allowed_transitions
way-step created s xs h w = ground arith
way-step leased s xs h w = ground arith
way-step submitted s xs h w = ground arith
way-step revision_requested s xs h w = ground arith
way-step superseded s xs h w = ground arith
way-step rejected s xs h w = ground arith
way-step approved s xs h w = ground arith
way-step cancelled s xs h w = ground arith

way-Follows :
    (env : Env) (root previous : TaskState) (states : List TaskState) (head : TaskState)
    → Follows env root previous states
    → get_last? (previous ∷ states) ≡ some head
    → head.status ≡ approved
    → way_to_approval previous.status ≡ some (map (λ (s : TaskState). s.status) states)
way-Follows env root previous [] head h e a = cc
way-Follows env root previous (s ∷ states) head h e a = elim h [
  | next step rest ↦
      way-step previous.status s.status _ step.transition
        (way-Follows env root s states head rest e a)
]

-- Where the report on the ordered states of an Agent Task is empty and the last one is approved, the Task
-- was created, leased, submitted and approved, in four states.
pub ordered_diagnostics-approved :
    (env : Env) (states : List TaskState) (head : TaskState)
    → ordered_diagnostics env states ≡ []
    → get_last? states ≡ some head
    → head.status ≡ approved
    → map (λ (s : TaskState). s.status) states ≡ created ∷ leased ∷ submitted ∷ approved ∷ []
ordered_diagnostics-approved env [] head h e a = cc
ordered_diagnostics-approved env (root ∷ states) head h e a =
    let history = (ordered_diagnostics-IsHistory env (root ∷ states)).0 h in
    let began = (history.1.root (first_revision history.0)).1 in
    from_created root.status _ began (way-Follows env root root states head history.2 e a)
  where
    first_revision : {n : ℕ} {ns ms : List ℕ} → n ∷ ns ≡ 1 ∷ ms → n ≡ 1
    first_revision p = cc

    from_created :
        (s : Status) (xs : List Status)
        → s ≡ created
        → way_to_approval s ≡ some xs
        → s ∷ xs ≡ created ∷ leased ∷ submitted ∷ approved ∷ []
    from_created s xs p w = ground (arith)
