-- ===== src/Tasks/Ordered.antt =====
-- The report on one Task is empty exactly if its states are its history.
use lit_grove.Prelude.{
  ◌≤◌, ◌≡◌, ◌↔◌, refl, Bool, true, false, some, List, [], ◌∷◌, ◌++◌, map, append-empty,
  list_beq_iff, if◌then◌else◌, differs-false, ltb-false, string_eq, nat_eq, list_eq, option_eq,
}
use lit_grove.Diagnostics.{reports, reports-eq-nil, seq-eq-ok}
use lit_grove.Tasks.State.{predecessor_eq, lease_eq, staged_eq, lineage_eq, TaskState}
use lit_grove.Tasks.Rules.{validate_transition, validate_task_state}
use lit_grove.Tasks.Validated.{validate_task_state-IsWellFormed}
use lit_grove.Tasks.Chain.{
  Env, from_error, predecessor_of, stable_tests, kept_tests, predecessor_tests, time_tests, rules,
  step_diagnostics, walk, ordered_diagnostics, revisions_from, chain_diagnostic,
}
use lit_grove.Tasks.History.{IsStep, Follows, last, next, IsHistory}
use lit_grove.Tasks.Kept.{from_error-eq-nil, stable_tests_lem, kept_tests_lem}

module _ (env : Env) (root : TaskState) where
  predecessor_tests_lem :
      (previous s : TaskState)
      → (reports (predecessor_tests env previous s) ≡ [])
        ↔ (s.predecessor ≡ some (predecessor_of env previous))
  unfolding predecessor_tests
  predecessor_tests_lem previous s = (
    λ h. (differs-false _ _).0 ((reports-eq-nil (predecessor_tests env previous s)).0 h).0,
    λ h. (reports-eq-nil (predecessor_tests env previous s)).1 ((differs-false _ _).1 h, tt),
  )

  time_tests_lem :
      (previous s : TaskState)
      → (reports (time_tests env previous s) ≡ [])
        ↔ (env.parse_timestamp previous.updated_at ≤ env.parse_timestamp s.updated_at)
  unfolding time_tests
  time_tests_lem previous s = (
    λ h. (ltb-false _ _).0 ((reports-eq-nil (time_tests env previous s)).0 h).0,
    λ h. (reports-eq-nil (time_tests env previous s)).1 ((ltb-false _ _).1 h, tt),
  )

  step_diagnostics-eq-nil :
      (previous s : TaskState)
      → (step_diagnostics env root previous s ≡ []) ↔ IsStep env root previous s
  unfolding step_diagnostics
  step_diagnostics-eq-nil previous s =
      let both =
        seq-eq-ok (validate_transition previous.status s.status)
          (validate_task_state env.basis_digest s) in
      let valid = validate_task_state-IsWellFormed env.basis_digest s in
      (
        λ h.
            (let (predecessor, h1) =
                (append-empty (reports (predecessor_tests env previous s)) _).0 h in
              let (same, h2) = (append-empty (reports (stable_tests root s)) _).0 h1 in
              let (kept, h3) = (append-empty (reports (kept_tests previous s)) _).0 h2 in
              let (checks, time) = (append-empty (from_error s (rules env previous s)) _).0 h3 in
              let r = both.0 ((from_error-eq-nil s _).0 checks) in
              let k = (kept_tests_lem previous s).0 kept in
              record {
                predecessor = (predecessor_tests_lem previous s).0 predecessor;
                same_task = (stable_tests_lem root s).0 same;
                lease = k.0;
                staged_result = k.1;
                transition = r.0;
                well_formed = valid.0 r.1;
                time = (time_tests_lem previous s).0 time;
              }),
        λ k. (append-empty (reports (predecessor_tests env previous s)) _).1 (
          (predecessor_tests_lem previous s).1 k.predecessor,
          (append-empty (reports (stable_tests root s)) _).1 (
            (stable_tests_lem root s).1 k.same_task,
            (append-empty (reports (kept_tests previous s)) _).1 (
              (kept_tests_lem previous s).1 (k.lease, k.staged_result),
              (append-empty (from_error s (rules env previous s)) _).1 (
                (from_error-eq-nil s _).1 (both.1 (k.transition, valid.1 k.well_formed)),
                (time_tests_lem previous s).1 k.time,
              ),
            ),
          ),
        ),
      )

  walk-eq-nil :
      (previous : TaskState) (states : List TaskState)
      → (walk env root previous states ≡ []) ↔ Follows env root previous states
  unfolding walk
  walk-eq-nil previous [] = (λ h. last, λ h. refl)
  walk-eq-nil previous (s ∷ states) = (
    λ h.
        (let (step, rest) = (append-empty (step_diagnostics env root previous s) _).0 h in
          next ((step_diagnostics-eq-nil previous s).0 step) ((walk-eq-nil s states).0 rest)),
    λ h. elim h [
      | next step rest ↦
          (append-empty (step_diagnostics env root previous s) _).1
            ((step_diagnostics-eq-nil previous s).1 step, (walk-eq-nil s states).1 rest)
    ],
  )

  ordered_case :
      (states : List TaskState) (b : Bool)
      → ((b ≡ true) ↔ (
          map (λ (s : TaskState). s.revision) (root ∷ states) ≡ revisions_from 1 (root ∷ states)))
      → ((if b
            then from_error root (validate_task_state env.basis_digest root)
              ++ walk env root root states
            else chain_diagnostic root "/revision"
                "Agent Task revisions must be contiguous from one"
              ∷ [])
          ≡ [])
        ↔ IsHistory env (root ∷ states)
  ordered_case states true same =
      let valid = validate_task_state-IsWellFormed env.basis_digest root in
      (
        λ h.
            (let (a, b) =
                (append-empty (from_error root (validate_task_state env.basis_digest root)) _).0
                  h in
              (
                same.0 refl,
                valid.0 ((from_error-eq-nil root _).0 a),
                (walk-eq-nil root states).0 b,
              )),
        λ h.
            (append-empty (from_error root (validate_task_state env.basis_digest root)) _).1
              ((from_error-eq-nil root _).1 (valid.1 h.1), (walk-eq-nil root states).1 h.2),
      )
  ordered_case states false same = (λ h. cc, λ h. (let absurd = same.1 h.0 in cc))

-- The report on the ordered states of an Agent Task is empty exactly if they are its history: the
-- revisions count from one, each state is well formed, and each later state is a step from the one before
-- it that keeps the Task's fields, its lease and its staged result.
pub ordered_diagnostics-IsHistory :
    (env : Env) (states : List TaskState)
    → (ordered_diagnostics env states ≡ []) ↔ IsHistory env states
unfolding ordered_diagnostics
ordered_diagnostics-IsHistory env [] = (λ h. tt, λ h. refl)
ordered_diagnostics-IsHistory env (root ∷ states) = ordered_case env root states _ (
    list_beq_iff (map (λ (s : TaskState). s.revision) (root ∷ states))
      (revisions_from 1 (root ∷ states)))
