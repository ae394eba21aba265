-- ===== src/Jobs/Chain/Report.antt =====
-- The report on one job is empty exactly if its states are its history.
use lit_grove.Prelude.{
  is_subset, ◌≤◌, ◌≡◌, refl, ◌↔◌, true, false, some, List, [], ◌∷◌, ◌++◌, map, append-empty,
  list_beq_iff, if◌then◌else◌, ◌==◌, differs-false, ltb-false, not-false, string_eq, nat_eq,
  list_eq, option_eq,
}
use lit_grove.Diagnostics.{ok, reports, reports-eq-nil, seq-eq-ok}
use lit_grove.Jobs.State.{status_eq, predecessor_eq, authority_eq, JobState}
use lit_grove.Jobs.Rules.{
  validate_wait_state, validate_transition, validate_running_progress, progress,
}
use lit_grove.Jobs.Chain.{
  Env, from_error, predecessor_of, receipt_tests, stable_tests, step_diagnostics, root_diagnostics,
  rules, predecessor_tests, output_tests, monotone_tests, walk, ordered_diagnostics, revisions_from,
  chain_diagnostic,
}
use lit_grove.Jobs.Chain.History.{IsStep, Follows, last, next, IsHistory}
use lit_grove.Jobs.Chain.Root.{
  from_error-eq-nil, receipt_tests-lem, stable_tests-lem, root_diagnostics-eq-nil,
}

module _ (env : Env) (root : JobState) where
  rules-lem :
      (previous state : JobState)
      → (rules env previous state ≡ ok tt) ↔ (
          (validate_transition previous.status state.status ≡ ok tt)
          × (validate_wait_state state.status state.wait_reason state.recovery_action ≡ ok tt)
          × (validate_running_progress (progress previous) (progress state) ≡ ok tt))
  rules-lem previous state = (
    λ h.
        (let (a, rest) = (seq-eq-ok (validate_transition previous.status state.status) _).0 h in
          let (b, c) =
            (seq-eq-ok (validate_wait_state state.status state.wait_reason state.recovery_action)
                _).0
              rest in
          (a, b, c)),
    λ h. (seq-eq-ok (validate_transition previous.status state.status) _).1 (
      h.0,
      (seq-eq-ok (validate_wait_state state.status state.wait_reason state.recovery_action) _).1
          (h.1, h.2),
    ),
  )

  predecessor_tests-lem :
      (previous state : JobState)
      → (reports (predecessor_tests env previous state) ≡ [])
        ↔ (state.predecessor ≡ some (predecessor_of env previous))
  unfolding predecessor_tests
  predecessor_tests-lem previous state = (
    λ h. (differs-false _ _).0 ((reports-eq-nil (predecessor_tests env previous state)).0 h).0,
    λ h. (reports-eq-nil (predecessor_tests env previous state)).1 ((differs-false _ _).1 h, tt),
  )

  output_tests-lem :
      (previous state : JobState)
      → (reports (output_tests env previous state) ≡ [])
        ↔ (is_subset previous.output_refs state.output_refs ≡ true)
  unfolding output_tests
  output_tests-lem previous state = (
    λ h. (not-false _).0 ((reports-eq-nil (output_tests env previous state)).0 h).0,
    λ h. (reports-eq-nil (output_tests env previous state)).1 ((not-false _).1 h, tt),
  )

  monotone_tests-lem :
      (previous state : JobState)
      → (reports (monotone_tests env previous state) ≡ []) ↔ (
          (previous.retry_count ≤ state.retry_count)
          × (env.parse_timestamp previous.updated_at ≤ env.parse_timestamp state.updated_at))
  unfolding monotone_tests
  monotone_tests-lem previous state = (
    λ h.
        (let (a, b) = (reports-eq-nil (monotone_tests env previous state)).0 h in
          ((ltb-false _ _).0 a, (ltb-false _ _).0 b.0)),
    λ h.
        (reports-eq-nil (monotone_tests env previous state)).1
          ((ltb-false _ _).1 h.0, ((ltb-false _ _).1 h.1, tt)),
  )

  step_diagnostics-eq-nil :
      (previous state : JobState)
      → (step_diagnostics env root previous state ≡ []) ↔ IsStep env root previous state
  unfolding step_diagnostics
  step_diagnostics-eq-nil previous state = (
    λ h.
        (let (receipt, h1) = (append-empty (reports (receipt_tests state)) _).0 h in
          let (predecessor, h2) =
            (append-empty (reports (predecessor_tests env previous state)) _).0 h1 in
          let (same, h3) = (append-empty (reports (stable_tests root state)) _).0 h2 in
          let (outputs, h4) = (append-empty (reports (output_tests env previous state)) _).0 h3 in
          let (checks, last_two) =
            (append-empty (from_error state (rules env previous state)) _).0 h4 in
          let r = (rules-lem previous state).0 ((from_error-eq-nil state _).0 checks) in
          let m = (monotone_tests-lem previous state).0 last_two in
          record {
            receipt = (receipt_tests-lem state).0 receipt;
            predecessor = (predecessor_tests-lem previous state).0 predecessor;
            same_job = (stable_tests-lem root state).0 same;
            outputs = (output_tests-lem previous state).0 outputs;
            transition = r.0;
            wait = r.1;
            running = r.2;
            retries = m.0;
            time = m.1;
          }),
    λ s. (append-empty (reports (receipt_tests state)) _).1 (
      (receipt_tests-lem state).1 s.receipt,
      (append-empty (reports (predecessor_tests env previous state)) _).1 (
        (predecessor_tests-lem previous state).1 s.predecessor,
        (append-empty (reports (stable_tests root state)) _).1 (
          (stable_tests-lem root state).1 s.same_job,
          (append-empty (reports (output_tests env previous state)) _).1 (
            (output_tests-lem previous state).1 s.outputs,
            (append-empty (from_error state (rules env previous state)) _).1 (
              (from_error-eq-nil state _).1
                  ((rules-lem previous state).1 (s.transition, s.wait, s.running)),
              (monotone_tests-lem previous state).1 (s.retries, s.time),
            ),
          ),
        ),
      ),
    ),
  )

  walk-eq-nil :
      (previous : JobState) (states : List JobState)
      → (walk env root previous states ≡ []) ↔ Follows env root previous states
  unfolding walk
  walk-eq-nil previous [] = (λ h. last, λ h. refl)
  walk-eq-nil previous (state ∷ states) = (
    λ h.
        (let (step, rest) = (append-empty (step_diagnostics env root previous state) _).0 h in
          next ((step_diagnostics-eq-nil previous state).0 step)
            ((walk-eq-nil state states).0 rest)),
    λ h. elim h [
      | next step rest ↦
          (append-empty (step_diagnostics env root previous state) _).1
            ((step_diagnostics-eq-nil previous state).1 step, (walk-eq-nil state states).1 rest)
    ],
  )

-- The report on the ordered states of a job is empty exactly if they are its history: the revisions
-- count from one, the first state is a root, and each later state is a step from the one before it.
pub ordered_diagnostics-eq-nil :
    (env : Env) (states : List JobState)
    → (ordered_diagnostics env states ≡ []) ↔ IsHistory env states
unfolding ordered_diagnostics
ordered_diagnostics-eq-nil env [] = (λ h. tt, λ h. refl)
ordered_diagnostics-eq-nil env (root ∷ states) =
    (elim (map (λ (s : JobState). s.revision) (root ∷ states) == revisions_from 1 (root ∷ states))
        as (λ b.
          ((b ≡ true) ↔ (
            map (λ (s : JobState). s.revision) (root ∷ states) ≡ revisions_from 1 (root ∷ states)))
          → ((if b
                then root_diagnostics env root ++ walk env root root states
                else chain_diagnostic root "/revision"
                    "Pipeline Job revisions must be unique and contiguous from one"
                  ∷ [])
              ≡ [])
            ↔ IsHistory env (root ∷ states)) [
              | true ↦ λ same. (
                λ h.
                    (let (a, b) = (append-empty (root_diagnostics env root) _).0 h in
                      (
                        same.0 refl,
                        (root_diagnostics-eq-nil env root).0 a,
                        (walk-eq-nil env root root states).0 b,
                      )),
                λ h. (append-empty (root_diagnostics env root) _).1 (
                  (root_diagnostics-eq-nil env root).1 h.1,
                  (walk-eq-nil env root root states).1 h.2,
                ),
              )
              | false ↦ λ same. (λ h. cc, λ h. (let absurd = same.1 h.0 in cc))
            ])
      (list_beq_iff (map (λ (s : JobState). s.revision) (root ∷ states))
        (revisions_from 1 (root ∷ states)))
