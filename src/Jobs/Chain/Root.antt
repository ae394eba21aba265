-- ===== src/Jobs/Chain/Root.antt =====
-- The report on the root of a job, and the tests on each state (pipeline_jobs.py).
use lit_grove.Prelude.{
  ◌≡◌, refl, ◌↔◌, none, [], append-empty, differs-false, not-bool_beq-false, string_eq, nat_eq,
  list_eq, option_eq,
}
use lit_grove.Diagnostics.{Result, ok, err, reports, reports-eq-nil}
use lit_grove.Jobs.State.{created, status_eq, predecessor_eq, authority_eq, JobState}
use lit_grove.Jobs.Rules.{is_terminal, validate_wait_state}
use lit_grove.Jobs.Chain.{
  Env, from_error, root_tests, receipt_tests, stable_tests, root_diagnostics,
}
use lit_grove.Jobs.Chain.History.{IsSameJob, IsRoot}

pub from_error-eq-nil :
    (state : JobState) (r : Result (Unit {0})) → (from_error state r ≡ []) ↔ (r ≡ ok tt)
from_error-eq-nil state (ok u) = (λ h. refl, λ h. refl)
from_error-eq-nil state (err d) = (λ h. cc, λ h. cc)

pub receipt_tests-lem :
    (state : JobState)
    → (reports (receipt_tests state) ≡ []) ↔ (state.terminal_receipt ≡ is_terminal state.status)
unfolding receipt_tests
receipt_tests-lem state = (
  λ h. (not-bool_beq-false _ _).0 ((reports-eq-nil (receipt_tests state)).0 h).0,
  λ h. (reports-eq-nil (receipt_tests state)).1 ((not-bool_beq-false _ _).1 h, tt),
)

pub stable_tests-lem :
    (root state : JobState) → (reports (stable_tests root state) ≡ []) ↔ IsSameJob root state
unfolding stable_tests
stable_tests-lem root state = (
  λ h.
      (let (a, (b, (c, (d, (e, (f, (g, (i, u)))))))) =
          (reports-eq-nil (stable_tests root state)).0 h in
        record {
          workspace_id = (differs-false _ _).0 a;
          requested_route = (differs-false _ _).0 b;
          requested_depth = (differs-false _ _).0 c;
          input_refs = (differs-false _ _).0 d;
          authority_snapshot = (differs-false _ _).0 e;
          idempotency_key = (differs-false _ _).0 f;
          created_at = (differs-false _ _).0 g;
          fixture_origin = (differs-false _ _).0 i;
        }),
  λ s. (reports-eq-nil (stable_tests root state)).1 (
    (differs-false _ _).1 s.workspace_id,
    (
      (differs-false _ _).1 s.requested_route,
      (
        (differs-false _ _).1 s.requested_depth,
        (
          (differs-false _ _).1 s.input_refs,
          (
            (differs-false _ _).1 s.authority_snapshot,
            (
              (differs-false _ _).1 s.idempotency_key,
              ((differs-false _ _).1 s.created_at, ((differs-false _ _).1 s.fixture_origin, tt)),
            ),
          ),
        ),
      ),
    ),
  ),
)

root_tests-lem :
    (root : JobState)
    → (reports (root_tests root) ≡ []) ↔ (
        (root.predecessor ≡ none)
        × (root.status ≡ created)
        × (root.retry_count ≡ 0)
        × (root.output_refs ≡ [])
        × (root.updated_at ≡ root.created_at))
unfolding root_tests
root_tests-lem root = (
  λ h.
      (let (a, (b, (c, (d, e)))) = (reports-eq-nil (root_tests root)).0 h in
        (
          (differs-false _ _).0 a,
          (differs-false _ _).0 b,
          (differs-false _ _).0 c,
          (differs-false _ _).0 d,
          (differs-false _ _).0 e.0,
        )),
  λ h. (reports-eq-nil (root_tests root)).1 (
    (differs-false _ _).1 h.0,
    (
      (differs-false _ _).1 h.1,
      ((differs-false _ _).1 h.2, ((differs-false _ _).1 h.3, ((differs-false _ _).1 h.4, tt))),
    ),
  ),
)

pub root_diagnostics-eq-nil :
    (env : Env) (root : JobState) → (root_diagnostics env root ≡ []) ↔ IsRoot root
unfolding root_diagnostics
root_diagnostics-eq-nil env root = (
  λ h.
      (let (tests, rest) = (append-empty (reports (root_tests root)) _).0 h in
        let (wait, receipt) =
          (append-empty
              (from_error root
                (validate_wait_state root.status root.wait_reason root.recovery_action))
              _).0
            rest in
        let t = (root_tests-lem root).0 tests in
        record {
          predecessor = t.0;
          status = t.1;
          retry_count = t.2;
          output_refs = t.3;
          updated_at = t.4;
          wait = (from_error-eq-nil root _).0 wait;
          receipt = (receipt_tests-lem root).0 receipt;
        }),
  λ r. (append-empty (reports (root_tests root)) _).1 (
    (root_tests-lem root).1 (r.predecessor, r.status, r.retry_count, r.output_refs, r.updated_at),
    (append-empty
          (from_error root (validate_wait_state root.status root.wait_reason root.recovery_action))
          _).1
        ((from_error-eq-nil root _).1 r.wait, (receipt_tests-lem root).1 r.receipt),
  ),
)
