-- ===== src/Tasks/Kept.antt =====
-- The fields that stay as they are over the states of a Task (agent_tasks.py).
use lit_grove.Prelude.{
  ◌≡◌, ◌↔◌, ◌⊎◌, inl, inr, refl, false, not, ◌&&◌, Option, none, some, is_some, [], ◌==◌,
  differs-false, string_eq, nat_eq, list_eq, option_eq, Eq,
}
use lit_grove.Diagnostics.{Result, ok, err, reports, reports-eq-nil}
use lit_grove.Tasks.State.{predecessor_eq, lease_eq, staged_eq, lineage_eq, TaskState}
use lit_grove.Tasks.Chain.{from_error, stable_tests, kept_tests}
use lit_grove.Tasks.History.{IsSameTask}

pub from_error-eq-nil :
    (s : TaskState) (r : Result (Unit {0})) → (from_error s r ≡ []) ↔ (r ≡ ok tt)
from_error-eq-nil s (ok u) = (λ h. refl, λ h. refl)
from_error-eq-nil s (err d) = (λ h. cc, λ h. cc)

pub stable_tests_lem :
    (root s : TaskState) → (reports (stable_tests root s) ≡ []) ↔ IsSameTask root s
unfolding stable_tests
stable_tests_lem root s = (
  λ h.
      (let (a, (b, (c, (d, (e, (f, (g, (i, (j, (k, (l, (m, (n, (o, u)))))))))))))) =
          (reports-eq-nil (stable_tests root s)).0 h in
        record {
          schema_version = (differs-false _ _).0 a;
          task_id = (differs-false _ _).0 b;
          workspace_id = (differs-false _ _).0 c;
          task_kind = (differs-false _ _).0 d;
          result_contract = (differs-false _ _).0 e;
          privacy_registry_version = (differs-false _ _).0 f;
          executor_id = (differs-false _ _).0 g;
          execution_scope = (differs-false _ _).0 i;
          effective_content_classes = (differs-false _ _).0 j;
          input_basis = (differs-false _ _).0 k;
          input_basis_digest = (differs-false _ _).0 l;
          idempotency_key = (differs-false _ _).0 m;
          lineage = (differs-false _ _).0 n;
          created_at = (differs-false _ _).0 o;
        }),
  λ k. (reports-eq-nil (stable_tests root s)).1 (
    (differs-false _ _).1 k.schema_version,
    (
      (differs-false _ _).1 k.task_id,
      (
        (differs-false _ _).1 k.workspace_id,
        (
          (differs-false _ _).1 k.task_kind,
          (
            (differs-false _ _).1 k.result_contract,
            (
              (differs-false _ _).1 k.privacy_registry_version,
              (
                (differs-false _ _).1 k.executor_id,
                (
                  (differs-false _ _).1 k.execution_scope,
                  (
                    (differs-false _ _).1 k.effective_content_classes,
                    (
                      (differs-false _ _).1 k.input_basis,
                      (
                        (differs-false _ _).1 k.input_basis_digest,
                        (
                          (differs-false _ _).1 k.idempotency_key,
                          (
                            (differs-false _ _).1 k.lineage,
                            ((differs-false _ _).1 k.created_at, tt),
                          ),
                        ),
                      ),
                    ),
                  ),
                ),
              ),
            ),
          ),
        ),
      ),
    ),
  ),
)

-- A value that is there stays as it is.
kept_value :
    {A : Type 0} ⦃e : Eq A⦄ (previous now : Option A)
    → ((is_some previous && not (now == previous)) ≡ false) ↔ ((previous ≡ none) ⊎ (now ≡ previous))
kept_value none now = (λ h. inl refl, λ h. refl)
kept_value (some a) now = (
  λ h. inr ((differs-false now (some a)).0 h),
  λ h. elim h [ inl n ↦ cc | inr k ↦ (differs-false now (some a)).1 k ],
)

pub kept_tests_lem :
    (previous s : TaskState)
    → (reports (kept_tests previous s) ≡ []) ↔ (
        ((previous.lease ≡ none) ⊎ (s.lease ≡ previous.lease))
        × ((previous.staged_result ≡ none) ⊎ (s.staged_result ≡ previous.staged_result)))
unfolding kept_tests
kept_tests_lem previous s = (
  λ h.
      (let (a, (b, u)) = (reports-eq-nil (kept_tests previous s)).0 h in
        ((kept_value _ _).0 a, (kept_value _ _).0 b)),
  λ h.
      (reports-eq-nil (kept_tests previous s)).1
        ((kept_value _ _).1 h.0, ((kept_value _ _).1 h.1, tt)),
)
