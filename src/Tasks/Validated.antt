-- ===== src/Tasks/Validated.antt =====
-- `validate_task_state` (agent_tasks.py) accepts exactly the well-formed states.
use lit_grove.Prelude.{
  String, ◌≡◌, ◌↔◌, refl, Bool, true, false, differs-false, not-bool_beq-false, Option, none, some,
  List, [], ◌∷◌, All, All-append, contains, ◌==◌, string_eq, nat_eq, option_eq, list_eq, arith,
  if◌then◌else◌, option_beq_iff, nat_beq_iff,
}
use lit_grove.Diagnostics.{Diagnostic, ok, raise_first-eq-ok}
use lit_grove.Tasks.Kinds.{TaskKindDefinition}
use lit_grove.Tasks.State.{
  Status, created, leased, submitted, revision_requested, superseded, rejected, approved, cancelled,
  status_eq, StagedResult, Decision, TaskState,
}
use lit_grove.Tasks.Rules.{
  registry_tests, definition_of, root_tests, expected_reason, decision_tests, decided_tests,
  superseded_tests, status_tests, result_tests, basis_tests, state_tests, validate_task_state,
}
use lit_grove.Tasks.WellFormed.{
  Decides, IsDecided, HasResult, FitsStatus, IsUnstarted, IsRegistered, BelongsTo, IsWellFormed,
}

abbrev Quiet : List (Bool × Diagnostic) → Type 0
Quiet tests = All (λ (t : Bool × Diagnostic). t.0 ≡ false) tests

Quiet-decision_tests :
    (status : Status) (kind : String) (d : Decision)
    → contains (revision_requested ∷ rejected ∷ approved ∷ []) status ≡ true
    → Quiet (decision_tests status kind (some d)) ↔ Decides status kind d
unfolding decision_tests
Quiet-decision_tests approved kind d m = (
  λ h. ground (
    arith,
    option_beq_iff d.reason_code (some (expected_reason kind)),
    status_eq.beq_iff d.action approved,
  ),
  λ h. ground (
    arith,
    option_beq_iff d.reason_code (some (expected_reason kind)),
    status_eq.beq_iff d.action approved,
  ),
)
Quiet-decision_tests rejected kind d m = (
  λ h. ground (
    arith,
    option_beq_iff d.reason_code (some "user_rejected"),
    status_eq.beq_iff d.action rejected,
  ),
  λ h. ground (
    arith,
    option_beq_iff d.reason_code (some "user_rejected"),
    status_eq.beq_iff d.action rejected,
  ),
)
Quiet-decision_tests revision_requested kind d m = (
  λ h. ground (arith, status_eq.beq_iff d.action revision_requested),
  λ h. ground (arith, status_eq.beq_iff d.action revision_requested),
)
Quiet-decision_tests superseded kind d m = ground arith
Quiet-decision_tests cancelled kind d m = ground arith
Quiet-decision_tests created kind d m = ground arith
Quiet-decision_tests leased kind d m = ground arith
Quiet-decision_tests submitted kind d m = ground arith

Quiet-decided_tests :
    (status : Status) (s : TaskState) (o : Option Decision)
    → contains (revision_requested ∷ rejected ∷ approved ∷ []) status ≡ true
    → s.decision ≡ o
    → Quiet (decided_tests status s) ↔ HasResult status s
unfolding decided_tests
Quiet-decided_tests status s none m e = rw e (λ h. ground arith, λ h. absurd h.2)
Quiet-decided_tests status s (some d) m e =
    let again = Quiet-decision_tests status s.task_kind d m in
    rw e (λ h. (ground arith, ground arith, again.0 h.1), λ h. (ground arith, again.1 h.2))

Quiet-superseded_tests :
    (s : TaskState) (o : Option Decision)
    → Quiet (superseded_tests o) ↔ IsDecided superseded s.task_kind o
unfolding superseded_tests
Quiet-superseded_tests s none = (λ h. ground arith, λ h. absurd h)
Quiet-superseded_tests s (some d) = (
  λ h. ground (
    arith,
    option_beq_iff d.reason_code (some "input_refreshed"),
    status_eq.beq_iff d.action superseded,
  ),
  λ h. ground (
    arith,
    option_beq_iff d.reason_code (some "input_refreshed"),
    status_eq.beq_iff d.action superseded,
  ),
)

Quiet-status_tests :
    (status : Status) (s : TaskState) → Quiet (status_tests status s) ↔ FitsStatus status s
unfolding status_tests
Quiet-status_tests leased s = (λ h. ground arith, λ h. ground arith)
Quiet-status_tests submitted s = (λ h. ground arith, λ h. ground arith)
Quiet-status_tests revision_requested s =
    Quiet-decided_tests revision_requested s s.decision refl refl
Quiet-status_tests rejected s = Quiet-decided_tests rejected s s.decision refl refl
Quiet-status_tests approved s = Quiet-decided_tests approved s s.decision refl refl
Quiet-status_tests superseded s = Quiet-superseded_tests s s.decision
Quiet-status_tests created s = (λ h. tt, λ h. tt)
Quiet-status_tests cancelled s = (λ h. tt, λ h. tt)

Quiet-root_tests : (s : TaskState) → Quiet (root_tests s) ↔ IsUnstarted s
unfolding root_tests
Quiet-root_tests s = (
  λ h. ground (arith, status_eq.beq_iff s.status created),
  λ h. ground (arith, status_eq.beq_iff s.status created),
)

Quiet-registry_tests :
    (o : Option TaskKindDefinition) (s : TaskState) → Quiet (registry_tests o s) ↔ IsRegistered o s
unfolding registry_tests
Quiet-registry_tests none s = (λ h. ground arith, λ h. absurd h)
Quiet-registry_tests (some d) s = (
  λ h. ground (arith, string_eq.beq_iff s.result_contract d.result_contract),
  λ h. ground (arith, string_eq.beq_iff s.result_contract d.result_contract),
)

Quiet-result_tests :
    (o : Option StagedResult) (s : TaskState) → Quiet (result_tests o s) ↔ BelongsTo o s
unfolding result_tests
Quiet-result_tests none s = (λ h. tt, λ h. tt)
Quiet-result_tests (some r) s = (
  λ h. ground (
    arith,
    string_eq.beq_iff r.task_id s.task_id,
    string_eq.beq_iff r.input_basis_digest s.input_basis_digest,
  ),
  λ h. ground (
    arith,
    string_eq.beq_iff r.task_id s.task_id,
    string_eq.beq_iff r.input_basis_digest s.input_basis_digest,
  ),
)

Quiet-root_part :
    (s : TaskState) (b : Bool)
    → ((b ≡ true) ↔ (s.revision ≡ 1))
    → Quiet (if b then root_tests s else []) ↔ (s.revision ≡ 1 → IsUnstarted s)
Quiet-root_part s true e =
    (λ h _. (Quiet-root_tests s).0 h, λ h. (Quiet-root_tests s).1 (h (e.0 refl)))
Quiet-root_part s false e = (λ h k. (let absurd = e.1 k in cc), λ h. tt)

-- `validate_task_state` accepts a state exactly if its digest is that of its input basis, its content
-- classes are sorted and fit its registered kind, the receipt flag says whether the status is terminal, a
-- first revision is new and unstarted, the lease, the result and the decision are those that the status
-- asks for, and a staged result is the Task's own.
pub validate_task_state-IsWellFormed :
    (basis_digest : String → String) (s : TaskState)
    → (validate_task_state basis_digest s ≡ ok tt) ↔ IsWellFormed basis_digest s
unfolding validate_task_state state_tests basis_tests
validate_task_state-IsWellFormed basis_digest s =
    let tests = raise_first-eq-ok (state_tests basis_digest s) in
    let registry = Quiet-registry_tests (definition_of s.privacy_registry_version s.task_kind) s in
    let root = Quiet-root_part s (s.revision == 1) (nat_beq_iff s.revision 1) in
    let status = Quiet-status_tests s.status s in
    let result = Quiet-result_tests s.staged_result s in
    (
      λ h.
          (let (b, (c, rest)) = tests.0 h in
            let (r, (t, more)) = (All-append _ (registry_tests _ s) _).0 rest in
            let (u, last) =
              (All-append _ (if s.revision == 1 then root_tests s else []) _).0 more in
            let (v, w) = (All-append _ (status_tests s.status s) _).0 last in
            record {
              basis = (differs-false _ _).0 b;
              sorted = (differs-false _ _).0 c;
              registered = registry.0 r;
              receipt = (not-bool_beq-false _ _).0 t;
              root = root.0 u;
              fits = status.0 v;
              result = result.0 w;
            }),
      λ f. tests.1 (
        (differs-false _ _).1 f.basis,
        (
          (differs-false _ _).1 f.sorted,
          (All-append _ (registry_tests _ s) _).1 (
            registry.1 f.registered,
            (
              (not-bool_beq-false _ _).1 f.receipt,
              (All-append _ (if s.revision == 1 then root_tests s else []) _).1 (
                root.1 f.root,
                (All-append _ (status_tests s.status s) _).1 (status.1 f.fits, result.1 f.result),
              ),
            ),
          ),
        ),
      ),
    )
