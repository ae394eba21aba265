-- ===== src/Transactions/Manager/Failing.antt =====
-- `_handle_failure` leaves the canonical files at a stage of the transaction.
use lit_grove.Prelude.{
  String, ◌≡◌, ◌≢◌, refl, sym, ap, ◌∙◌, Bool, true, false, Option, none, some, ◌==◌, option_eq,
  subst, beq-false, string_eq,
}
use lit_grove.Transactions.State.{
  Bytes, Phase, event_recorded, complete, Outcome, failure, Journal, Canonical,
}
use lit_grove.Transactions.Rules.{
  Triple, Triple-bind, Triple-weaken, Triple-except_exception, call-IsQuiet,
}
use lit_grove.Transactions.Stages
use lit_grove.Transactions.Stages.{
  Stage, marked, IsAt, IsMarked, AtSome, in_body, InBody, Reached, in_some,
}
use lit_grove.Transactions.Manager.{
  Env, phase_allows, file_sha256, write_failure, raise_incomplete, failure_branch, digest,
  handle_by_digest, handle_failure,
}
use lit_grove.Transactions.Manager.Steps.{Triple-advance, Triple-log}

-- The transaction that began in `c0` with the journal `base`, and replaces the target by `new`.
module _ (env : Env) (base : Journal) (c0 : Canonical) (new : Bytes) where
  -- `write_failure` from the stage `prepared_old`.
  Triple-write_failure :
      (p : Phase) (r : Option Outcome) (c : Canonical) (j : Journal)
      → Reached base c0 new Stage.prepared_old p r c j
      → Triple (write_failure env) c j (λ _. AtSome base c0 new) (AtSome base c0 new)
  unfolding write_failure phase_allows
  Triple-write_failure p r c j h =
      Triple-bind {Q = λ _. Reached base c0 new Stage.failure_logged p r}
        (Triple-log env base c0 new Stage.prepared_old Stage.failure_logged failure p r h
          (λ v. refl) refl refl refl (in_some base c0 new _) (in_some base c0 new _))
        (λ _ c1 j1 h1.
          Triple-bind
            {Q = λ _. Reached base c0 new Stage.failure_recorded event_recorded (some failure)}
            (Triple-advance env base c0 new Stage.failure_logged Stage.failure_recorded
              event_recorded (some failure) p r h1 refl (λ v. refl) refl refl
              (in_some base c0 new _) (in_some base c0 new _))
            (λ _ c2 j2 h2.
              Triple-weaken
                (Triple-advance env base c0 new Stage.failure_recorded Stage.failure_done complete
                  none event_recorded (some failure) h2 refl (λ v. refl) refl refl
                  (in_some base c0 new _) (in_some base c0 new _))
                (λ _ c3 j3 h3. (Stage.failure_done, h3.0)) (λ c3 j3 x. x)))

  Triple-raise_incomplete :
      (m : String) (c : Canonical) (j : Journal)
      → AtSome base c0 new c j
      → Triple (raise_incomplete env m) c j (λ _. AtSome base c0 new) (AtSome base c0 new)
  unfolding raise_incomplete
  Triple-raise_incomplete m c j x = record { at = λ r. x }

  branch_before :
      (a b : Bool) (p : Phase) (r : Option Outcome) (c : Canonical) (j : Journal)
      → a ≡ true
      → Reached base c0 new Stage.prepared_old p r c j
      → Triple (failure_branch env a b) c j (λ _. AtSome base c0 new) (AtSome base c0 new)
  unfolding failure_branch
  branch_before true b p r c j e h =
      Triple-except_exception {h = λ _. raise_incomplete env "failure event could not be recorded"}
        (Triple-write_failure p r c j h)
        (λ _ c' j' x. Triple-raise_incomplete "failure event could not be recorded" c' j' x)
        (λ c' j' x. x)
  branch_before false b p r c j e h = cc

  branch_after :
      (a b : Bool) (c : Canonical) (j : Journal)
      → a ≡ false
      → b ≡ true
      → AtSome base c0 new c j
      → Triple (failure_branch env a b) c j (λ _. AtSome base c0 new) (AtSome base c0 new)
  unfolding failure_branch
  branch_after false true c j e f x =
      Triple-raise_incomplete "target was replaced but process event is incomplete" c j x
  branch_after true true c j e f x = cc
  branch_after a false c j e f x = cc

  -- The digests of the target before and after the write differ.
  module _ (before : base.before_sha256 ≡ file_sha256 env base.target_relative_path c0)
      (after : base.after_sha256 ≡ env.sha256 new)
      (changes : base.before_sha256 ≢ some base.after_sha256) where
    digest_old :
        (s : Stage) (c : Canonical)
        → IsAt base c0 new s c
        → Stages.is_replaced s ≡ false
        → file_sha256 env base.target_relative_path c ≡ base.before_sha256
    unfolding file_sha256
    digest_old s c at e =
        ap (digest env)
          (at.file ∙ ap (Stages.stage_file (c0.files base.target_relative_path) new) e)
        ∙ sym before

    digest_new :
        (s : Stage) (c : Canonical)
        → IsAt base c0 new s c
        → Stages.is_replaced s ≡ true
        → file_sha256 env base.target_relative_path c ≡ some base.after_sha256
    unfolding file_sha256
    digest_new s c at e =
        ap (digest env)
          (at.file ∙ ap (Stages.stage_file (c0.files base.target_relative_path) new) e)
        ∙ ap some (sym after)

    handle_old :
        (p : Phase) (r : Option Outcome) (u : String) (c : Canonical)
        → IsAt base c0 new Stage.prepared_old c
        → Triple
            (handle_by_digest env base.target_relative_path)
            c
            (marked base p r u)
            (λ _. AtSome base c0 new)
            (AtSome base c0 new)
    unfolding handle_by_digest
    handle_old p r u c at = record {
      at = λ q.
          (branch_before _ (file_sha256 env base.target_relative_path c == some base.after_sha256) p
              r c (marked base p r u)
              ((option_eq.beq_iff _ _).1 (digest_old Stage.prepared_old c at refl))
              (at, (u, refl))).at
            q;
    }

    handle_new :
        (s : Stage) (p : Phase) (r : Option Outcome) (u : String) (c : Canonical)
        → IsAt base c0 new s c
        → Stages.is_replaced s ≡ true
        → Triple
            (handle_by_digest env base.target_relative_path)
            c
            (marked base p r u)
            (λ _. AtSome base c0 new)
            (AtSome base c0 new)
    unfolding handle_by_digest
    handle_new s p r u c at e = record {
      at = λ q.
          (branch_after (file_sha256 env base.target_relative_path c == base.before_sha256)
              (file_sha256 env base.target_relative_path c == some base.after_sha256) c
              (marked base p r u) (beq-false _ _ (λ h. changes (sym h ∙ digest_new s c at e)))
              ((option_eq.beq_iff _ _).1 (digest_new s c at e)) (s, at)).at
            q;
    }

    handle_marked :
        (s : Stage) (p : Phase) (r : Option Outcome) (u : String) (c : Canonical)
        → IsAt base c0 new s c
        → in_body s ≡ true
        → Triple
            (handle_by_digest env base.target_relative_path)
            c
            (marked base p r u)
            (λ _. AtSome base c0 new)
            (AtSome base c0 new)
    handle_marked Stage.untouched p r u c at b = cc
    handle_marked Stage.failure_logged p r u c at b = cc
    handle_marked Stage.failure_recorded p r u c at b = cc
    handle_marked Stage.failure_done p r u c at b = cc
    handle_marked Stage.prepared_old p r u c at b = handle_old p r u c at
    handle_marked s p r u c at b = handle_new s p r u c at refl

    Triple-handle_by_digest :
        (c : Canonical) (j : Journal)
        → InBody base c0 new c j
        → Triple
            (handle_by_digest env base.target_relative_path)
            c
            j
            (λ _. AtSome base c0 new)
            (AtSome base c0 new)
    Triple-handle_by_digest c j (s, at, b, (p, r, u, e)) =
        subst
          (λ k.
            Triple (handle_by_digest env base.target_relative_path) c k (λ _. AtSome base c0 new)
              (AtSome base c0 new))
          (sym e) (handle_marked s p r u c at b)

    pub Triple-handle_failure :
        (c : Canonical) (j : Journal)
        → InBody base c0 new c j
        → Triple
            (handle_failure env base.target_relative_path)
            c
            j
            (λ _. AtSome base c0 new)
            (AtSome base c0 new)
    unfolding handle_failure
    Triple-handle_failure c j b =
        Triple-bind {Q = λ _. InBody base c0 new}
          {f = λ _. handle_by_digest env base.target_relative_path}
          (call-IsQuiet.triple {P = λ _. InBody base c0 new} {X = AtSome base c0 new} c j b
            (b.0, b.1))
          (λ _ c' j' h. Triple-handle_by_digest c' j' h)
