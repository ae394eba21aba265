-- ===== src/Transactions/Recovery/Branches.antt =====
-- The branch that `TransactionManager.recover` takes at each stage of a transaction.
use lit_grove.Prelude.{
  String, ◌≡◌, ◌≢◌, refl, sym, ap, ◌∙◌, beq-false, Bool, false, Option, none, some, ◌==◌, string_eq,
  option_eq, beq_refl, if◌then◌else◌,
}
use lit_grove.Transactions.State.{success, failure, Journal, Event, event_eq}
use lit_grove.Transactions.Stages.{
  Stage, untouched, prepared_old, prepared_new, replaced, success_logged, success_recorded,
  success_done, failure_logged, failure_recorded, failure_done, unresolved, stage_journal,
  stage_event, logged, is_replaced,
}
use lit_grove.Transactions.Manager.{journal_event}
use lit_grove.Transactions.Recovery.{
  Branch, skip, report_manual, finish, append_missing, append_missing_success_event,
  append_missing_failure_event, branch, of_incomplete, of_digest, of_complete, recorded_event,
}

-- The stage that recovery leads to.
abbrev pub settled : Stage → Stage
settled untouched = Stage.untouched
settled prepared_old = Stage.failure_done
settled failure_logged = Stage.failure_done
settled failure_recorded = Stage.failure_done
settled failure_done = Stage.failure_done
settled unresolved = Stage.unresolved
settled _ = Stage.success_done

abbrev pub stage_branch : Stage → Branch
stage_branch untouched = skip
stage_branch prepared_old = append_missing failure append_missing_failure_event
stage_branch prepared_new = append_missing success append_missing_success_event
stage_branch replaced = append_missing success append_missing_success_event
stage_branch success_logged = finish success
stage_branch success_recorded = finish success
stage_branch success_done = skip
stage_branch failure_logged = finish failure
stage_branch failure_recorded = finish failure
stage_branch failure_done = skip
stage_branch unresolved = report_manual

abbrev pub stage_digest : Journal → Bool → Option String
stage_digest base b = if b then some base.after_sha256 else base.before_sha256

-- The branch for the journal on disk, if there is one.
abbrev branch_for : Option Journal → Option Event → Option String → Branch
branch_for none existing current = skip
branch_for (some j) existing current = branch j existing current

module _ (base : Journal) (changes : base.before_sha256 ≢ some base.after_sha256) where
  old_is_not_new : (base.before_sha256 == some base.after_sha256) ≡ false
  old_is_not_new = beq-false base.before_sha256 (some base.after_sha256) changes

  new_is_not_old : (some base.after_sha256 == base.before_sha256) ≡ false
  new_is_not_old = beq-false (some base.after_sha256) base.before_sha256 (λ e. changes (sym e))

  branch_for_stage :
      (u : String) (s : Stage)
      → branch_for
          (stage_journal base u s)
          (stage_event base (logged s))
          (stage_digest base (is_replaced s))
        ≡ stage_branch s
  unfolding branch of_incomplete of_digest of_complete recorded_event journal_event
  branch_for_stage u untouched = refl
  branch_for_stage u prepared_old = rw (old_is_not_new, beq_refl base.before_sha256)
  branch_for_stage u prepared_new = rw (new_is_not_old, beq_refl base.after_sha256)
  branch_for_stage u replaced = rw (new_is_not_old, beq_refl base.after_sha256)
  branch_for_stage u success_logged =
      rw (new_is_not_old, beq_refl base.after_sha256, beq_refl (journal_event base success))
  branch_for_stage u success_recorded =
      rw (new_is_not_old, beq_refl base.after_sha256, beq_refl (journal_event base success))
  branch_for_stage u success_done = rw (beq_refl (journal_event base success))
  branch_for_stage u failure_logged =
      rw (old_is_not_new, beq_refl base.before_sha256, beq_refl (journal_event base failure))
  branch_for_stage u failure_recorded =
      rw (old_is_not_new, beq_refl base.before_sha256, beq_refl (journal_event base failure))
  branch_for_stage u failure_done = rw (beq_refl (journal_event base failure))
  branch_for_stage u unresolved = refl

  pub branch_at_stage :
      (u : String) (s : Stage) (j : Journal)
      → stage_journal base u s ≡ some j
      → branch j (stage_event base (logged s)) (stage_digest base (is_replaced s)) ≡ stage_branch s
  branch_at_stage u s j e =
      ap (λ o. branch_for o (stage_event base (logged s)) (stage_digest base (is_replaced s)))
        (sym e)
      ∙ branch_for_stage u s
