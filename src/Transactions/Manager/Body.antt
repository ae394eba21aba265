-- ===== src/Transactions/Manager/Body.antt =====
-- However the `try` block of `promote_bytes` ends, the canonical files are at one of its stages.
use lit_grove.Prelude.{
  ℕ, String, ◌≡◌, ◌≢◌, refl, Bool, true, false, Option, none, some, option_eq, string_eq,
}
use lit_grove.Transactions.State.{
  Phase, prepared, target_replaced, event_recorded, complete, Outcome, success, Journal, Canonical,
  of_target, put_file,
}
use lit_grove.Transactions.Action.{Action, ◌>>◌, call, pure, replace_temp}
use lit_grove.Transactions.Rules.{
  Triple, Triple-bind, Triple-except_exception, call-IsQuiet, write_fsynced_temp-IsQuiet,
  Triple-replace_temp, Triple-pure,
}
use lit_grove.Transactions.Stages.{
  Stage, IsAt, AtSome, in_body, InBody, Reached, in_body_at, put_file-IsAt,
}
use lit_grove.Transactions.Manager.{
  Env, Request, TransactionResult, phase_allows, file_sha256, raise_incomplete, set_temporary,
  new_journal, post_replace_validation, promote_body, handle_unless, set_state, append_result_event,
}
use lit_grove.Transactions.Manager.Steps.{Triple-advance, Triple-log}
use lit_grove.Transactions.Manager.Failing.{Triple-handle_failure}
use lit_grove.Transactions.Manager.Quiet.{set_temporary-IsQuiet, Triple-quiet}

module _ (env : Env) (req : Request) (c0 : Canonical) (before : Option String) (ticks : ℕ) where
  abbrev pub base : Journal
  base = new_journal env req before ticks

  Reached-InBody :
      (s : Stage) (p : Phase) (r : Option Outcome)
      → in_body s ≡ true
      → (c : Canonical) (j : Journal) → Reached base c0 req.content s p r c j
      → InBody base c0 req.content c j
  Reached-InBody s p r b c j (at, (u, e)) = (s, at, b, (p, r, u, e))

  Triple-post_replace_validation :
      (c : Canonical) (j : Journal)
      → Reached base c0 req.content Stage.replaced target_replaced none c j
      → Triple
          (post_replace_validation env)
          c
          j
          (λ _. Reached base c0 req.content Stage.replaced target_replaced none)
          (InBody base c0 req.content)
  unfolding post_replace_validation raise_incomplete phase_allows
  Triple-post_replace_validation c j h =
      Triple-except_exception
        {h = λ _.
          set_state env Phase.needs_resolution (some Outcome.needs_resolution)
          >> raise_incomplete env
              "post-replacement validation failed; manual resolution is required"}
        (call-IsQuiet.triple
          {P = λ _. Reached base c0 req.content Stage.replaced target_replaced none}
          {X = Reached base c0 req.content Stage.replaced target_replaced none} c j h h)
        (λ _ c' j' h'.
          Triple-bind
            {f = λ _.
              raise_incomplete env
                "post-replacement validation failed; manual resolution is required"}
            (Triple-advance env base c0 req.content Stage.replaced Stage.unresolved
              Phase.needs_resolution (some Outcome.needs_resolution) target_replaced none h' refl
              (λ v. refl) refl refl (in_body_at base c0 req.content Stage.replaced refl)
              (in_body_at base c0 req.content Stage.unresolved refl))
            (λ _ c2 j2 h2. record { at = λ r. Reached-InBody Stage.unresolved _ _ refl c2 j2 h2 }))
        (Reached-InBody Stage.replaced target_replaced none refl)

  abbrev pub Old : Canonical → Journal → Type 0
  Old = Reached base c0 req.content Stage.prepared_old prepared none

  abbrev New : Canonical → Journal → Type 0
  New = Reached base c0 req.content Stage.prepared_new prepared none

  abbrev Replaced : Canonical → Journal → Type 0
  Replaced = Reached base c0 req.content Stage.replaced target_replaced none

  -- From the note that the target is replaced to the end.
  Triple-finish :
      (c : Canonical) (j : Journal) (result : TransactionResult)
      → Replaced c j
      → Triple
          (do
            append_result_event success
            set_state env event_recorded (some success)
            set_state env complete none
            pure result)
          c
          j
          (λ _ c' j'. IsAt base c0 req.content Stage.success_done c')
          (InBody base c0 req.content)
  unfolding phase_allows
  Triple-finish c j result h =
      Triple-bind {Q = λ _. Reached base c0 req.content Stage.success_logged target_replaced none}
        (Triple-log env base c0 req.content Stage.replaced Stage.success_logged success
          target_replaced none h (λ v. refl) refl refl refl
          (in_body_at base c0 req.content Stage.replaced refl)
          (in_body_at base c0 req.content Stage.success_logged refl))
        (λ _ c1 j1 h1.
          Triple-bind
            {Q = λ _.
              Reached base c0 req.content Stage.success_recorded event_recorded (some success)}
            (Triple-advance env base c0 req.content Stage.success_logged Stage.success_recorded
              event_recorded (some success) target_replaced none h1 refl (λ v. refl) refl refl
              (in_body_at base c0 req.content Stage.success_logged refl)
              (in_body_at base c0 req.content Stage.success_recorded refl))
            (λ _ c2 j2 h2.
              Triple-bind
                {Q = λ _. Reached base c0 req.content Stage.success_done complete (some success)}
                (Triple-advance env base c0 req.content Stage.success_recorded Stage.success_done
                  complete none event_recorded (some success) h2 refl (λ v. refl) refl refl
                  (in_body_at base c0 req.content Stage.success_recorded refl)
                  (in_body_at base c0 req.content Stage.success_done refl))
                (λ _ c3 j3 h3. Triple-pure result c3 j3 h3.0)))

  Old-InBody : (c : Canonical) (j : Journal) → Old c j → InBody base c0 req.content c j
  Old-InBody = Reached-InBody Stage.prepared_old prepared none refl

  New-InBody : (c : Canonical) (j : Journal) → New c j → InBody base c0 req.content c j
  New-InBody = Reached-InBody Stage.prepared_new prepared none refl

  put_target : (c : Canonical) (j : Journal) → Old c j → New (put_file req.target req.content c) j
  unfolding new_journal
  put_target c j (at, m) = (
    put_file-IsAt base c0 req.content Stage.prepared_old Stage.prepared_new at (λ v. refl) refl
        refl,
    m,
  )

  abbrev committed : TransactionResult
  committed = record {
    event_id = req.event_id;
    target = req.target;
    before_sha256 = before;
    after_sha256 = env.sha256 req.content;
  }

  -- The block from the end to the start, as the proof goes through it.
  abbrev finish : Action TransactionResult
  finish = do
    append_result_event success
    set_state env event_recorded (some success)
    set_state env complete none
    pure committed

  abbrev note_replaced : Action TransactionResult
  note_replaced = do set_state env target_replaced none; call; post_replace_validation env; finish

  abbrev replace : Action TransactionResult
  replace = do
    call
    call
    replace_temp (of_target req.target req.event_id) (put_file req.target req.content)
    set_temporary none
    note_replaced

  Triple-note_replaced :
      (c : Canonical) (j : Journal)
      → New c j
      → Triple note_replaced c j
          (λ _ c' j'. IsAt base c0 req.content Stage.success_done c')
          (InBody base c0 req.content)
  unfolding phase_allows
  Triple-note_replaced c j h =
      Triple-bind {Q = λ _. Replaced} {f = λ _. do call; post_replace_validation env; finish}
        (Triple-advance env base c0 req.content Stage.prepared_new Stage.replaced target_replaced
          none prepared none h refl (λ v. refl) refl refl
          (in_body_at base c0 req.content Stage.prepared_new refl)
          (in_body_at base c0 req.content Stage.replaced refl))
        (λ _ c1 j1 h1.
          Triple-quiet (λ _. do post_replace_validation env; finish) Replaced call-IsQuiet h1
            (Reached-InBody Stage.replaced target_replaced none refl)
            (λ c2 j2 h2.
              Triple-bind {f = λ _. finish} (Triple-post_replace_validation c2 j2 h2)
                (λ _ c3 j3 h3. Triple-finish c3 j3 committed h3)))

  Triple-replace :
      (c : Canonical) (j : Journal)
      → Old c j
      → Triple replace c j
          (λ _ c' j'. IsAt base c0 req.content Stage.success_done c')
          (InBody base c0 req.content)
  Triple-replace c j h =
      Triple-quiet
        (λ _. do
          call
          replace_temp (of_target req.target req.event_id) (put_file req.target req.content)
          set_temporary none
          note_replaced)
        Old call-IsQuiet h Old-InBody
        (λ c1 j1 h1.
          Triple-quiet
            (λ _. do
              replace_temp (of_target req.target req.event_id) (put_file req.target req.content)
              set_temporary none
              note_replaced)
            Old call-IsQuiet h1 Old-InBody
            (λ c2 j2 h2.
              Triple-bind {Q = λ _. New} {f = λ _. do set_temporary none; note_replaced}
                (Triple-replace_temp (of_target req.target req.event_id)
                  (put_file req.target req.content) c2 j2 (put_target c2 j2 h2)
                  (Old-InBody c2 j2 h2))
                (λ _ c3 j3 h3.
                  Triple-quiet (λ _. note_replaced) New (set_temporary-IsQuiet none) h3 New-InBody
                    Triple-note_replaced)))

  pub Triple-promote_body :
      (c : Canonical) (j : Journal)
      → Old c j
      → Triple
          (promote_body env req before)
          c
          j
          (λ _ c' j'. IsAt base c0 req.content Stage.success_done c')
          (InBody base c0 req.content)
  unfolding promote_body
  Triple-promote_body c j h =
      let t = of_target req.target req.event_id in
      Triple-quiet (λ _. do set_temporary (some t); replace) Old (write_fsynced_temp-IsQuiet t) h
        Old-InBody
        (λ c1 j1 h1.
          Triple-quiet (λ _. replace) Old (set_temporary-IsQuiet (some t)) h1 Old-InBody
            Triple-replace)

  -- The clean-up, where the digests of the target before and after differ.
  module _ (before_lem : before ≡ file_sha256 env req.target c0)
      (changes : before ≢ some (env.sha256 req.content)) where
    pub Triple-handle_unless :
        (b : Bool) (c : Canonical) (j : Journal)
        → InBody base c0 req.content c j
        → Triple
            (handle_unless env b req.target)
            c
            j
            (λ _. AtSome base c0 req.content)
            (AtSome base c0 req.content)
    unfolding new_journal
    Triple-handle_unless true c j x = Triple-pure tt c j (x.0, x.1)
    Triple-handle_unless false c j x =
        Triple-handle_failure env base c0 req.content before_lem refl changes c j x
