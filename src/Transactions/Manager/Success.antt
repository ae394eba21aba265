-- ===== src/Transactions/Manager/Success.antt =====
-- `promote_bytes` where no fault happens and nothing is in its way.
use lit_grove.Prelude.{
  String, ◌≡◌, refl, sym, ap, ◌∙◌, true, Option, none, some, List, or_else, subst, subst₂, Memᴰ,
  string_eq,
}
use lit_grove.Transactions.State.{
  Bytes, Phase, prepared, target_replaced, event_recorded, complete, Outcome, success, Journal,
  Canonical, Temporary, temporary_eq, of_journal, of_events,
}
use lit_grove.Transactions.Action.{Action, pure, ◌>>◌, call, effect}
use lit_grove.Transactions.Stages.{
  Stage, marked, stage_journal, stage_event, is_replaced, logged, IsAt, Reached, put_journal-IsAt,
  add_event-IsAt,
}
use lit_grove.Transactions.FaultFree.{Sure, Sure-bind, Sure-pure, Sure-call, Sure-weaken}
use lit_grove.Transactions.FaultFree.Writes.{Sure-set_state, Sure-append_result_event}
use lit_grove.Transactions.Manager.{
  Env, phase_allows, set_state, append_result_event, post_replace_validation,
}

module _ (env : Env) where
  -- The `try` block from the event on.
  abbrev from_event : {A : Type 0} → A → Action A
  from_event a = do
    append_result_event success
    set_state env event_recorded (some success)
    set_state env complete none
    pure a

  abbrev pub from_replaced : {A : Type 0} → A → Action A
  from_replaced a = do
    set_state env target_replaced none
    call
    post_replace_validation env
    from_event a

module _ (free : List Temporary) (env : Env) (base : Journal) (c0 : Canonical) (new : Bytes) where
  module _ (s t : Stage) where
    Sure-advance :
        (p p' : Phase) (r r' : Option Outcome) {c : Canonical} {j : Journal}
        → Memᴰ (of_journal base.event_id) free
        → Reached base c0 new s p' r' c j
        → phase_allows p (or_else r r') ≡ true
        → ((v : String) → stage_journal base v t ≡ some (marked base p (or_else r r') v))
        → is_replaced t ≡ is_replaced s
        → logged t ≡ logged s
        → Sure free (set_state env p r) c j (λ _. Reached base c0 new t p (or_else r r'))
    Sure-advance p p' r r' {c} {j} m (at, (u, e)) ok journals same_file same_event =
        subst (λ k. Sure free (set_state env p r) c k (λ _. Reached base c0 new t p (or_else r r')))
          (sym e)
          (Sure-set_state free env base p p' r r' u c m ok (λ v. (
            put_journal-IsAt base c0 new s t p (or_else r r') v at (journals v) same_file
                same_event,
            (v, refl),
          )))

    Sure-log :
        (r : Outcome) (p' : Phase) (r' : Option Outcome) {c : Canonical} {j : Journal}
        → Memᴰ (of_events base.event_id) free
        → Reached base c0 new s p' r' c j
        → ((v : String) → stage_journal base v t ≡ stage_journal base v s)
        → is_replaced t ≡ is_replaced s
        → logged s ≡ none
        → logged t ≡ some r
        → Sure free (append_result_event r) c j (λ _. Reached base c0 new t p' r')
    Sure-log r p' r' {c} {j} m (at, (u, e)) journals same_file no_event event =
        subst (λ k. Sure free (append_result_event r) c k (λ _. Reached base c0 new t p' r'))
          (sym e)
          (Sure-append_result_event free base r p' r' u c m
            (at.event ∙ ap (stage_event base) no_event)
            (add_event-IsAt base c0 new s t r at journals same_file no_event event, (u, refl)))

  module _ (no_journal_file : Memᴰ (of_journal base.event_id) free)
      (no_events_file : Memᴰ (of_events base.event_id) free) where
    abbrev pub Done : Canonical → Journal → Type 0
    Done c j = IsAt base c0 new Stage.success_done c

    Sure-from_event :
        {A : Type 0} (a : A) (c : Canonical) (j : Journal)
        → Reached base c0 new Stage.replaced target_replaced none c j
        → Sure free (from_event env a) c j (λ b c' j'. (b ≡ a) × Done c' j')
    unfolding phase_allows
    Sure-from_event a c j h =
        Sure-bind free {Q = λ _. Reached base c0 new Stage.success_logged target_replaced none}
          (λ _. do set_state env event_recorded (some success); set_state env complete none; pure a)
          (Sure-log Stage.replaced Stage.success_logged success target_replaced none no_events_file
            h (λ v. refl) refl refl refl)
          (λ _ c1 j1 h1.
            Sure-bind free
              {Q = λ _. Reached base c0 new Stage.success_recorded event_recorded (some success)}
              (λ _. do set_state env complete none; pure a)
              (Sure-advance Stage.success_logged Stage.success_recorded event_recorded
                target_replaced (some success) none no_journal_file h1 refl (λ v. refl) refl refl)
              (λ _ c2 j2 h2.
                Sure-bind free
                  {Q = λ _. Reached base c0 new Stage.success_done complete (some success)}
                  (λ _. pure a)
                  (Sure-advance Stage.success_recorded Stage.success_done complete event_recorded
                    none (some success) no_journal_file h2 refl (λ v. refl) refl refl)
                  (λ _ c3 j3 h3. Sure-pure free a c3 j3 (refl, h3.0))))

    Sure-post_replace_validation :
        (c : Canonical) (j : Journal)
        → Sure free (post_replace_validation env) c j (λ _ c' j'. (c' ≡ c) × (j' ≡ j))
    unfolding post_replace_validation call effect
    Sure-post_replace_validation c j = record { at = λ ts t n k. ((refl, refl), refl, k) }

    pub Sure-from_replaced :
        {A : Type 0} (a : A) (c : Canonical) (j : Journal)
        → Reached base c0 new Stage.prepared_new prepared none c j
        → Sure free (from_replaced env a) c j (λ b c' j'. (b ≡ a) × Done c' j')
    unfolding phase_allows
    Sure-from_replaced a c j h =
        Sure-bind free {Q = λ _. Reached base c0 new Stage.replaced target_replaced none}
          (λ _. do call; post_replace_validation env; from_event env a)
          (Sure-advance Stage.prepared_new Stage.replaced target_replaced prepared none none
            no_journal_file h refl (λ v. refl) refl refl)
          (λ _ c1 j1 h1.
            Sure-bind free {Q = λ _. Reached base c0 new Stage.replaced target_replaced none}
              (λ _. do post_replace_validation env; from_event env a) (Sure-call free c1 j1 h1)
              (λ _ c2 j2 h2.
                Sure-bind free {Q = λ _. Reached base c0 new Stage.replaced target_replaced none}
                  (λ _. from_event env a)
                  (Sure-weaken free (Sure-post_replace_validation c2 j2) (λ _ c3 j3 h3.
                    subst₂ (Reached base c0 new Stage.replaced target_replaced none) (sym h3.0)
                      (sym h3.1) h2))
                  (λ _ c3 j3 h3. Sure-from_event a c3 j3 h3)))
