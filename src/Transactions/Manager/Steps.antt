-- ===== src/Transactions/Manager/Steps.antt =====
-- The writes of a transaction as steps between its stages.
use lit_grove.Prelude.{
  ◌+◌, String, ◌≡◌, refl, sym, ap, ◌∙◌, true, not, Option, none, some, option_eq, or_else, subst,
  string_eq,
}
use lit_grove.Transactions.State.{
  Bytes, Phase, Outcome, Journal, Event, event_beq, Canonical, of_journal, of_events, put_journal,
  add_event, event_at,
}
use lit_grove.Transactions.Action.{
  diagnosed, raise_if, Exit, World, Rest, ◌>>◌, call, unlink, finally, replace_temp,
  atomic_write_bytes,
}
use lit_grove.Diagnostics.{diagnostic, schema_validation_failed}
use lit_grove.Transactions.Rules.{
  Ends, world, Triple, Triple-bind, Triple-weaken, Triple-raise_if, Triple-atomic_write_bytes,
  Triple-replace_temp, Triple-finally, call-IsQuiet, unlink-IsQuiet, open_exclusive-IsQuiet,
}
use lit_grove.Transactions.Stages
use lit_grove.Transactions.Stages.{
  Stage, marked, IsAt, IsMarked, Reached, put_journal-IsAt, add_event-IsAt,
}
use lit_grove.Transactions.Manager.{
  Env, phase_allows, journal_event, validate_journal, append_process_event, append_if_new,
  write_event, write_journal, set_state, append_result_event,
}

module _ {X : Canonical → Journal → Type 0} {P : Unit {0} → Canonical → Journal → Type 0} where
  Triple-finally_commit :
      (e : Event) (c : Canonical) (j : Journal)
      → P tt (add_event e c) j
      → X c j
      → X (add_event e c) j
      → Triple
          (finally
            (call >> replace_temp (of_events e.event_id) (add_event e))
            (unlink (of_events e.event_id)))
          c
          j
          P
          X
  Triple-finally_commit e c j p x y =
      Triple-weaken {Q = λ _ c' j'. P tt c' j' × X c' j'} {Y = X}
        (Triple-finally {P = λ _ c' j'. P tt c' j' × X c' j'} (unlink (of_events e.event_id))
          (unlink-IsQuiet (of_events e.event_id))
          (Triple-bind {Q = λ _ c' j'. (P tt (add_event e c') j' × X (add_event e c') j') × X c' j'}
            {f = λ _. replace_temp (of_events e.event_id) (add_event e)}
            (call-IsQuiet.triple c j ((p, y), x) x)
            (λ _ c' j' h. Triple-replace_temp (of_events e.event_id) (add_event e) c' j' h.0 h.1))
          (λ c' j' h. h.1))
        (λ _ c' j' h. h.0) (λ c' j' h. h)

  Triple-append_if_new :
      (e : Event) (c : Canonical) (j : Journal)
      → event_at e.event_id c ≡ none
      → P tt (add_event e c) j
      → X c j
      → X (add_event e c) j
      → Triple (append_if_new e) c j P X
  unfolding append_if_new
  Triple-append_if_new e c j absent p x y = record { at = λ r. go (event_at e.event_id c) absent r }
    where
      write : Triple (write_event e) c j P X
      write =
          Triple-bind {Q = λ _ c' j'. P tt (add_event e c') j' × X c' j' × X (add_event e c') j'}
            {f = λ _.
              finally (call >> replace_temp (of_events e.event_id) (add_event e))
                (unlink (of_events e.event_id))}
            ((open_exclusive-IsQuiet (of_events e.event_id)).triple c j (p, x, y) x)
            (λ _ c' j' h. Triple-finally_commit e c' j' h.0 h.1 h.2)

      go :
          (o : Option Event)
          → o ≡ none
          → (r : Rest)
          → Ends P X (elim o as (λ _. Exit (Unit {0}) × World) [
            | none ↦ write_event e (world c j r)
            | some existing ↦
                raise_if
                  (not (event_beq existing e))
                  (diagnosed (
                    diagnostic schema_validation_failed "process-event"
                      (some e.event_id)
                      "/event_id"
                      "event ID already exists with different content"))
                  (world c j r)
          ])
      go none h r = write.at r
      go (some e') h r = cc

  pub Triple-append_process_event :
      (e : Event) (c : Canonical) (j : Journal)
      → event_at e.event_id c ≡ none
      → P tt (add_event e c) j
      → X c j
      → X (add_event e c) j
      → Triple (append_process_event e) c j P X
  unfolding append_process_event
  Triple-append_process_event e c j absent p x y =
      Triple-bind
        {Q = λ _ c' j'.
          (event_at e.event_id c' ≡ none)
          × P tt (add_event e c') j'
          × X c' j'
          × X (add_event e c') j'}
        {f = λ _. append_if_new e} (call-IsQuiet.triple c j (absent, p, x, y) x)
        (λ _ c' j' h. Triple-append_if_new e c' j' h.0 h.1 h.2 h.3)

module _ (env : Env) {X : Canonical → Journal → Type 0}
    {P : Unit {0} → Canonical → Journal → Type 0} where
  pub Triple-write_journal :
      (c : Canonical) (j : Journal)
      → phase_allows j.phase j.result ≡ true
      → P tt (put_journal j c) j
      → X c j
      → X (put_journal j c) j
      → Triple (write_journal env) c j P X
  unfolding write_journal validate_journal
  Triple-write_journal c j ok p x y = record {
    at = λ r.
        (Triple-bind {Q = λ _ c' j'. P tt (put_journal j c') j' × X c' j' × X (put_journal j c') j'}
            {f = λ _. atomic_write_bytes (of_journal j.event_id) (put_journal j)}
            (Triple-raise_if (not (phase_allows j.phase j.result)) _ c j (λ _. (p, x, y)) x)
            (λ _ c' j' h.
              Triple-atomic_write_bytes (of_journal j.event_id) (put_journal j) c' j' h.0 h.1
                h.2)).at
          r;
  }

  pub Triple-set_state :
      (base : Journal) (p p' : Phase) (r r' : Option Outcome) (u : String) (c : Canonical)
      → phase_allows p (or_else r r') ≡ true
      → ((v : String)
          → P tt (put_journal (marked base p (or_else r r') v) c) (marked base p (or_else r r') v))
      → ((v : String) → X c (marked base p (or_else r r') v))
      → ((v : String)
          → X (put_journal (marked base p (or_else r r') v) c) (marked base p (or_else r r') v))
      → Triple (set_state env p r) c (marked base p' r' u) P X
  unfolding set_state
  Triple-set_state base p p' r r' u c ok k x y = record {
    at = λ w.
        let v = env.timestamp w.ticks in
        (Triple-write_journal c (marked base p (or_else r r') v) ok (k v) (x v) (y v)).at
          (record w { ticks = w.ticks + 1 });
  }

-- The transaction that began in `c0` with the journal `base`, and replaces the target by `new`.
module _ (env : Env) (base : Journal) (c0 : Canonical) (new : Bytes) where
  -- One `_set_state` from the stage `s` to the stage `t`.
  module _ {X : Canonical → Journal → Type 0} (s t : Stage) (p : Phase) (r : Option Outcome) where
    pub Triple-advance :
        (p' : Phase) (r' : Option Outcome) {c : Canonical} {j : Journal}
        → Reached base c0 new s p' r' c j
        → phase_allows p (or_else r r') ≡ true
        → ((v : String) → Stages.stage_journal base v t ≡ some (marked base p (or_else r r') v))
        → Stages.is_replaced t ≡ Stages.is_replaced s
        → Stages.logged t ≡ Stages.logged s
        → ((c' : Canonical) (j' : Journal) → IsAt base c0 new s c' → IsMarked base j' → X c' j')
        → ((c' : Canonical) (j' : Journal) → IsAt base c0 new t c' → IsMarked base j' → X c' j')
        → Triple (set_state env p r) c j (λ _. Reached base c0 new t p (or_else r r')) X
    Triple-advance p' r' {c} {j} (at, (u, e)) ok journals same_file same_event xs xt =
        subst
          (λ (k : Journal).
            Triple (set_state env p r) c k (λ _. Reached base c0 new t p (or_else r r')) X)
          (sym e)
          (Triple-set_state env base p p' r r' u c ok (λ v. (put v, (v, refl)))
            (λ v. xs c _ at (p, or_else r r', v, refl))
            (λ v. xt _ _ (put v) (p, or_else r r', v, refl)))
      where
        put : (v : String) → IsAt base c0 new t (put_journal (marked base p (or_else r r') v) c)
        put v =
            put_journal-IsAt base c0 new s t p (or_else r r') v at (journals v) same_file same_event

  -- One event appended from the stage `s` to the stage `t`.
  module _ {X : Canonical → Journal → Type 0} (s t : Stage) (r : Outcome) where
    pub Triple-log :
        (p' : Phase) (r' : Option Outcome) {c : Canonical} {j : Journal}
        → Reached base c0 new s p' r' c j
        → ((v : String) → Stages.stage_journal base v t ≡ Stages.stage_journal base v s)
        → Stages.is_replaced t ≡ Stages.is_replaced s
        → Stages.logged s ≡ none
        → Stages.logged t ≡ some r
        → ((c' : Canonical) (j' : Journal) → IsAt base c0 new s c' → IsMarked base j' → X c' j')
        → ((c' : Canonical) (j' : Journal) → IsAt base c0 new t c' → IsMarked base j' → X c' j')
        → Triple (append_result_event r) c j (λ _. Reached base c0 new t p' r') X
    unfolding journal_event append_result_event
    Triple-log p' r' {c} {j} (at, (u, e)) journals same_file no_event event xs xt =
        subst
          (λ (k : Journal). Triple (append_result_event r) c k (λ _. Reached base c0 new t p' r') X)
          (sym e)
          (record {
            at = λ q.
                (Triple-append_process_event (journal_event base r) c (marked base p' r' u)
                    (at.event ∙ ap (Stages.stage_event base) no_event) (added, (u, refl))
                    (xs c _ at (p', r', u, refl)) (xt _ _ added (p', r', u, refl))).at
                  q;
          })
      where
        added : IsAt base c0 new t (add_event (journal_event base r) c)
        added = add_event-IsAt base c0 new s t r at journals same_file no_event event
