-- ===== src/Transactions/Manager/Recorded.antt =====
-- `record_failure` (storage/transactions.py): the failure event of an operation that changed nothing.
use lit_grove.Prelude.{
  ℕ, String, ◌≡◌, ◌⊎◌, inl, inr, refl, sym, subst, false, ◌||◌, Option, none, some, is_some, List,
  [], arith,
}
use lit_grove.Transactions.State.{
  failure, Journal, Event, Canonical, add_event, event_at, journal_at,
}
use lit_grove.Transactions.Action.{Action, Rest, pure, ◌>>=◌, ◌>>◌}
use lit_grove.Transactions.Rules.{
  Ends, world, Triple, Triple-bind, Triple-pure, Triple-raise_if, call-IsQuiet,
}
use lit_grove.Transactions.Manager.{
  Env, record_failure, ensure_event_id_available, refuse_used, append_process_event, read_clock,
  transaction_error,
}
use lit_grove.Diagnostics.{write_conflict}
use lit_grove.Transactions.Manager.Steps.{Triple-append_process_event}

module _ (env : Env) (event_id operation actor : String) (input_refs : List String)
    (job_id : Option String) (c0 : Canonical) where
  abbrev pub failure_event : ℕ → Event
  failure_event now = record {
    event_id = event_id;
    operation = operation;
    actor = actor;
    result = failure;
    input_refs = input_refs;
    output_refs = [];
    created_at = env.timestamp now;
    job_id = job_id;
    fixture_origin = none;
  }

  -- The files are those of `c0` with the failure event, read at some time of the clock, in the log.
  abbrev pub Logged : Canonical → Type 0
  Logged c = (now : ℕ) × (c ≡ add_event (failure_event now) c0)

  abbrev pub Recorded : String → Canonical → Journal → Type 0
  Recorded id c j =
      (id ≡ event_id) × (event_at event_id c0 ≡ none) × (journal_at event_id c0 ≡ none) × Logged c

  abbrev pub Unrecorded : Canonical → Journal → Type 0
  Unrecorded c j = (c ≡ c0) ⊎ Logged c

  none_of_free :
      (a : Option Event) (b : Option Journal)
      → (is_some a || is_some b) ≡ false
      → (a ≡ none) × (b ≡ none)
  none_of_free a b h = ground arith

  abbrev Free : Type 0
  Free = (event_at event_id c0 ≡ none) × (journal_at event_id c0 ≡ none)

  Triple-refuse_used :
      (j : Journal) → Triple (refuse_used event_id) c0 j (λ _ c' j'. (c' ≡ c0) × Free) Unrecorded
  unfolding refuse_used
  Triple-refuse_used j = record {
    at = λ r.
        (Triple-raise_if {P = λ _ c' j'. (c' ≡ c0) × Free}
            (is_some (event_at event_id c0) || is_some (journal_at event_id c0))
            (transaction_error write_conflict "/event_id" (some event_id)
              "event ID is already in use")
            c0 j (λ free. (refl, none_of_free _ _ free)) (inl refl)).at
          r;
  }

  Triple-ensure_event_id_available :
      (j : Journal)
      → Triple (ensure_event_id_available event_id) c0 j (λ _ c' j'. (c' ≡ c0) × Free) Unrecorded
  unfolding ensure_event_id_available
  Triple-ensure_event_id_available j =
      Triple-bind {Q = λ _ c' j'. c' ≡ c0} {f = λ _. refuse_used event_id}
        (call-IsQuiet.triple {P = λ _ c' j'. c' ≡ c0} {X = Unrecorded} c0 j refl (inl refl))
        (λ _ c' j' h.
          subst (λ c. Triple (refuse_used event_id) c j' (λ _ c2 j2. (c2 ≡ c0) × Free) Unrecorded)
            (sym h) (Triple-refuse_used j'))

  abbrev append_at : ℕ → Action String
  append_at now = do append_process_event (failure_event now); pure event_id

  Triple-append_at :
      (now : ℕ) (j : Journal) → Free → Triple (append_at now) c0 j Recorded Unrecorded
  Triple-append_at now j free =
      Triple-bind {Q = λ _ c' j'. Logged c'} {f = λ _. pure event_id}
        (Triple-append_process_event (failure_event now) c0 j free.0 (now, refl) (inl refl)
          (inr (now, refl)))
        (λ _ c' j' h. Triple-pure event_id c' j' (refl, free.0, free.1, h))

  abbrev from_clock : Action String
  from_clock = do now ← read_clock; append_at now

  Triple-from_clock : (j : Journal) → Free → Triple from_clock c0 j Recorded Unrecorded
  Triple-from_clock j free =
      Triple-bind {Q = λ _ c' j'. c' ≡ c0} {m = read_clock} {f = append_at}
        (record { at = λ r. refl })
        (λ now c' j' h.
          subst (λ c. Triple (append_at now) c j' Recorded Unrecorded) (sym h)
            (Triple-append_at now j' free))

  abbrev from_check : Action String
  from_check = do ensure_event_id_available event_id; from_clock

  Triple-from_check : (j : Journal) → Triple from_check c0 j Recorded Unrecorded
  Triple-from_check j =
      Triple-bind {Q = λ _ c' j'. (c' ≡ c0) × Free} {f = λ _. from_clock}
        (Triple-ensure_event_id_available j)
        (λ _ c' j' h.
          subst (λ c. Triple from_clock c j' Recorded Unrecorded) (sym h.0)
            (Triple-from_clock j' h.1))

  Triple-record_failure :
      (j : Journal)
      → Triple
          (record_failure env event_id operation actor input_refs job_id)
          c0
          j
          Recorded
          Unrecorded
  unfolding record_failure
  Triple-record_failure j =
      Triple-bind {Q = λ _ c' j'. c' ≡ c0} {f = λ _. from_check}
        (call-IsQuiet.triple {P = λ _ c' j'. c' ≡ c0} {X = Unrecorded} c0 j refl (inl refl))
        (λ _ c' j' h.
          subst (λ c. Triple from_check c j' Recorded Unrecorded) (sym h) (Triple-from_check j'))

  -- Whatever faults `record_failure` meets: if it returns, then it returns the event ID, which no event
  -- and no journal had, and the log has the one failure event more; however else it ends, nothing has
  -- changed or the log has that event. No target file, journal or other event is touched.
  pub record_failure-Ends :
      (j : Journal) (r : Rest)
      → Ends Recorded Unrecorded
          (record_failure env event_id operation actor input_refs job_id (world c0 j r))
  record_failure-Ends j r = (Triple-record_failure j).at r
