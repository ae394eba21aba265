-- ===== src/Transactions/FaultFree/Writes.antt =====
-- The writes of journals and events where no fault happens.
use lit_grove.Prelude.{
  ℕ, ◌+◌, String, ◌≡◌, true, not, Option, none, some, List, option_eq, or_else, ap, string_eq, Memᴰ,
}
use lit_grove.Diagnostics.{diagnostic, schema_validation_failed}
use lit_grove.Transactions.State.{
  Phase, Outcome, Journal, Event, event_beq, Canonical, Temporary, of_journal, of_events,
  put_journal, add_event, event_at,
}
use lit_grove.Transactions.Action.{diagnosed, raise_if, Exit, World, atomic_write_bytes}
use lit_grove.Transactions.Rules.{world}
use lit_grove.Transactions.FaultFree.{
  Sure-call, Sure, Returns, Sure-bind, Sure-raise_if, Sure-atomic_write_bytes, Sure-append,
  quiet_rest, IsClean,
}
use lit_grove.Transactions.Stages.{marked}
use lit_grove.Transactions.Manager.{
  Env, phase_allows, journal_event, validate_journal, append_process_event, append_if_new,
  write_event, write_journal, set_state, append_result_event,
}

module _ (free : List Temporary) {P : Unit {0} → Canonical → Journal → Type 0} where
  pub Sure-validate_journal :
      (c : Canonical) (j : Journal)
      → phase_allows j.phase j.result ≡ true
      → P tt c j
      → Sure free (validate_journal j) c j P
  unfolding validate_journal
  Sure-validate_journal c j ok p =
      Sure-raise_if free (not (phase_allows j.phase j.result)) _ c j (ap not ok) p

  Sure-write_event :
      (e : Event) (c : Canonical) (j : Journal)
      → Memᴰ (of_events e.event_id) free
      → P tt (add_event e c) j
      → Sure free (write_event e) c j P
  unfolding write_event
  Sure-write_event e c j m p = Sure-append free (of_events e.event_id) (add_event e) c j m p

  Sure-append_if_new :
      (e : Event) (c : Canonical) (j : Journal)
      → Memᴰ (of_events e.event_id) free
      → event_at e.event_id c ≡ none
      → P tt (add_event e c) j
      → Sure free (append_if_new e) c j P
  unfolding append_if_new
  Sure-append_if_new e c j m absent p = record {
    at = λ ts t n k. go (event_at e.event_id c) absent ts t n k;
  }
    where
      write : Sure free (write_event e) c j P
      write = Sure-write_event e c j m p

      go :
          (o : Option Event)
          → o ≡ none
          → (ts : List Temporary) (t : Option Temporary) (n : ℕ) → IsClean free ts
          → Returns free P (elim o as (λ _. Exit (Unit {0}) × World) [
            | none ↦ write_event e (world c j (quiet_rest ts t n))
            | some existing ↦
                raise_if
                  (not (event_beq existing e))
                  (diagnosed (
                    diagnostic schema_validation_failed "process-event"
                      (some e.event_id)
                      "/event_id"
                      "event ID already exists with different content"))
                  (world c j (quiet_rest ts t n))
          ])
      go none h ts t n k = write.at ts t n k
      go (some e') h ts t n k = cc

  pub Sure-append_process_event :
      (e : Event) (c : Canonical) (j : Journal)
      → Memᴰ (of_events e.event_id) free
      → event_at e.event_id c ≡ none
      → P tt (add_event e c) j
      → Sure free (append_process_event e) c j P
  unfolding append_process_event
  Sure-append_process_event e c j m absent p =
      Sure-bind free {Q = λ _ c' j'. (event_at e.event_id c' ≡ none) × P tt (add_event e c') j'}
        (λ _. append_if_new e) (Sure-call free c j (absent, p))
        (λ _ c' j' h. Sure-append_if_new e c' j' m h.0 h.1)

  pub Sure-append_result_event :
      (base : Journal) (r : Outcome) (p' : Phase) (r' : Option Outcome) (u : String) (c : Canonical)
      → Memᴰ (of_events base.event_id) free
      → event_at base.event_id c ≡ none
      → P tt (add_event (journal_event base r) c) (marked base p' r' u)
      → Sure free (append_result_event r) c (marked base p' r' u) P
  unfolding append_result_event journal_event
  Sure-append_result_event base r p' r' u c m absent p = record {
    at = (Sure-append_process_event (journal_event base r) c (marked base p' r' u) m absent p).at;
  }

module _ (free : List Temporary) (env : Env) {P : Unit {0} → Canonical → Journal → Type 0} where
  pub Sure-write_journal :
      (c : Canonical) (j : Journal)
      → Memᴰ (of_journal j.event_id) free
      → phase_allows j.phase j.result ≡ true
      → P tt (put_journal j c) j
      → Sure free (write_journal env) c j P
  unfolding write_journal
  Sure-write_journal c j m ok p = record {
    at = λ ts t n k.
        (Sure-bind free {Q = λ _ c' j'. P tt (put_journal j c') j'}
            (λ _. atomic_write_bytes (of_journal j.event_id) (put_journal j))
            (Sure-validate_journal free c j ok p)
            (λ _ c' j' h.
              Sure-atomic_write_bytes free (of_journal j.event_id) (put_journal j) c' j' m h)).at
          ts t n k;
  }

  pub Sure-set_state :
      (base : Journal) (p p' : Phase) (r r' : Option Outcome) (u : String) (c : Canonical)
      → Memᴰ (of_journal base.event_id) free
      → phase_allows p (or_else r r') ≡ true
      → ((v : String)
          → P tt (put_journal (marked base p (or_else r r') v) c) (marked base p (or_else r r') v))
      → Sure free (set_state env p r) c (marked base p' r' u) P
  unfolding set_state
  Sure-set_state base p p' r r' u c m ok k = record {
    at = λ ts t n clean.
        let v = env.timestamp n in
        (Sure-write_journal c (marked base p (or_else r r') v) m ok (k v)).at ts t (n + 1) clean;
  }
