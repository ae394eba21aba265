-- ===== src/Transactions/Integrity/Matching.antt =====
-- The search of `transaction_integrity_diagnostics` (storage/transactions.py) for the event of a journal.
use lit_grove.Prelude.{
  ℕ, suc, String, ◌≡◌, ◌↔◌, refl, sym, ap, ◌∙◌, subst, Bool, true, false, Option, none, some, List,
  [], ◌∷◌, ◌++◌, All, string_eq, ◌==◌, if◌then◌else◌, arith, not-false, eq_of_beq, beq_refl,
}
use lit_grove.Diagnostics.{report_if-eq-nil}
use lit_grove.Transactions.State.{Outcome, Journal, Event, event_eq}
use lit_grove.Transactions.Manager.{journal_event}
use lit_grove.Transactions.Integrity.{matching_events, event_diagnostics, is_expected}
use lit_grove.Transactions.Integrity.Sound.{HasOtherId, IsOnlyEvent}

matching_events-eq-nil :
    (n : ℕ) (id : String) (events : List Event)
    → (matching_events n id events ≡ []) ↔ All (HasOtherId id) events
unfolding matching_events
matching_events-eq-nil n id [] = (λ h. tt, λ h. refl)
matching_events-eq-nil n id (e ∷ events) =
    let again = matching_events-eq-nil (suc n) id events in
    elim (e.event_id == id)
      as (λ b.
        ((if b
            then (n, e) ∷ matching_events (suc n) id events
            else matching_events (suc n) id events)
          ≡ [])
        ↔ ((b ≡ false) × All (HasOtherId id) events)) [
          | true ↦ (λ h. cc, λ h. cc)
          | false ↦ (λ h. (refl, again.0 h), λ h. again.1 h.1)
        ]

module _ (id : String) (event : Event) where
  found_first :
      (n m : ℕ) (e : Event) (events : List Event)
      → (e.event_id == id) ≡ true
      → (n, e) ∷ matching_events (suc n) id events ≡ (m, event) ∷ []
      → IsOnlyEvent id event (e ∷ events)
  found_first n m e events same h = record {
    before = [];
    after = events;
    log = first h;
    same_id = eq_of_beq event.event_id id (subst (λ x. (x.event_id == id) ≡ true) (item h) same);
    others_before = tt;
    others_after = (matching_events-eq-nil (suc n) id events).0 (none_later h);
  }
    where
      item : {rest : List (ℕ × Event)} → (n, e) ∷ rest ≡ (m, event) ∷ [] → e ≡ event
      item q = cc

      first :
          {rest : List (ℕ × Event)} → (n, e) ∷ rest ≡ (m, event) ∷ [] → e ∷ events ≡ event ∷ events
      first q = ap (λ x. x ∷ events) (item q)

      none_later : {rest : List (ℕ × Event)} → (n, e) ∷ rest ≡ (m, event) ∷ [] → rest ≡ []
      none_later q = cc

  found_later :
      (e : Event) (events : List Event)
      → (e.event_id == id) ≡ false
      → IsOnlyEvent id event events
      → IsOnlyEvent id event (e ∷ events)
  found_later e events other o = record {
    before = e ∷ o.before;
    after = o.after;
    log = ap (λ xs. e ∷ xs) o.log;
    same_id = o.same_id;
    others_before = (other, o.others_before);
    others_after = o.others_after;
  }

  only_found :
      (n : ℕ) (before after : List Event)
      → (event.event_id == id) ≡ true
      → All (HasOtherId id) before
      → All (HasOtherId id) after
      → (m : ℕ) × (matching_events n id (before ++ event ∷ after) ≡ (m, event) ∷ [])
  unfolding matching_events
  only_found n [] after same h k =
      let nothing = (matching_events-eq-nil (suc n) id after).1 k in (n, ground (arith, nothing))
  only_found n (x ∷ before) after same h k =
      let (m, found) = only_found (suc n) before after same h.1 k in (m, ground (arith, found))

  found_only :
      (n m : ℕ) (events : List Event)
      → matching_events n id events ≡ (m, event) ∷ []
      → IsOnlyEvent id event events
  unfolding matching_events
  found_only n m [] h = cc
  found_only n m (e ∷ events) h = go (e.event_id == id) refl (found_only (suc n) m events) h
    where
      go :
          (b : Bool)
          → (e.event_id == id) ≡ b
          → (matching_events (suc n) id events ≡ (m, event) ∷ [] → IsOnlyEvent id event events)
          → (if b
              then (n, e) ∷ matching_events (suc n) id events
              else matching_events (suc n) id events)
            ≡ (m, event) ∷ []
          → IsOnlyEvent id event (e ∷ events)
      go true same again h = found_first n m e events same h
      go false other again h = found_later e events other (again h)

-- The search finds one event exactly if it is the only one with its ID.
pub matching_events-only :
    (n : ℕ) (id : String) (event : Event) (events : List Event)
    → ((m : ℕ) × (matching_events n id events ≡ (m, event) ∷ [])) ↔ IsOnlyEvent id event events
matching_events-only n id event events = (
  λ h. found_only id event n h.0 events h.1,
  λ o.
      subst (λ log. (m : ℕ) × (matching_events n id log ≡ (m, event) ∷ [])) (sym o.log)
        (only_found id event n o.before o.after (ap (λ i. i == id) o.same_id ∙ beq_refl id)
          o.others_before o.others_after),
)

is_expected_lem :
    (j : Journal) (r : Outcome) (x : Event) (o : Option Outcome)
    → o ≡ some r
    → (is_expected j o x ≡ true) ↔ (x ≡ journal_event j r)
is_expected_lem j r x none e = cc
is_expected_lem j r x (some q) e = (
  λ h. eq_of_beq x (journal_event j q) h ∙ ap (journal_event j) same,
  λ h. (event_eq.beq_iff x (journal_event j q)).1 (h ∙ ap (journal_event j) (sym same)),
)
  where
    same : q ≡ r
    same = cc

pub event_diagnostics-eq-nil :
    (str : ℕ → String) (j : Journal) (r : Outcome) (found : List (ℕ × Event))
    → j.result ≡ some r
    → (event_diagnostics str j found ≡ []) ↔ ((m : ℕ) × (found ≡ (m, journal_event j r) ∷ []))
unfolding event_diagnostics
event_diagnostics-eq-nil str j r [] e = (λ h. cc, λ h. (let (m, q) = h in cc))
event_diagnostics-eq-nil str j r ((n, x) ∷ y ∷ ys) e = (λ h. cc, λ h. (let (m, q) = h in cc))
event_diagnostics-eq-nil str j r ((n, x) ∷ []) e =
    let expected = is_expected_lem j r x j.result e in
    (
      λ h. (n, ap (λ y. (n, y) ∷ []) (expected.0 ((not-false _).0 ((report_if-eq-nil _ _).0 h)))),
      λ h. (report_if-eq-nil _ _).1 ((not-false _).1 (expected.1 (second h.1))),
    )
  where
    second : {m : ℕ} {y : Event} → ◌≡◌ {A = List (ℕ × Event)} ((n, x) ∷ []) ((m, y) ∷ []) → x ≡ y
    second q = cc
