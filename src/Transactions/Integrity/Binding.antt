-- ===== src/Transactions/Integrity/Binding.antt =====
-- The tests on one journal by itself in `transaction_integrity_diagnostics` (storage/transactions.py).
use Prim.Native.String.{◌++◌ as append}
use lit_grove.Prelude.{
  String, ◌≡◌, ◌≢◌, ◌↔◌, refl, true, Option, none, some, [], append-empty, differs-false, not-false,
  string_eq, option_eq,
}
use lit_grove.Diagnostics.{report_if-eq-nil}
use lit_grove.Transactions.State.{
  Phase, prepared, target_replaced, event_recorded, complete, Outcome, success, failure, Journal,
}
use lit_grove.Transactions.Targets.{transaction_target_matches_store}
use lit_grove.Transactions.Integrity.{target_key_eq, binding_diagnostics, is_complete}

pub binding_diagnostics-eq-nil :
    (name : String) (j : Journal)
    → (binding_diagnostics name j ≡ []) ↔ (
        (name ≡ append j.event_id ".json")
        × (transaction_target_matches_store j.target_store j.target_relative_path ≡ true))
unfolding binding_diagnostics
binding_diagnostics-eq-nil name j = (
  λ h.
      (let (a, b) = (append-empty _ _).0 h in
        (
          (differs-false _ _).0 ((report_if-eq-nil _ _).0 a),
          (not-false _).0 ((report_if-eq-nil _ _).0 b),
        )),
  λ h. (append-empty _ _).1 (
    (report_if-eq-nil _ _).1 ((differs-false _ _).1 h.0),
    (report_if-eq-nil _ _).1 ((not-false _).1 h.1),
  ),
)

pub record Settled (p : Phase) (o : Option Outcome) : Type 0 where
  pub result : Outcome
  pub phase : p ≡ complete
  pub recorded : o ≡ some result
  pub settled : result ≢ Outcome.needs_resolution

pub is_complete-Settled : (p : Phase) (o : Option Outcome) → is_complete p o ≡ true → Settled p o
is_complete-Settled complete (some success) h = record {
  result = success;
  phase = refl;
  recorded = refl;
  settled = λ q. cc;
}
is_complete-Settled complete (some failure) h = record {
  result = failure;
  phase = refl;
  recorded = refl;
  settled = λ q. cc;
}
is_complete-Settled complete (some Outcome.needs_resolution) h = cc
is_complete-Settled complete none h = cc
is_complete-Settled prepared o h = cc
is_complete-Settled target_replaced o h = cc
is_complete-Settled event_recorded o h = cc
is_complete-Settled Phase.needs_resolution o h = cc

pub settled-is_complete :
    (r : Outcome) → r ≢ Outcome.needs_resolution → is_complete complete (some r) ≡ true
settled-is_complete success h = refl
settled-is_complete failure h = refl
settled-is_complete Outcome.needs_resolution h = absurd (h refl)
