-- ===== src/Transactions/Recovery/Kept.antt =====
-- What recovery of one transaction leaves as it was.
use lit_grove.Prelude.{
  String, ◌≡◌, false, Option, none, some, option_eq, ◌∙◌, ◌==◌, string_eq, lookup-insert,
}
use lit_grove.Transactions.State.{
  Phase, Outcome, Journal, Canonical, put_journal, add_event, event_at, journal_at,
}
use lit_grove.Transactions.Stages.{
  marked, stage_event, journal_at-put_journal, find_event-append_result, find_event-append_other,
}
use lit_grove.Transactions.Manager.{journal_event}

-- The target files, and the journals and events of other transactions, are as they were.
pub record Kept (id : String) (c c' : Canonical) : Type 0 where
  pub files : (p : String) → c'.files p ≡ c.files p
  pub journals : (i : String) → (id == i) ≡ false → journal_at i c' ≡ journal_at i c
  pub events : (i : String) → (id == i) ≡ false → event_at i c' ≡ event_at i c

-- What the disk holds of one transaction, on the way from `c`.
pub record Has (base : Journal) (c : Canonical) (jo : Option Journal) (l : Option Outcome)
    (c' : Canonical) : Type 0 where
  pub journal : journal_at base.event_id c' ≡ jo
  pub event : event_at base.event_id c' ≡ stage_event base l
  pub kept : Kept base.event_id c c'

module _ (base : Journal) (c : Canonical) where
  pub Has-put_journal :
      (p : Phase) (r : Option Outcome) (u : String) {jo : Option Journal} {l : Option Outcome}
      {c' : Canonical}
      → Has base c jo l c'
      → Has base c (some (marked base p r u)) l (put_journal (marked base p r u) c')
  unfolding put_journal
  Has-put_journal p r u {jo} {l} {c'} h = record {
    journal = unfold put_journal in journal_at-put_journal (marked base p r u) c';
    event = h.event;
    kept = record {
      files = h.kept.files;
      journals = λ i ne.
          lookup-insert base.event_id i (marked base p r u) c'.journals
          ∙ (rw ne (h.kept.journals i ne));
      events = h.kept.events;
    };
  }

  pub Has-add_event :
      (r : Outcome) {jo : Option Journal} {c' : Canonical}
      → Has base c jo none c'
      → Has base c jo (some r) (add_event (journal_event base r) c')
  unfolding add_event
  Has-add_event r {jo} {c'} h = record {
    journal = h.journal;
    event = find_event-append_result base r c'.events h.event;
    kept = record {
      files = h.kept.files;
      journals = h.kept.journals;
      events = λ i ne. find_event-append_other base r c'.events i ne ∙ h.kept.events i ne;
    };
  }
