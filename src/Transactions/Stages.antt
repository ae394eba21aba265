-- ===== src/Transactions/Stages.antt =====
-- The states of the canonical files between the first journal and the last, for one transaction.
use lit_grove.Prelude.{
  String, ◌≡◌, sym, ap, ◌∙◌, Bool, true, false, Option, none, some, List, [], ◌∷◌, ◌++◌,
  lookup-insert, string_eq, beq_refl, arith, if◌then◌else◌, ◌==◌,
}
use lit_grove.Transactions.State.{
  Bytes, Phase, prepared, target_replaced, event_recorded, complete, Outcome, success, failure,
  Journal, Event, Canonical, put_file, put_journal, add_event, journal_at, event_at, find_event,
}
use lit_grove.Transactions.Manager.{journal_event}

-- `prepared_new` and `success_logged` lie between a write and the journal's note of it.
pub data Stage : Type 0 where
  untouched prepared_old prepared_new replaced : Stage
  success_logged success_recorded success_done : Stage
  failure_logged failure_recorded failure_done : Stage
  unresolved : Stage

-- The journal as it was made, with the fields that change.
abbrev pub marked : Journal → Phase → Option Outcome → String → Journal
marked base p r u = record base { phase = p; result = r; updated_at = u }

abbrev pub stage_journal : Journal → String → Stage → Option Journal
stage_journal base u untouched = none
stage_journal base u prepared_old = some (marked base prepared none u)
stage_journal base u prepared_new = some (marked base prepared none u)
stage_journal base u replaced = some (marked base target_replaced none u)
stage_journal base u success_logged = some (marked base target_replaced none u)
stage_journal base u success_recorded = some (marked base event_recorded (some success) u)
stage_journal base u success_done = some (marked base complete (some success) u)
stage_journal base u failure_logged = some (marked base prepared none u)
stage_journal base u failure_recorded = some (marked base event_recorded (some failure) u)
stage_journal base u failure_done = some (marked base complete (some failure) u)
stage_journal base u unresolved =
    some (marked base Phase.needs_resolution (some Outcome.needs_resolution) u)

abbrev pub is_replaced : Stage → Bool
is_replaced untouched = false
is_replaced prepared_old = false
is_replaced failure_logged = false
is_replaced failure_recorded = false
is_replaced failure_done = false
is_replaced _ = true

abbrev pub logged : Stage → Option Outcome
logged success_logged = some success
logged success_recorded = some success
logged success_done = some success
logged failure_logged = some failure
logged failure_recorded = some failure
logged failure_done = some failure
logged _ = none

abbrev pub stage_event : Journal → Option Outcome → Option Event
stage_event base none = none
stage_event base (some r) = some (journal_event base r)

abbrev pub stage_file : Option Bytes → Bytes → Bool → Option Bytes
stage_file old new b = if b then some new else old

-- Everything but the transaction's own target, journal and event is as it was in `c0`.
pub record Frame (base : Journal) (c0 c : Canonical) : Type 0 where
  pub journals : (i : String) → (base.event_id == i) ≡ false → journal_at i c ≡ journal_at i c0
  pub events : (i : String) → (base.event_id == i) ≡ false → event_at i c ≡ event_at i c0
  pub files : (p : String) → (base.target_relative_path == p) ≡ false → c.files p ≡ c0.files p

-- `c` is at stage `s` of the transaction that began in `c0`.
pub record IsAt (base : Journal) (c0 : Canonical) (new : Bytes) (s : Stage) (c : Canonical)
    : Type 0 where
  pub stamp : String
  pub journal : journal_at base.event_id c ≡ stage_journal base stamp s
  pub file :
      c.files base.target_relative_path
      ≡ stage_file (c0.files base.target_relative_path) new (is_replaced s)
  pub event : event_at base.event_id c ≡ stage_event base (logged s)
  pub frame : Frame base c0 c

pub journal_at-put_journal :
    (j : Journal) (c : Canonical) → journal_at j.event_id (put_journal j c) ≡ some j
unfolding put_journal
journal_at-put_journal j c =
    rw (lookup-insert j.event_id j.event_id j c.journals, beq_refl j.event_id)

pub find_event-append :
    (e : Event) (es : List Event)
    → find_event e.event_id es ≡ none
    → find_event e.event_id (es ++ e ∷ []) ≡ some e
unfolding find_event
find_event-append e [] h = rw (beq_refl e.event_id)
find_event-append e (x ∷ es) h = ground (arith, find_event-append e es)

pub find_event-append_result :
    (base : Journal) (r : Outcome) (es : List Event)
    → find_event base.event_id es ≡ none
    → find_event base.event_id (es ++ journal_event base r ∷ []) ≡ some (journal_event base r)
unfolding journal_event
find_event-append_result base r es h = find_event-append (journal_event base r) es h

pub find_event-append_other :
    (base : Journal) (r : Outcome) (es : List Event) (i : String)
    → (base.event_id == i) ≡ false
    → find_event i (es ++ journal_event base r ∷ []) ≡ find_event i es
unfolding find_event journal_event
find_event-append_other base r [] i ne = rw ne
find_event-append_other base r (x ∷ es) i ne =
    ground (arith, find_event-append_other base r es i ne)

module _ (base : Journal) (c0 : Canonical) (new : Bytes) where
  -- Writing the journal of the next stage, where nothing else differs.
  pub put_journal-IsAt :
      (s t : Stage) (p : Phase) (r : Option Outcome) (u : String) {c : Canonical}
      → IsAt base c0 new s c
      → stage_journal base u t ≡ some (marked base p r u)
      → is_replaced t ≡ is_replaced s
      → logged t ≡ logged s
      → IsAt base c0 new t (put_journal (marked base p r u) c)
  unfolding put_journal
  put_journal-IsAt s t p r u {c} at e f g = record {
    stamp = u;
    journal = unfold put_journal in journal_at-put_journal (marked base p r u) c ∙ sym e;
    file = rw f at.file;
    event = rw g at.event;
    frame = record {
      journals = λ i ne.
          lookup-insert base.event_id i (marked base p r u) c.journals
          ∙ (rw ne (at.frame.journals i ne));
      events = at.frame.events;
      files = at.frame.files;
    };
  }

  -- Appending the event of the next stage.
  pub add_event-IsAt :
      (s t : Stage) (r : Outcome) {c : Canonical}
      → IsAt base c0 new s c
      → ((u : String) → stage_journal base u t ≡ stage_journal base u s)
      → is_replaced t ≡ is_replaced s
      → logged s ≡ none
      → logged t ≡ some r
      → IsAt base c0 new t (add_event (journal_event base r) c)
  unfolding add_event
  add_event-IsAt s t r {c} at e f g h = record {
    stamp = at.stamp;
    journal = at.journal ∙ sym (e at.stamp);
    file = rw f at.file;
    event =
        find_event-append_result base r c.events (at.event ∙ ap (stage_event base) g)
        ∙ ap (stage_event base) (sym h);
    frame = record {
      journals = at.frame.journals;
      events = λ i ne. find_event-append_other base r c.events i ne ∙ at.frame.events i ne;
      files = at.frame.files;
    };
  }

  -- Putting the content in place.
  pub put_file-IsAt :
      (s t : Stage) {c : Canonical}
      → IsAt base c0 new s c
      → ((u : String) → stage_journal base u t ≡ stage_journal base u s)
      → is_replaced t ≡ true
      → logged t ≡ logged s
      → IsAt base c0 new t (put_file base.target_relative_path new c)
  unfolding put_file
  put_file-IsAt s t {c} at e f g = record {
    stamp = at.stamp;
    journal = at.journal ∙ sym (e at.stamp);
    file = rw (f, beq_refl base.target_relative_path);
    event = rw g at.event;
    frame = record {
      journals = at.frame.journals;
      events = at.frame.events;
      files = λ q ne. rw ne (at.frame.files q ne);
    };
  }

-- The stages of the `try` block.
abbrev pub in_body : Stage → Bool
in_body untouched = false
in_body failure_logged = false
in_body failure_recorded = false
in_body failure_done = false
in_body _ = true

-- The variable `journal` is the journal as it was made, in some phase.
abbrev pub IsMarked : Journal → Journal → Type 0
IsMarked base j = (p : Phase) × (r : Option Outcome) × (u : String) × (j ≡ marked base p r u)

module _ (base : Journal) (c0 : Canonical) (new : Bytes) where
  abbrev pub AtSome : Canonical → Journal → Type 0
  AtSome c j = (s : Stage) × IsAt base c0 new s c

  abbrev pub InBody : Canonical → Journal → Type 0
  InBody c j = (s : Stage) × IsAt base c0 new s c × (in_body s ≡ true) × IsMarked base j

  -- `c` is at the stage `t`, and the variable holds the phase `p` with the result `r`.
  abbrev pub Reached : Stage → Phase → Option Outcome → Canonical → Journal → Type 0
  Reached t p r c j = IsAt base c0 new t c × ((u : String) × (j ≡ marked base p r u))

  pub in_some :
      (s : Stage) (c : Canonical) (j : Journal)
      → IsAt base c0 new s c
      → IsMarked base j
      → AtSome c j
  in_some s c j at m = (s, at)

  pub in_body_at :
      (s : Stage)
      → in_body s ≡ true
      → (c : Canonical) (j : Journal) → IsAt base c0 new s c
      → IsMarked base j
      → InBody c j
  in_body_at s b c j at m = (s, at, b, m)
