-- ===== src/Transactions/Integrity/Examined.antt =====
-- The first loop of `transaction_integrity_diagnostics` (storage/transactions.py): each journal by itself.
use Prim.Native.String.{◌++◌ as append}
use lit_grove.Prelude.{
  ℕ, String, ◌≡◌, ◌↔◌, refl, ap, ◌∙◌, true, false, Bool, List, [], ◌∷◌, ◌++◌, All, flat_map,
  append-empty, string_eq, option_eq, if◌then◌else◌,
}
use lit_grove.Diagnostics.{Diagnostic, incomplete_transaction}
use lit_grove.Transactions.State.{complete, Journal, Event}
use lit_grove.Transactions.Manager.{journal_event}
use lit_grove.Transactions.Integrity.{
  Reading, unreadable, refused, accepted, JournalFile, Inspection, safe, os_error, unsafe, Disk,
  Completed, matching_events, event_position, event_diagnostics, target_key_eq, binding_diagnostics,
  examine_journal, examine, examine_all, is_complete, journal_diagnostic, phase_name, with_target,
}
use lit_grove.Transactions.Integrity.Sound.{
  IsSoundJournal, IsSound, completed_reading, completed_journals,
}
use lit_grove.Transactions.Integrity.Matching.{matching_events-only, event_diagnostics-eq-nil}
use lit_grove.Transactions.Integrity.Binding.{
  binding_diagnostics-eq-nil, is_complete-Settled, settled-is_complete,
}

some_item : (ds : List Diagnostic) (d : Diagnostic) → ds ++ d ∷ [] ≡ [] → ⊥
some_item ds d h = one ((append-empty ds _).0 h).1
  where
    one : d ∷ [] ≡ [] → ⊥
    one q = cc

module _ (disk : Disk) where
  module _ (events : List Event) where
    abbrev entry : String → Journal → Completed
    entry name j = record {
      name = name;
      journal = j;
      position = event_position (matching_events 0 j.event_id events);
    }

    examined_sound :
        (name : String) (j : Journal)
        → (examine_journal disk events name j).0 ≡ []
        → IsSoundJournal disk events name j
    unfolding examine_journal
    examined_sound name j =
        go (is_complete j.phase j.result) refl (disk.inspect j.target_relative_path) refl
      where
        found : List (ℕ × Event)
        found = matching_events 0 j.event_id events

        go :
            (b : Bool)
            → is_complete j.phase j.result ≡ b
            → (o : Inspection) → disk.inspect j.target_relative_path ≡ o
            → (if b
                then with_target o
                    (binding_diagnostics name j ++ event_diagnostics disk.str j found)
                    (entry name j)
                else (
                  binding_diagnostics name j
                      ++ journal_diagnostic incomplete_transaction j "/phase"
                          (append "transaction journal is not complete: " (phase_name j.phase))
                        ∷ [],
                  [],
                )).0
              ≡ []
            → IsSoundJournal disk events name j
        go false e o f h = absurd (some_item (binding_diagnostics name j) _ h)
        go true e (unsafe d) f h = absurd (some_item _ d h)
        go true e os_error f h = absurd (some_item _ _ h)
        go true e safe f h =
            let (bound, event) = (append-empty (binding_diagnostics name j) _).0 h in
            let (named, target) = (binding_diagnostics-eq-nil name j).0 bound in
            let s = is_complete-Settled j.phase j.result e in
            record {
              result = s.result;
              named = named;
              target = target;
              phase = s.phase;
              recorded = s.recorded;
              settled = s.settled;
              event =
                  (matching_events-only 0 j.event_id (journal_event j s.result) events).0
                    ((event_diagnostics-eq-nil disk.str j s.result found s.recorded).0 event);
              inspected = f;
            }

    sound_examined :
        (name : String) (j : Journal)
        → IsSoundJournal disk events name j
        → examine_journal disk events name j ≡ ([], entry name j ∷ [])
    unfolding examine_journal
    sound_examined name j s =
        ap (λ b. if b then with_target (disk.inspect j.target_relative_path) before c else late)
          complete_there
        ∙ ap (λ o. with_target o before c) s.inspected
        ∙ ap (λ ds. (ds, c ∷ [])) nothing
      where
        c : Completed
        c = entry name j

        found : List (ℕ × Event)
        found = matching_events 0 j.event_id events

        before : List Diagnostic
        before = binding_diagnostics name j ++ event_diagnostics disk.str j found

        late : List Diagnostic × List Completed
        late = (
          binding_diagnostics name j
              ++ journal_diagnostic incomplete_transaction j "/phase"
                  (append "transaction journal is not complete: " (phase_name j.phase))
                ∷ [],
          [],
        )

        complete_there : is_complete j.phase j.result ≡ true
        complete_there =
            ap (λ p. is_complete p j.result) s.phase
            ∙ ap (is_complete complete) s.recorded
            ∙ settled-is_complete s.result s.settled

        nothing : before ≡ []
        nothing = (append-empty (binding_diagnostics name j) _).1 (
          (binding_diagnostics-eq-nil name j).1 (s.named, s.target),
          (event_diagnostics-eq-nil disk.str j s.result found s.recorded).1
              ((matching_events-only 0 j.event_id (journal_event j s.result) events).1 s.event),
        )

    pub examine_all-IsSound :
        (files : List JournalFile)
        → ((examine_all disk events files).0 ≡ []) ↔ All (IsSound disk events) files
    unfolding examine_all examine
    examine_all-IsSound [] = (λ h. tt, λ h. refl)
    examine_all-IsSound (f ∷ files) =
        let again = examine_all-IsSound files in
        (
          λ h.
              (let (a, b) = (append-empty (examine disk events f.name f.content).0 _).0 h in
                (one f.content a, again.0 b)),
          λ h.
              (append-empty (examine disk events f.name f.content).0 _).1
                (none_of f.content h.0, again.1 h.1),
        )
      where
        one :
            (r : Reading)
            → (examine disk events f.name r).0 ≡ []
            → IsSound disk events (record { name = f.name; content = r })
        one (unreadable d) h = cc
        one (refused d ds) h = cc
        one (accepted j) h = examined_sound f.name j h

        none_of :
            (r : Reading)
            → IsSound disk events (record { name = f.name; content = r })
            → (examine disk events f.name r).0 ≡ []
        none_of (unreadable d) h = absurd h
        none_of (refused d ds) h = absurd h
        none_of (accepted j) h = ap (λ x. x.0) (sound_examined f.name j h)

    pub examine_all-completed :
        (files : List JournalFile)
        → All (IsSound disk events) files
        → (examine_all disk events files).1 ≡ completed_journals events files
    unfolding examine_all examine mathlib.Core.List.flat_map
    examine_all-completed [] h = refl
    examine_all-completed (f ∷ files) h =
        let again = examine_all-completed files h.1 in
        ap (λ cs. cs ++ (examine_all disk events files).1) (here f.content h.0)
        ∙ ap (λ cs. completed_reading events f.name f.content ++ cs) again
      where
        here :
            (r : Reading)
            → IsSound disk events (record { name = f.name; content = r })
            → (examine disk events f.name r).1 ≡ completed_reading events f.name r
        here (unreadable d) h = absurd h
        here (refused d ds) h = absurd h
        here (accepted j) h = ap (λ x. x.1) (sound_examined f.name j h)
