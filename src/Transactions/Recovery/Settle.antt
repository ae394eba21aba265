-- ===== src/Transactions/Recovery/Settle.antt =====
-- Recovery of one transaction where no fault happens, from each of its stages.
use lit_grove.Prelude.{
  String, ◌≡◌, refl, sym, ap, ◌∙◌, true, Option, none, some, List, string_eq, subst, Memᴰ,
}
use lit_grove.Transactions.State.{
  Phase, prepared, target_replaced, event_recorded, complete, Outcome, success, failure, Journal,
  Canonical, Temporary, of_journal, of_events, event_at, journal_at,
}
use lit_grove.Transactions.Action.{Action, ◌>>◌}
use lit_grove.Transactions.FaultFree.{Sure, Sure-bind, Sure-pure, Sure-weaken}
use lit_grove.Transactions.Stages.{
  Stage, untouched, prepared_old, prepared_new, replaced, success_logged, success_recorded,
  success_done, failure_logged, failure_recorded, failure_done, unresolved, marked, stage_journal,
  stage_event, logged, is_replaced,
}
use lit_grove.Transactions.Manager.{Env, phase_allows, file_sha256, set_state}
use lit_grove.Transactions.Recovery.{
  ActionName, append_missing_failure_event, append_missing_success_event, append_missing, perform,
}
use lit_grove.Transactions.Recovery.Branches.{settled, stage_branch, stage_digest}
use lit_grove.Transactions.FaultFree.Writes.{Sure-set_state, Sure-append_result_event}
use lit_grove.Transactions.Recovery.Kept.{Kept, Has, Has-put_journal, Has-add_event}

-- The journal, the event and the digest of the target are those of the stage `s`.
pub record Pending (env : Env) (base : Journal) (s : Stage) (c : Canonical) : Type 0 where
  pub stamp : String
  pub journal : journal_at base.event_id c ≡ stage_journal base stamp s
  pub digest : file_sha256 env base.target_relative_path c ≡ stage_digest base (is_replaced s)
  pub event : event_at base.event_id c ≡ stage_event base (logged s)

module _ (env : Env) where
  same_digest :
      (path : String) (c c' : Canonical)
      → c'.files path ≡ c.files path
      → file_sha256 env path c' ≡ file_sha256 env path c
  unfolding file_sha256
  same_digest path c c' e = rw e

  -- Where the files, the journal and the event are the same, so is the stage.
  pub Pending-same :
      (base : Journal) (s : Stage) (c c' : Canonical)
      → ((p : String) → c'.files p ≡ c.files p)
      → journal_at base.event_id c' ≡ journal_at base.event_id c
      → event_at base.event_id c' ≡ event_at base.event_id c
      → Pending env base s c
      → Pending env base s c'
  Pending-same base s c c' f j e p = record {
    stamp = p.stamp;
    journal = j ∙ p.journal;
    digest = same_digest base.target_relative_path c c' (f base.target_relative_path) ∙ p.digest;
    event = e ∙ p.event;
  }

  module _ (free : List Temporary) (base : Journal) (c0 : Canonical)
      (no_journal_file : Memᴰ (of_journal base.event_id) free)
      (no_events_file : Memᴰ (of_events base.event_id) free) where
    abbrev pub Settles : Stage → Canonical → Journal → Type 0
    Settles s c j = Pending env base (settled s) c × Kept base.event_id c0 c

    -- The journal is complete with the result `r`, and the event says the same.
    abbrev Finished : Outcome → Canonical → Journal → Type 0
    Finished r c j = (u : String) × Has base c0 (some (marked base complete (some r) u)) (some r) c

    Finished-Pending :
        (s t : Stage) (r : Outcome) (c : Canonical)
        → ((u : String) → stage_journal base u t ≡ some (marked base complete (some r) u))
        → logged t ≡ some r
        → is_replaced t ≡ is_replaced s
        → Pending env base s c0
        → ((u : String) × Has base c0 (some (marked base complete (some r) u)) (some r) c)
        → Pending env base t c
    Finished-Pending s t r c e f g p (u, h) = record {
      stamp = u;
      journal = h.journal ∙ sym (e u);
      digest =
          same_digest base.target_relative_path c0 c (h.kept.files base.target_relative_path)
          ∙ p.digest
          ∙ ap (stage_digest base) (sym g);
      event = h.event ∙ ap (stage_event base) (sym f);
    }

    Sure-finish :
        (r : Outcome) (p' : Phase) (r' : Option Outcome) (u : String) {jo : Option Journal}
        (c : Canonical)
        → phase_allows complete (some r) ≡ true
        → Has base c0 jo (some r) c
        → Sure free (set_state env complete (some r)) c (marked base p' r' u) (λ _. Finished r)
    Sure-finish r p' r' u c ok h =
        Sure-set_state free env base complete p' (some r) r' u c no_journal_file ok
          (λ v. (v, Has-put_journal base c0 complete (some r) v h))

    -- The two `_set_state` after the event.
    Sure-record :
        (r : Outcome) (p' : Phase) (r' : Option Outcome) (u : String) {jo : Option Journal}
        (c : Canonical)
        → phase_allows event_recorded (some r) ≡ true
        → phase_allows complete (some r) ≡ true
        → Has base c0 jo (some r) c
        → Sure free
            (set_state env event_recorded (some r) >> set_state env complete none)
            c
            (marked base p' r' u)
            (λ _. Finished r)
    Sure-record r p' r' u c ok1 ok2 h =
        Sure-bind free
          {Q = λ _ c' j'.
            (v : String) × Has base c0 (some (marked base event_recorded (some r) v)) (some r) c'
            × (j' ≡ marked base event_recorded (some r) v)}
          (λ _. set_state env complete none)
          (Sure-set_state free env base event_recorded p' (some r) r' u c no_journal_file ok1
            (λ v. (v, Has-put_journal base c0 event_recorded (some r) v h, refl)))
          (λ _ c1 j1 h1.
            subst (λ j. Sure free (set_state env complete none) c1 j (λ _. Finished r)) (sym h1.2)
              (Sure-set_state free env base complete event_recorded none (some r) h1.0 c1
                no_journal_file ok2 (λ v. (v, Has-put_journal base c0 complete (some r) v h1.1))))

    Sure-append_missing :
        (r : Outcome) (a : ActionName) (p' : Phase) (r' : Option Outcome) (u : String)
        {jo : Option Journal} (c : Canonical)
        → phase_allows event_recorded (some r) ≡ true
        → phase_allows complete (some r) ≡ true
        → Has base c0 jo none c
        → Sure free (perform env (append_missing r a)) c (marked base p' r' u) (λ _. Finished r)
    unfolding perform
    Sure-append_missing r a p' r' u {jo} c ok1 ok2 h =
        Sure-bind free {Q = λ _ c' j'. Has base c0 jo (some r) c' × (j' ≡ marked base p' r' u)}
          (λ _. set_state env event_recorded (some r) >> set_state env complete none)
          (Sure-append_result_event free base r p' r' u c no_events_file h.event
            (Has-add_event base c0 r h, refl))
          (λ _ c1 j1 h1.
            subst
              (λ j.
                Sure free (set_state env event_recorded (some r) >> set_state env complete none) c1
                  j (λ _. Finished r))
              (sym h1.1) (Sure-record r p' r' u c1 ok1 ok2 h1.0))

    Kept-refl : Kept base.event_id c0 c0
    Kept-refl = record { files = λ p. refl; journals = λ i ne. refl; events = λ i ne. refl }

    begun :
        (s : Stage) (p : Pending env base s c0)
        → Has base c0 (stage_journal base p.stamp s) (logged s) c0
    begun s p = record { journal = p.journal; event = p.event; kept = Kept-refl }

    Sure-done :
        (s t : Stage) (r : Outcome) {m : Action (Unit {0})} {j : Journal}
        → settled s ≡ t
        → ((u : String) → stage_journal base u t ≡ some (marked base complete (some r) u))
        → logged t ≡ some r
        → is_replaced t ≡ is_replaced s
        → Pending env base s c0
        → Sure free m c0 j (λ _. Finished r)
        → Sure free m c0 j (λ _. Settles s)
    Sure-done s t r {m} {j} d e f g p sure = Sure-weaken free sure (λ _ c1 j1 h1. (
      subst (λ x. Pending env base x c1) (sym d) (Finished-Pending s t r c1 e f g p h1),
      h1.1.kept,
    ))

    -- `P` of the journal on disk, if there is one.
    abbrev OnDisk : (Journal → Type 0) → Option Journal → Type 0
    OnDisk P none = Unit
    OnDisk P (some j) = P j

    Sure-perform_stage :
        (s : Stage) (p : Pending env base s c0)
        → OnDisk
            (λ j. Sure free (perform env (stage_branch s)) c0 j (λ _. Settles s))
            (stage_journal base p.stamp s)
    unfolding perform phase_allows
    Sure-perform_stage untouched p = tt
    Sure-perform_stage prepared_old p =
        Sure-done prepared_old failure_done failure refl (λ u. refl) refl refl p
          (Sure-append_missing failure append_missing_failure_event prepared none p.stamp c0 refl
            refl (begun prepared_old p))
    Sure-perform_stage prepared_new p =
        Sure-done prepared_new success_done success refl (λ u. refl) refl refl p
          (Sure-append_missing success append_missing_success_event prepared none p.stamp c0 refl
            refl (begun prepared_new p))
    Sure-perform_stage replaced p =
        Sure-done replaced success_done success refl (λ u. refl) refl refl p
          (Sure-append_missing success append_missing_success_event target_replaced none p.stamp c0
            refl refl (begun replaced p))
    Sure-perform_stage success_logged p =
        Sure-done success_logged success_done success refl (λ u. refl) refl refl p
          (Sure-finish success target_replaced none p.stamp c0 refl (begun success_logged p))
    Sure-perform_stage success_recorded p =
        Sure-done success_recorded success_done success refl (λ u. refl) refl refl p
          (Sure-finish success event_recorded (some success) p.stamp c0 refl
            (begun success_recorded p))
    Sure-perform_stage failure_logged p =
        Sure-done failure_logged failure_done failure refl (λ u. refl) refl refl p
          (Sure-finish failure prepared none p.stamp c0 refl (begun failure_logged p))
    Sure-perform_stage failure_recorded p =
        Sure-done failure_recorded failure_done failure refl (λ u. refl) refl refl p
          (Sure-finish failure event_recorded (some failure) p.stamp c0 refl
            (begun failure_recorded p))
    Sure-perform_stage success_done p = Sure-pure free tt c0 _ (p, Kept-refl)
    Sure-perform_stage failure_done p = Sure-pure free tt c0 _ (p, Kept-refl)
    Sure-perform_stage unresolved p = Sure-pure free tt c0 _ (p, Kept-refl)

    pub Sure-perform :
        (s : Stage) (j : Journal)
        → Pending env base s c0
        → journal_at base.event_id c0 ≡ some j
        → Sure free (perform env (stage_branch s)) c0 j (λ _. Settles s)
    Sure-perform s j p e =
        subst (OnDisk (λ k. Sure free (perform env (stage_branch s)) c0 k (λ _. Settles s)))
          (sym p.journal ∙ e) (Sure-perform_stage s p)
