-- ===== src/Transactions/Recovery/Round.antt =====
-- One round of `recover` where no fault happens.
use lit_grove.Prelude.{
  String, ◌≡◌, ◌≢◌, refl, sym, ap, ◌∙◌, true, false, Option, none, some, List, string_eq, subst,
  subst₂, Memᴰ,
}
use lit_grove.Transactions.State.{
  Journal, Event, Canonical, Temporary, of_journal, of_events, event_at, journal_at, find_event,
}
use lit_grove.Transactions.Action.{Action, pure, gets, ◌>>=◌, ◌>>◌}
use lit_grove.Transactions.FaultFree.{Sure, Sure-bind, Sure-pure, Sure-gets, Sure-call}
use lit_grove.Transactions.Stages.{
  Stage, untouched, prepared_old, prepared_new, replaced, success_logged, success_recorded,
  success_done, failure_logged, failure_recorded, failure_done, unresolved, stage_journal,
  stage_event, logged,
}
use lit_grove.Transactions.Manager.{Env, phase_allows, file_sha256, validate_journal}
use lit_grove.Transactions.Recovery.{
  ActionName, Branch, branch, reported, perform, perform_unless, load_journal, recover_journal,
}
use lit_grove.Transactions.Recovery.Branches.{stage_branch, branch_at_stage}
use lit_grove.Transactions.FaultFree.Writes.{Sure-validate_journal}
use lit_grove.Transactions.Recovery.Settle.{Pending, Settles, Sure-perform}

module _ (env : Env) where
  module _ (free : List Temporary) (base : Journal) (c0 : Canonical)
      (no_journal_file : Memᴰ (of_journal base.event_id) free)
      (no_events_file : Memᴰ (of_events base.event_id) free) where
    round_branch : (events : List Event) (j : Journal) → Branch
    round_branch events j =
        branch j (find_event j.event_id events) (file_sha256 env j.target_relative_path c0)

    Valid : Option Journal → Type 0
    Valid none = Unit
    Valid (some j) =
        (j.event_id ≡ base.event_id)
        × (j.target_relative_path ≡ base.target_relative_path)
        × (phase_allows j.phase j.result ≡ true)

    stage_journal-Valid : (u : String) (s : Stage) → Valid (stage_journal base u s)
    unfolding phase_allows Valid
    stage_journal-Valid u untouched = tt
    stage_journal-Valid u prepared_old = (refl, refl, refl)
    stage_journal-Valid u prepared_new = (refl, refl, refl)
    stage_journal-Valid u replaced = (refl, refl, refl)
    stage_journal-Valid u success_logged = (refl, refl, refl)
    stage_journal-Valid u success_recorded = (refl, refl, refl)
    stage_journal-Valid u success_done = (refl, refl, refl)
    stage_journal-Valid u failure_logged = (refl, refl, refl)
    stage_journal-Valid u failure_recorded = (refl, refl, refl)
    stage_journal-Valid u failure_done = (refl, refl, refl)
    stage_journal-Valid u unresolved = (refl, refl, refl)

    Valid-on_disk :
        (s : Stage) (j : Journal)
        → Pending env base s c0
        → journal_at base.event_id c0 ≡ some j
        → Valid (some j)
    Valid-on_disk s j p e = subst Valid (sym p.journal ∙ e) (stage_journal-Valid p.stamp s)

    module _ (changes : base.before_sha256 ≢ some base.after_sha256) (events : List Event) where
      round_branch_at :
          (s : Stage) (j : Journal)
          → Pending env base s c0
          → find_event base.event_id events ≡ event_at base.event_id c0
          → journal_at base.event_id c0 ≡ some j
          → round_branch events j ≡ stage_branch s
      unfolding round_branch Valid
      round_branch_at s j p same e =
          let v = Valid-on_disk s j p e in
          ap (λ i. branch j (find_event i events) (file_sha256 env j.target_relative_path c0)) v.0
          ∙ ap (λ i. branch j (find_event base.event_id events) (file_sha256 env i c0)) v.1
          ∙ ap (λ o. branch j o (file_sha256 env base.target_relative_path c0)) (same ∙ p.event)
          ∙ ap (branch j (stage_event base (logged s))) p.digest
          ∙ branch_at_stage base changes p.stamp s j (sym p.journal ∙ e)

      abbrev after_validation : Journal → Action (Option ActionName)
      after_validation j = do
        b ← gets (λ w.
            branch j (find_event j.event_id events)
              (file_sha256 env j.target_relative_path w.canonical))
        perform_unless env false b
        pure (reported b)

      Sure-after_validation :
          (s : Stage) (j : Journal)
          → Pending env base s c0
          → round_branch events j ≡ stage_branch s
          → journal_at base.event_id c0 ≡ some j
          → Sure free (after_validation j) c0 j (λ a c j'.
            (a ≡ reported (stage_branch s))
            × Settles env free base c0 no_journal_file no_events_file s c j')
      unfolding round_branch
      Sure-after_validation s j p same e =
          Sure-bind free {Q = λ b c j'. (b ≡ stage_branch s) × (c ≡ c0) × (j' ≡ j)}
            (λ b. do perform_unless env false b; pure (reported b))
            (Sure-gets free _ c0 j (λ r. (same, refl, refl)))
            (λ b c1 j1 h.
              Sure-bind free {Q = λ _. Settles env free base c0 no_journal_file no_events_file s}
                (λ _. pure (reported b))
                (subst
                  (λ x.
                    Sure free (perform env x) c1 j1
                      (λ _. Settles env free base c0 no_journal_file no_events_file s))
                  (sym h.0)
                  (subst₂
                    (λ d k.
                      Sure free (perform env (stage_branch s)) d k
                        (λ _. Settles env free base c0 no_journal_file no_events_file s))
                    (sym h.1) (sym h.2)
                    (Sure-perform env free base c0 no_journal_file no_events_file s j p e)))
                (λ _ c2 j2 h2. Sure-pure free (reported b) c2 j2 (ap reported h.0, h2)))

      -- One round of the loop.
      pub Sure-recover_journal :
          (s : Stage) (j : Journal)
          → Pending env base s c0
          → find_event base.event_id events ≡ event_at base.event_id c0
          → journal_at base.event_id c0 ≡ some j
          → (j1 : Journal)
          → Sure free (recover_journal env false events j) c0 j1 (λ a c j'.
            (a ≡ reported (stage_branch s))
            × Settles env free base c0 no_journal_file no_events_file s c j')
      unfolding recover_journal Valid
      Sure-recover_journal s j p same e j1 =
          Sure-bind free {Q = λ _ c j'. c ≡ c0}
            (λ _. do load_journal env j; validate_journal j; after_validation j)
            (Sure-call free c0 j1 refl)
            (λ _ c1 j2 h1.
              subst
                (λ c.
                  Sure free (do load_journal env j; validate_journal j; after_validation j) c j2
                    (λ a c' j'.
                      (a ≡ reported (stage_branch s))
                      × Settles env free base c0 no_journal_file no_events_file s c' j'))
                (sym h1) (record { at = λ ts t n k. from_validation.at ts t n k }))
        where
          from_validation :
              Sure free
                (do validate_journal j; after_validation j)
                c0
                j
                (λ a c' j'.
                  (a ≡ reported (stage_branch s))
                  × Settles env free base c0 no_journal_file no_events_file s c' j')
          from_validation =
              Sure-bind free {Q = λ _ c j'. (c ≡ c0) × (j' ≡ j)} (λ _. after_validation j)
                (Sure-validate_journal free c0 j (Valid-on_disk s j p e).2 (refl, refl))
                (λ _ c1 j2 h.
                  subst₂
                    (λ c k. Sure free (after_validation j) c k (λ a c' j'.
                      (a ≡ reported (stage_branch s))
                      × Settles env free base c0 no_journal_file no_events_file s c' j'))
                    (sym h.0) (sym h.1)
                    (Sure-after_validation s j p (round_branch_at s j p same e) e))
