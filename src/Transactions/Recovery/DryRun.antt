-- ===== src/Transactions/Recovery/DryRun.antt =====
-- A dry run of `recover` writes nothing.
use lit_grove.Prelude.{String, ◌≡◌, refl, not, sort_by, map, true, List, [], ◌∷◌}
use lit_grove.Transactions.State.{Journal, Event, Canonical, find_event}
use lit_grove.Transactions.Action.{World, Rest, Action, pure, gets, ◌>>=◌, call}
use lit_grove.Transactions.Rules.{
  world, Ends, Triple, Triple-bind, Triple-pure, Triple-gets, Triple-raise_if, call-IsQuiet,
}
use lit_grove.Transactions.Manager.{Env, validate_journal, phase_allows, file_sha256}
use lit_grove.Transactions.Recovery.{
  recover, recover_journal, recover_journals, load_journal, branch, by_name, reported, prepend,
}

module _ (env : Env) (c0 : Canonical) where
  -- Whatever the faults, and however it ends, the canonical files stay as in `c0`.
  record Stays {A : Type 0} (m : Action A) : Type 0 where
    from :
        (c : Canonical) (j : Journal)
        → c ≡ c0
        → Triple m c j (λ _ c' j'. c' ≡ c0) (λ c' j'. c' ≡ c0)

  Stays-bind :
      {A B : Type 0} {m : Action A} (f : A → Action B)
      → Stays m
      → ((a : A) → Stays (f a))
      → Stays (m >>= f)
  Stays-bind f first next = record {
    from = λ c j h.
        Triple-bind {Q = λ _ c' j'. c' ≡ c0} {f = f} (first.from c j h)
          (λ a c' j' h'. (next a).from c' j' h');
  }

  Stays-pure : {A : Type 0} (a : A) → Stays (pure a)
  Stays-pure a = record { from = λ c j h. Triple-pure a c j h }

  Stays-gets : {A : Type 0} (g : World → A) → Stays (gets g)
  Stays-gets g = record { from = λ c j h. Triple-gets g c j (λ r. h) }

  Stays-call : Stays call
  Stays-call = record {
    from = λ c j h. call-IsQuiet.triple {P = λ _ c' j'. c' ≡ c0} {X = λ c' j'. c' ≡ c0} c j h h;
  }

  Stays-load_journal : (j : Journal) → Stays (load_journal env j)
  Stays-load_journal j = record { from = λ c j1 h. record { at = λ r. h } }

  Stays-validate_journal : (j : Journal) → Stays (validate_journal j)
  unfolding validate_journal
  Stays-validate_journal j = record {
    from = λ c j1 h. Triple-raise_if (not (phase_allows j.phase j.result)) _ c j1 (λ _. h) h;
  }

  Stays-recover_journal :
      (events : List Event) (j : Journal) → Stays (recover_journal env true events j)
  unfolding recover_journal
  Stays-recover_journal events j = Stays-bind _ Stays-call (λ _.
      Stays-bind _ (Stays-load_journal j) (λ _. Stays-bind _ (Stays-validate_journal j) (λ _.
        Stays-bind _
          (Stays-gets (λ w.
            branch j (find_event j.event_id events)
              (file_sha256 env j.target_relative_path w.canonical)))
          (λ b. Stays-bind _ (Stays-pure tt) (λ _. Stays-pure (reported b))))))

  Stays-recover_journals :
      (events : List Event) (js : List Journal) → Stays (recover_journals env true events js)
  unfolding recover_journals
  Stays-recover_journals events [] = Stays-pure []
  Stays-recover_journals events (j ∷ js) = Stays-bind _ (Stays-recover_journal events j) (λ a.
      Stays-bind _ (Stays-recover_journals events js)
        (λ actions. Stays-pure (prepend j.event_id a actions)))

  Triple-recover_dry :
      (j0 : Journal) → Triple (recover env true) c0 j0 (λ _ c' j'. c' ≡ c0) (λ c' j'. c' ≡ c0)
  unfolding recover
  Triple-recover_dry j0 =
      (Stays-bind _ Stays-call (λ _. Stays-bind _ Stays-call (λ _.
          Stays-bind _ (Stays-gets (λ w. w.canonical.events)) (λ events.
            Stays-bind _
              (Stays-gets
                (λ w. sort_by by_name (map (λ (e : String × Journal). e.1) w.canonical.journals)))
              (λ journals. Stays-recover_journals events journals))))).from
        c0 j0 refl

  -- Whatever faults a dry run of `recover` meets, and however it ends, every canonical file is as it was.
  pub recover-Ends :
      (j0 : Journal) (r : Rest)
      → Ends (λ _ c' j'. c' ≡ c0) (λ c' j'. c' ≡ c0) (recover env true (world c0 j0 r))
  recover-Ends j0 r = (Triple-recover_dry j0).at r
