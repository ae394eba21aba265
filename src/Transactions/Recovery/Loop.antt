-- ===== src/Transactions/Recovery/Loop.antt =====
-- `TransactionManager.recover` over all the journals, where no fault happens.
use lit_grove.Prelude.{
  Option, ℕ, String, ◌≡◌, ◌≢◌, refl, sym, ◌∙◌, false, some, List, [], ◌∷◌, map, ◌==◌, string_eq,
  All, All-map, All-both, Pairwise, All-sort_by, All-sorted_by, Pairwise-sort_by, sort_by,
  beq-false, ne_of_beq, subst, Memᴰ,
}
use lit_grove.Transactions.State.{
  Journal, Event, Canonical, Temporary, of_journal, of_events, event_at, journal_at, find_event,
}
use lit_grove.Transactions.Action.{call, ◌>>◌, Action, pure, gets, ◌>>=◌}
use lit_grove.Transactions.FaultFree.{
  Sure, Returns, IsClean, quiet_rest, Sure-bind, Sure-pure, Sure-call, Sure-weaken,
}
use lit_grove.Transactions.Rules.{world}
use lit_grove.Transactions.Stages.{Stage}
use lit_grove.Transactions.Manager.{Env}
use lit_grove.Transactions.Recovery.{ActionName, recover_journals, recover, by_name, prepend}
use lit_grove.Transactions.Recovery.Branches.{settled}
use lit_grove.Transactions.Recovery.Kept.{Kept}
use lit_grove.Transactions.Recovery.Settle.{Pending, Pending-same}
use lit_grove.Transactions.Recovery.Round.{Sure-recover_journal}

abbrev pub Differ : Journal → Journal → Type 0
Differ a b = (a.event_id == b.event_id) ≡ false

Differ-sym : (a b : Journal) → Differ a b → Differ b a
Differ-sym a b d = beq-false b.event_id a.event_id (λ e. ne_of_beq a.event_id b.event_id d (sym e))

module _ (env : Env) (free : List Temporary) (stage_of : Journal → Stage) where
  -- The journal `j` of `c` can be recovered: its transaction is at its stage, which the digests tell,
  -- and no leftover temporary file is in the way.
  pub record Ready (events : List Event) (c : Canonical) (j : Journal) : Type 0 where
    pub changes : j.before_sha256 ≢ some j.after_sha256
    pub pending : Pending env j (stage_of j) c
    pub on_disk : journal_at j.event_id c ≡ some j
    pub recorded : find_event j.event_id events ≡ event_at j.event_id c
    pub no_journal_file : Memᴰ (of_journal j.event_id) free
    pub no_events_file : Memᴰ (of_events j.event_id) free

  Ready-Kept :
      (id : String) (events : List Event) (c c' : Canonical) (j : Journal)
      → (id == j.event_id) ≡ false
      → Kept id c c'
      → Ready events c j
      → Ready events c' j
  Ready-Kept id events c c' j ne k r = record {
    changes = r.changes;
    pending =
        Pending-same env j (stage_of j) c c' k.files (k.journals j.event_id ne)
          (k.events j.event_id ne) r.pending;
    on_disk = k.journals j.event_id ne ∙ r.on_disk;
    recorded = r.recorded ∙ sym (k.events j.event_id ne);
    no_journal_file = r.no_journal_file;
    no_events_file = r.no_events_file;
  }

  abbrev pub Settled : Canonical → Journal → Type 0
  Settled c j = Pending env j (settled (stage_of j)) c

  -- No file and no other transaction's journal or event is touched.
  pub record KeptBeside (js : List Journal) (c c' : Canonical) : Type 0 where
    pub files : (p : String) → c'.files p ≡ c.files p
    pub journals :
        (i : String) → All (λ j. (j.event_id == i) ≡ false) js → journal_at i c' ≡ journal_at i c
    pub events :
        (i : String) → All (λ j. (j.event_id == i) ≡ false) js → event_at i c' ≡ event_at i c

  KeptBeside-cons :
      (j : Journal) (js : List Journal) (c c' c'' : Canonical)
      → Kept j.event_id c c'
      → KeptBeside js c' c''
      → KeptBeside (j ∷ js) c c''
  KeptBeside-cons j js c c' c'' k b = record {
    files = λ p. b.files p ∙ k.files p;
    journals = λ i ne. b.journals i ne.1 ∙ k.journals i ne.0;
    events = λ i ne. b.events i ne.1 ∙ k.events i ne.0;
  }

  -- The journal of one round stays settled in the later ones.
  Settled-KeptBeside :
      (j : Journal) (js : List Journal) (c c' : Canonical)
      → All (Differ j) js
      → KeptBeside js c c'
      → Settled c j
      → Settled c' j
  Settled-KeptBeside j js c c' d b p =
      let ne = All-map js (λ k e. Differ-sym j k e) d in
      Pending-same env j (settled (stage_of j)) c c' b.files (b.journals j.event_id ne)
        (b.events j.event_id ne) p

  abbrev pub AllSettled : List Journal → Canonical → Canonical → Type 0
  AllSettled js c c' = All (Settled c') js × KeptBeside js c c'

  Sure-recover_journals :
      (events : List Event) (js : List Journal)
      → Pairwise Differ js
      → (c : Canonical) (j1 : Journal) → All (Ready events c) js
      → Sure free (recover_journals env false events js) c j1 (λ _ c' j'. AllSettled js c c')
  unfolding recover_journals
  Sure-recover_journals events [] d c j1 r =
      Sure-pure free [] c j1
        (tt, record { files = λ p. refl; journals = λ i ne. refl; events = λ i ne. refl })
  Sure-recover_journals events (j ∷ js) d c j1 r =
      Sure-bind free {Q = λ _ c' j'. Settled c' j × Kept j.event_id c c'}
        (λ a. do
          actions ← recover_journals env false events js
          pure (prepend j.event_id a actions))
        (Sure-weaken free
          (Sure-recover_journal env free j c r.0.no_journal_file r.0.no_events_file r.0.changes
            events (stage_of j) j r.0.pending r.0.recorded r.0.on_disk j1)
          (λ a c' j' h. h.1))
        (λ a c' j' h.
          Sure-bind free {Q = λ _ c'' j''. AllSettled js c' c''}
            (λ actions. pure (prepend j.event_id a actions))
            (Sure-recover_journals events js d.1 c' j'
              (All-both js (λ k e q. Ready-Kept j.event_id events c c' k e h.1 q) d.0 r.1))
            (λ actions c'' j'' q. Sure-pure free (prepend j.event_id a actions) c'' j'' (
              (Settled-KeptBeside j js c' c'' d.0 q.1 h.0, q.0),
              KeptBeside-cons j js c c' c'' h.1 q.1,
            )))

  abbrev pub journals_of : Canonical → List Journal
  journals_of c = map (λ (e : String × Journal). e.1) c.journals

  AllSettled-sorted :
      (js : List Journal) (c c' : Canonical)
      → AllSettled (sort_by by_name js) c c'
      → AllSettled js c c'
  AllSettled-sorted js c c' (s, k) = (
    All-sorted_by by_name (Settled c') js s,
    record {
      files = k.files;
      journals = λ i ne. k.journals i (All-sort_by by_name _ js ne);
      events = λ i ne. k.events i (All-sort_by by_name _ js ne);
    },
  )

  Sure-recover :
      (c : Canonical) (j1 : Journal)
      → Pairwise Differ (journals_of c)
      → All (Ready c.events c) (journals_of c)
      → Sure free (recover env false) c j1 (λ _ c' j'. AllSettled (journals_of c) c c')
  unfolding recover
  Sure-recover c j1 d r =
      Sure-bind free {Q = λ _ c' j'. c' ≡ c} (λ _. locked) (Sure-call free c j1 refl)
        (λ _ c1 j2 h1.
          subst (λ x. Sure free locked x j2 Settles) (sym h1)
            (Sure-bind free {Q = λ _ c' j'. c' ≡ c} read (Sure-call free c j2 refl) (λ _ c2 j3 h2.
              subst (λ x. Sure free (read tt) x j3 Settles) (sym h2)
                (record { at = λ ts t n k. (settles j3).at ts t n k }))))
    where
      Settles : List (String × ActionName) → Canonical → Journal → Type 0
      Settles _ c' j' = AllSettled (journals_of c) c c'

      read : Unit {0} → Action (List (String × ActionName))
      read _ = do
        events ← gets (λ w. w.canonical.events)
        journals ←
            gets (λ w. sort_by by_name (map (λ (e : String × Journal). e.1) w.canonical.journals))
        recover_journals env false events journals

      locked : Action (List (String × ActionName))
      locked = do call; read tt

      settles :
          (j2 : Journal)
          → Sure free
              (recover_journals env false c.events (sort_by by_name (journals_of c)))
              c
              j2
              (λ _ c' j'. AllSettled (journals_of c) c c')
      settles j2 =
          Sure-weaken free
            (Sure-recover_journals c.events (sort_by by_name (journals_of c))
              (Pairwise-sort_by by_name Differ-sym (journals_of c) d) c j2
              (All-sort_by by_name (Ready c.events c) (journals_of c) r))
            (λ a c' j' h. AllSettled-sorted (journals_of c) c c' h)

  -- Where no fault happens and the journals on disk have different event IDs and can each be recovered,
  -- `recover` returns with every transaction settled; the target files are as they were, and so are the
  -- journals and the events of every other ID.
  pub recover-Returns :
      (c : Canonical) (j1 : Journal) (ts : List Temporary) (o : Option Temporary) (n : ℕ)
      → Pairwise Differ (journals_of c)
      → All (Ready c.events c) (journals_of c)
      → IsClean free ts
      → Returns free
          (λ _ c' j'. AllSettled (journals_of c) c c')
          (recover env false (world c j1 (quiet_rest ts o n)))
  recover-Returns c j1 ts o n d r clean = (Sure-recover c j1 d r).at ts o n clean
