-- ===== src/Transactions/Recovery/Crash.antt =====
-- `promote_bytes` that a fault ends at any point, and one round of `recover` after it.
use lit_grove.Prelude.{
  Option, ℕ, ℕ, ◌≡◌, ◌≢◌, refl, ◌∙◌, Bool, true, false, none, some, List, string_eq, Memᴰ, ◌⊎◌, inl,
  inr,
}
use lit_grove.Transactions.State.{
  Bytes, Journal, Canonical, Temporary, of_journal, of_events, journal_at,
}
use lit_grove.Transactions.Action.{World, Rest, Exit}
use lit_grove.Transactions.FaultFree.{Sure, Sure-weaken, Returns, IsClean, quiet_rest}
use lit_grove.Transactions.Rules.{world, Ends}
use lit_grove.Transactions.Stages.{
  Stage, untouched, prepared_old, prepared_new, replaced, success_logged, success_recorded,
  success_done, failure_logged, failure_recorded, failure_done, unresolved, stage_file, is_replaced,
  IsAt,
}
use lit_grove.Transactions.Manager.{
  Env, Request, TransactionResult, file_sha256, promote_bytes, new_journal,
}
use lit_grove.Transactions.Manager.Body.{base}
use lit_grove.Transactions.Manager.Atomicity.{before, Ended, Done, promote_bytes-Ends}
use lit_grove.Transactions.Recovery.{recover_journal}
use lit_grove.Transactions.Recovery.Branches.{settled, stage_digest}
use lit_grove.Transactions.Recovery.Kept.{Kept}
use lit_grove.Transactions.Recovery.Settle.{Pending}
use lit_grove.Transactions.Recovery.Round.{Sure-recover_journal}

settled-is_replaced : (s : Stage) → is_replaced (settled s) ≡ is_replaced s
settled-is_replaced untouched = refl
settled-is_replaced prepared_old = refl
settled-is_replaced prepared_new = refl
settled-is_replaced replaced = refl
settled-is_replaced success_logged = refl
settled-is_replaced success_recorded = refl
settled-is_replaced success_done = refl
settled-is_replaced failure_logged = refl
settled-is_replaced failure_recorded = refl
settled-is_replaced failure_done = refl
settled-is_replaced unresolved = refl

module _ (env : Env) (new : Bytes) (c0 : Canonical) where
  digest_at_stage :
      (j : Journal) (s : Stage) (c : Canonical)
      → j.before_sha256 ≡ file_sha256 env j.target_relative_path c0
      → j.after_sha256 ≡ env.sha256 new
      → IsAt j c0 new s c
      → file_sha256 env j.target_relative_path c ≡ stage_digest j (is_replaced s)
  unfolding file_sha256
  digest_at_stage j s c b a at = go (is_replaced s) at.file
    where
      go :
          (r : Bool)
          → c.files j.target_relative_path ≡ stage_file (c0.files j.target_relative_path) new r
          → unfold file_sha256 in file_sha256 env j.target_relative_path c ≡ stage_digest j r
      go true e = rw (e, a) refl
      go false e = rw (e, b) refl

  IsAt-Pending :
      (j : Journal) (s : Stage) (c : Canonical)
      → j.before_sha256 ≡ file_sha256 env j.target_relative_path c0
      → j.after_sha256 ≡ env.sha256 new
      → IsAt j c0 new s c
      → Pending env j s c
  IsAt-Pending j s c b a at = record {
    stamp = at.stamp;
    journal = at.journal;
    digest = digest_at_stage j s c b a at;
    event = at.event;
  }

  Pending-IsAt :
      (j : Journal) (s : Stage) (c c' : Canonical)
      → IsAt j c0 new s c
      → Pending env j (settled s) c'
      → Kept j.event_id c c'
      → IsAt j c0 new (settled s) c'
  Pending-IsAt j s c c' at p k = record {
    stamp = p.stamp;
    journal = p.journal;
    file = rw (settled-is_replaced s) (k.files j.target_relative_path ∙ at.file);
    event = p.event;
    frame = record {
      journals = λ i ne. k.journals i ne ∙ at.frame.journals i ne;
      events = λ i ne. k.events i ne ∙ at.frame.events i ne;
      files = λ q ne. k.files q ∙ at.frame.files q ne;
    };
  }

module _ (env : Env) (req : Request) (c0 : Canonical)
    (changes : file_sha256 env req.target c0 ≢ some (env.sha256 req.content)) where
  -- The transaction, whose journal was made at the t-th clock reading, is over: the old content and a
  -- failure event, the new content and a success event, or the new content and a journal that asks
  -- for a manual resolution.
  abbrev pub Over : Canonical → Type 0
  Over c =
      (t : ℕ) × (IsAt (base env req c0 (before env req c0 changes) t) c0 req.content failure_done c
        ⊎ (IsAt (base env req c0 (before env req c0 changes) t) c0 req.content success_done c
            ⊎ IsAt (base env req c0 (before env req c0 changes) t) c0 req.content unresolved c))

  over :
      (t : ℕ) (s : Stage) (c c' : Canonical) (j : Journal)
      → IsAt (base env req c0 (before env req c0 changes) t) c0 req.content s c
      → journal_at req.event_id c ≡ some j
      → IsAt (base env req c0 (before env req c0 changes) t) c0 req.content (settled s) c'
      → Over c'
  unfolding new_journal
  over t untouched c c' j at e h = cc
  over t prepared_old c c' j at e h = (t, inl h)
  over t failure_logged c c' j at e h = (t, inl h)
  over t failure_recorded c c' j at e h = (t, inl h)
  over t failure_done c c' j at e h = (t, inl h)
  over t prepared_new c c' j at e h = (t, inr (inl h))
  over t replaced c c' j at e h = (t, inr (inl h))
  over t success_logged c c' j at e h = (t, inr (inl h))
  over t success_recorded c c' j at e h = (t, inr (inl h))
  over t success_done c c' j at e h = (t, inr (inl h))
  over t unresolved c c' j at e h = (t, inr (inr h))

  module _ (free : List Temporary) (no_journal_file : Memᴰ (of_journal req.event_id) free)
      (no_events_file : Memᴰ (of_events req.event_id) free) where
    recover_at :
        (t : ℕ) (s : Stage) (c : Canonical) (j j1 : Journal)
        → IsAt (base env req c0 (before env req c0 changes) t) c0 req.content s c
        → journal_at req.event_id c ≡ some j
        → Sure free (recover_journal env false c.events j) c j1 (λ _ c' j'. Over c')
    unfolding new_journal
    recover_at t s c j j1 at e =
        Sure-weaken free
          (Sure-recover_journal env free b c no_journal_file no_events_file changes c.events s j
            (IsAt-Pending env req.content c0 b s c refl refl at) refl e j1)
          (λ a c' j' h.
            over t s c c' j at e (Pending-IsAt env req.content c0 b s c c' at h.1.0 h.1.1))
      where
        b : Journal
        b = base env req c0 (before env req c0 changes) t

    Sure-crash :
        (j0 : Journal) (r : Rest) (j j1 : Journal)
        → journal_at req.event_id c0 ≡ none
        → journal_at req.event_id (promote_bytes env req (world c0 j0 r)).1.canonical ≡ some j
        → Sure free
            (recover_journal env false (promote_bytes env req (world c0 j0 r)).1.canonical.events j)
            (promote_bytes env req (world c0 j0 r)).1.canonical
            j1
            (λ _ c' j'. Over c')
    Sure-crash j0 r j j1 fresh e =
        go (promote_bytes env req (world c0 j0 r)) (promote_bytes-Ends env req c0 changes j0 r) e
      where
        from_end :
            (c : Canonical)
            → Ended env req c0 changes c j1
            → journal_at req.event_id c ≡ some j
            → Sure free (recover_journal env false c.events j) c j1 (λ _ c' j'. Over c')
        from_end c (inl same) e = cc
        from_end c (inr (t, (s, at))) e = recover_at t s c j j1 at e

        go :
            (x : Exit TransactionResult × World)
            → Ends (Done env req c0 changes) (Ended env req c0 changes) x
            → journal_at req.event_id x.1.canonical ≡ some j
            → Sure free
                (recover_journal env false x.1.canonical.events j)
                x.1.canonical
                j1
                (λ _ c' j'. Over c')
        go (Exit.returned a, w) (t, at) e = recover_at t success_done w.canonical j j1 at e
        go (Exit.raised f, w) h e = from_end w.canonical h e
        go (Exit.interrupted, w) h e = from_end w.canonical h e
        go (Exit.died, w) h e = from_end w.canonical h e

    -- Where the content's digest is not the target's and no journal has the event ID, whatever faults
    -- `promote_bytes` meets, and however it ends: if it has left a journal, then one round of `recover`
    -- for that journal, which meets no fault and no leftover temporary file of the journal or the log,
    -- returns, and the transaction is over.
    pub recover_journal-promote_bytes :
        (j0 : Journal) (r : Rest) (j j1 : Journal) (ts : List Temporary) (o : Option Temporary)
        (n : ℕ)
        → journal_at req.event_id c0 ≡ none
        → journal_at req.event_id (promote_bytes env req (world c0 j0 r)).1.canonical ≡ some j
        → IsClean free ts
        → Returns free
            (λ _ c' j'. Over c')
            (recover_journal env false
              (promote_bytes env req (world c0 j0 r)).1.canonical.events
              j
              (world (promote_bytes env req (world c0 j0 r)).1.canonical j1 (quiet_rest ts o n)))
    recover_journal-promote_bytes j0 r j j1 ts o n fresh e clean =
        (Sure-crash j0 r j j1 fresh e).at ts o n clean
