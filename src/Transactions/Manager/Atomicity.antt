-- ===== src/Transactions/Manager/Atomicity.antt =====
-- However `promote_bytes` ends, nothing has changed or the canonical files are at a stage of the
-- transaction.
use lit_grove.Prelude.{
  ℕ, ◌+◌, String, ◌≡◌, ◌≢◌, refl, sym, false, Option, none, some, option_eq, ◌||◌, is_some, inl,
  inr, ◌⊎◌, subst, subst₂, string_eq, arith,
}
use lit_grove.Transactions.State.{
  Phase, prepared, phase_beq, Journal, Canonical, journal_at, event_at, put_journal,
}
use lit_grove.Transactions.Action.{
  Rest, Action, Exit, returned, raised, interrupted, died, World, ◌>>=◌, ◌>>◌, call, raise, gets,
  raise_if,
}
use lit_grove.Diagnostics.{write_conflict}
use lit_grove.Transactions.Rules.{
  Triple, Ends, world, Triple-bind, Triple-weaken, call-IsQuiet, Triple-gets, Triple-raise,
  Triple-raise_if,
}
use lit_grove.Transactions.Stages.{Stage, IsAt, AtSome, InBody, put_journal-IsAt}
use lit_grove.Transactions.Manager.{
  Env, Request, TransactionResult, phase_allows, file_sha256, new_journal, promote_body, clean_up,
  promote_bytes, handle_unless, ensure_event_id_available, refuse_used, start_journal,
  write_journal, set_temporary, except_base, stop, conflicts, transaction_error,
}
use lit_grove.Transactions.Manager.Steps.{Triple-write_journal}
use lit_grove.Transactions.Manager.Quiet.{
  set_temporary-IsQuiet, Triple-unlink_temporary, Triple-quiet,
}
use lit_grove.Transactions.Manager.Body.{base, Old, Triple-promote_body, Triple-handle_unless}

module _ (env : Env) (req : Request) (c0 : Canonical)
    (changes : file_sha256 env req.target c0 ≢ some (env.sha256 req.content)) where
  abbrev pub before : Option String
  before = file_sha256 env req.target c0

  clean_up-Ends :
      (t : ℕ) (x : Exit TransactionResult × World)
      → Ends
          (λ _ c j. IsAt (base env req c0 before t) c0 req.content Stage.success_done c)
          (InBody (base env req c0 before t) c0 req.content)
          x
      → Ends
          (λ _ c j. IsAt (base env req c0 before t) c0 req.content Stage.success_done c)
          (AtSome (base env req c0 before t) c0 req.content)
          (clean_up env req x.0 x.1)
  unfolding clean_up
  clean_up-Ends t (returned a, w) q = q
  clean_up-Ends t (raised e, w) q =
      (Triple-bind {Q = λ _. InBody (base env req c0 before t) c0 req.content}
          {f = λ _. do
            phase ← gets (λ v. v.journal.phase)
            handle_unless env (phase_beq phase Phase.needs_resolution) req.target
            raise e}
          (Triple-unlink_temporary w.canonical w.journal q (q.0, q.1))
          (λ _ c1 j1 h1.
            Triple-bind {Q = λ _. InBody (base env req c0 before t) c0 req.content}
              {f = λ phase. do
                handle_unless env (phase_beq phase Phase.needs_resolution) req.target
                raise e}
              (Triple-gets (λ v. v.journal.phase) c1 j1 (λ r. h1))
              (λ phase c2 j2 h2.
                Triple-bind {f = λ _. raise e}
                  (Triple-handle_unless env req c0 before t refl changes
                    (phase_beq phase Phase.needs_resolution) c2 j2 h2)
                  (λ _ c3 j3 h3. Triple-raise e c3 j3 h3)))).at
        w.rest
  clean_up-Ends t (interrupted, w) q =
      (Triple-bind {Q = λ _. InBody (base env req c0 before t) c0 req.content}
          {f = λ _. stop interrupted} (Triple-unlink_temporary w.canonical w.journal q (q.0, q.1))
          (λ _ c1 j1 h1. record { at = λ r. (h1.0, h1.1) })).at
        w.rest
  clean_up-Ends t (died, w) q = (q.0, q.1)

  -- The files are as they were, or at a stage of a transaction whose journal was made at some reading
  -- of the clock.
  abbrev pub Ended : Canonical → Journal → Type 0
  Ended c j = (c ≡ c0) ⊎ ((t : ℕ) × AtSome (base env req c0 before t) c0 req.content c j)

  abbrev pub Done : TransactionResult → Canonical → Journal → Type 0
  Done a c j = (t : ℕ) × IsAt (base env req c0 before t) c0 req.content Stage.success_done c

  -- From the first journal on.
  abbrev from_journal : Action TransactionResult
  from_journal = do
    write_journal env
    set_temporary none
    except_base (promote_body env req before) (clean_up env req)

  fresh-IsAt :
      (t : ℕ)
      → event_at req.event_id c0 ≡ none
      → journal_at req.event_id c0 ≡ none
      → IsAt (base env req c0 before t) c0 req.content Stage.untouched c0
  unfolding new_journal
  fresh-IsAt t e j = record {
    stamp = "";
    journal = j;
    file = refl;
    event = e;
    frame = record { journals = λ i ne. refl; events = λ i ne. refl; files = λ p ne. refl };
  }

  prepared-IsAt :
      (t : ℕ)
      → event_at req.event_id c0 ≡ none
      → journal_at req.event_id c0 ≡ none
      → IsAt
          (base env req c0 before t)
          c0
          req.content
          Stage.prepared_old
          (put_journal (base env req c0 before t) c0)
  unfolding new_journal
  prepared-IsAt t e j =
      put_journal-IsAt (base env req c0 before t) c0 req.content Stage.untouched Stage.prepared_old
        prepared none (env.timestamp t) (fresh-IsAt t e j) refl refl refl

  Triple-except_base :
      (t : ℕ) (c : Canonical) (j : Journal)
      → Old env req c0 before t c j
      → Triple
          (except_base (promote_body env req before) (clean_up env req))
          c
          j
          (λ _ c' j'. IsAt (base env req c0 before t) c0 req.content Stage.success_done c')
          (AtSome (base env req c0 before t) c0 req.content)
  Triple-except_base t c j h = record {
    at = λ r.
        clean_up-Ends t (promote_body env req before (world c j r))
          ((Triple-promote_body env req c0 before t c j h).at r);
  }

  Triple-from_journal :
      (t : ℕ)
      → event_at req.event_id c0 ≡ none
      → journal_at req.event_id c0 ≡ none
      → Triple from_journal c0 (base env req c0 before t) Done Ended
  unfolding new_journal phase_allows
  Triple-from_journal t e j =
      Triple-bind {Q = λ _. Old env req c0 before t}
        {f = λ _. do
          set_temporary none
          except_base (promote_body env req before) (clean_up env req)}
        (Triple-write_journal env c0 (base env req c0 before t) refl
          (prepared-IsAt t e j, (env.timestamp t, refl)) (inl refl)
          (inr (t, (Stage.prepared_old, prepared-IsAt t e j))))
        (λ _ c1 j1 h1.
          Triple-quiet (λ _. except_base (promote_body env req before) (clean_up env req))
            (Old env req c0 before t) (set_temporary-IsQuiet none) h1
            (λ c' j' h'. inr (t, (Stage.prepared_old, h'.0)))
            (λ c2 j2 h2.
              Triple-weaken (Triple-except_base t c2 j2 h2) (λ _ c3 j3 h3. (t, h3))
                (λ c3 j3 h3. inr (t, h3))))

  abbrev from_start : Action TransactionResult
  from_start = do start_journal (new_journal env req before); from_journal

  Triple-from_start :
      (j0 : Journal)
      → event_at req.event_id c0 ≡ none
      → journal_at req.event_id c0 ≡ none
      → Triple from_start c0 j0 Done Ended
  Triple-from_start j0 e j = record {
    at = λ r. (Triple-from_journal r.ticks e j).at (record r { ticks = r.ticks + 1 });
  }

  none_of_free :
      {A B : Type 0} (a : Option A) (b : Option B)
      → (is_some a || is_some b) ≡ false
      → (a ≡ none) × (b ≡ none)
  none_of_free a b h = ground arith

  Triple-refuse_used :
      (j0 : Journal)
      → Triple
          (refuse_used req.event_id)
          c0
          j0
          (λ _ c' j'.
            (c' ≡ c0) × (event_at req.event_id c0 ≡ none) × (journal_at req.event_id c0 ≡ none))
          Ended
  unfolding refuse_used
  Triple-refuse_used j0 = record {
    at = λ r.
        (Triple-raise_if
            {P = λ _ c' j'.
              (c' ≡ c0) × (event_at req.event_id c0 ≡ none) × (journal_at req.event_id c0 ≡ none)}
            (is_some (event_at req.event_id c0) || is_some (journal_at req.event_id c0))
            (transaction_error write_conflict "/event_id" (some req.event_id)
              "event ID is already in use")
            c0 j0 (λ free. (let (e, j) = none_of_free _ _ free in (refl, e, j))) (inl refl)).at
          r;
  }

  Triple-ensure_event_id_available :
      (j0 : Journal)
      → Triple
          (ensure_event_id_available req.event_id)
          c0
          j0
          (λ _ c' j'.
            (c' ≡ c0) × (event_at req.event_id c0 ≡ none) × (journal_at req.event_id c0 ≡ none))
          Ended
  unfolding ensure_event_id_available
  Triple-ensure_event_id_available j0 =
      Triple-quiet (λ _. refuse_used req.event_id) (λ c j. c ≡ c0) call-IsQuiet refl
        (λ c j h. inl h)
        (λ c1 j1 h1.
          subst
            (λ c.
              Triple (refuse_used req.event_id) c j1
                (λ _ c' j'.
                  (c' ≡ c0)
                  × (event_at req.event_id c0 ≡ none)
                  × (journal_at req.event_id c0 ≡ none))
                Ended)
            (sym h1) (Triple-refuse_used j1))

  abbrev from_check : Action TransactionResult
  from_check = do ensure_event_id_available req.event_id; from_start

  Triple-from_check : (j0 : Journal) → Triple from_check c0 j0 Done Ended
  Triple-from_check j0 =
      Triple-bind
        {Q = λ _ c' j'.
          (c' ≡ c0) × (event_at req.event_id c0 ≡ none) × (journal_at req.event_id c0 ≡ none)}
        {f = λ _. from_start} (Triple-ensure_event_id_available j0)
        (λ _ c1 j1 h1.
          subst (λ c. Triple from_start c j1 Done Ended) (sym h1.0)
            (Triple-from_start j1 h1.1 h1.2))

  abbrev from_digest : Option String → Action TransactionResult
  from_digest before_sha256 = do
    raise_if (conflicts req.expected_before before_sha256)
        (transaction_error write_conflict "" none "canonical target changed before promotion")
    ensure_event_id_available req.event_id
    start_journal (new_journal env req before_sha256)
    write_journal env
    set_temporary none
    except_base (promote_body env req before_sha256) (clean_up env req)

  Triple-from_digest : (j0 : Journal) → Triple (from_digest before) c0 j0 Done Ended
  Triple-from_digest j0 =
      Triple-bind {Q = λ _ c j. c ≡ c0} {f = λ _. from_check}
        (Triple-raise_if (conflicts req.expected_before before) _ c0 j0 (λ _. refl) (inl refl))
        (λ _ c1 j1 h1.
          subst (λ c. Triple from_check c j1 Done Ended) (sym h1) (Triple-from_check j1))

  Triple-read :
      (j0 : Journal)
      → Triple (gets (λ w. file_sha256 env req.target w.canonical) >>= from_digest) c0 j0 Done Ended
  Triple-read j0 =
      Triple-bind {Q = λ b c j. (b ≡ before) × (c ≡ c0)} {f = from_digest}
        (Triple-gets (λ w. file_sha256 env req.target w.canonical) c0 j0 (λ r. (refl, refl)))
        (λ b c1 j1 h1.
          subst₂ (λ b' c. Triple (from_digest b') c j1 Done Ended) (sym h1.0) (sym h1.1)
            (Triple-from_digest j1))

  -- The calls in front of the digest.
  Triple-checks :
      (m : Action TransactionResult)
      → ((j : Journal) → Triple m c0 j Done Ended)
      → (j0 : Journal) → Triple (do call; m) c0 j0 Done Ended
  Triple-checks m next j0 =
      Triple-quiet (λ _. m) (λ c j. c ≡ c0) call-IsQuiet refl (λ c j h. inl h)
        (λ c1 j1 h1. subst (λ c. Triple m c j1 Done Ended) (sym h1) (next j1))

  Triple-promote_bytes : (j0 : Journal) → Triple (promote_bytes env req) c0 j0 Done Ended
  unfolding promote_bytes
  Triple-promote_bytes =
      Triple-checks _ (Triple-checks _ (Triple-checks _ (Triple-checks _ Triple-read)))

  -- Where the content's digest is not the target's, whatever faults happen and wherever: a call of
  -- `promote_bytes` that returns has put the content in place, logged its one success event and
  -- completed its journal; however else it ends, nothing has changed, or the target, the journal and
  -- the event are at one of the stages of the transaction. No other file, journal or event is touched.
  pub promote_bytes-Ends :
      (j0 : Journal) (r : Rest) → Ends Done Ended (promote_bytes env req (world c0 j0 r))
  promote_bytes-Ends j0 r = (Triple-promote_bytes j0).at r
