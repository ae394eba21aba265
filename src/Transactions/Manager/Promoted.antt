-- ===== src/Transactions/Manager/Promoted.antt =====
-- `promote_bytes` returns where no fault happens and nothing is in its way.
use lit_grove.Prelude.{
  ℕ, ◌+◌, String, ◌≡◌, refl, sym, false, Option, none, some, List, [], ◌∷◌, contains, subst, Memᴰ,
  string_eq,
}
use lit_grove.Transactions.State.{
  prepared, Journal, Canonical, Temporary, temporary_eq, of_target, of_journal, of_events, put_file,
  event_at, journal_at,
}
use lit_grove.Transactions.Action.{
  Exit, returned, World, Action, ◌>>◌, call, effect, write_fsynced_temp, replace_temp, without,
}
use lit_grove.Transactions.Rules.{world}
use lit_grove.Transactions.Stages.{Stage, IsAt, Reached, put_journal-IsAt, put_file-IsAt}
use lit_grove.Transactions.FaultFree.{
  Returns, Returns-bind, IsClean, quiet_rest, after-returned, temp_written, IsClean-replaced,
}
use lit_grove.Transactions.FaultFree.Writes.{Sure-write_journal}
use lit_grove.Transactions.Manager.{
  Env, Request, TransactionResult, phase_allows, promote_body, set_temporary, file_sha256,
  new_journal, except_base, clean_up, promote_bytes, conflicts, write_journal,
  ensure_event_id_available, refuse_used, start_journal,
}
use lit_grove.Transactions.Manager.Success.{from_replaced, Sure-from_replaced}

module _ (env : Env) (req : Request) where
  abbrev target_temp : Temporary
  target_temp = of_target req.target req.event_id

  abbrev result : Option String → TransactionResult
  result before_sha256 = record {
    event_id = req.event_id;
    target = req.target;
    before_sha256 = before_sha256;
    after_sha256 = env.sha256 req.content;
  }

  -- The `try` block up to the rename.
  body_start :
      (b : Option String) (c : Canonical) (j : Journal) (ts : List Temporary) (o : Option Temporary)
      (n : ℕ)
      → contains ts target_temp ≡ false
      → promote_body env req b (world c j (quiet_rest ts o n))
        ≡ from_replaced env (result b) (
            world
              (put_file req.target req.content c)
              j
              (quiet_rest (without target_temp (target_temp ∷ ts)) none n))
  unfolding promote_body call effect replace_temp
  body_start b c j ts o n e =
      after-returned (write_fsynced_temp target_temp)
        (λ _. do
          set_temporary (some target_temp)
          call
          call
          replace_temp target_temp (put_file req.target req.content)
          set_temporary none
          from_replaced env (result b))
        (world c j (quiet_rest ts o n)) (world c j (quiet_rest (target_temp ∷ ts) o n)) tt
        (temp_written target_temp c j ts o n e)

  -- The temporary files that a call opens after the rename.
  abbrev pub own : List Temporary
  own = of_journal req.event_id ∷ of_events req.event_id ∷ []

  module _ (c0 : Canonical) (n0 : ℕ) where
    abbrev pub before : Option String
    before = file_sha256 env req.target c0

    abbrev pub base : Journal
    base = new_journal env req before n0

    abbrev pub Promoted : TransactionResult → Canonical → Journal → Type 0
    Promoted a c j = (a ≡ result before) × IsAt base c0 req.content Stage.success_done c

    promote_body-Returns :
        (c : Canonical) (j : Journal) (ts : List Temporary) (o : Option Temporary) (n : ℕ)
        → Reached base c0 req.content Stage.prepared_old prepared none c j
        → IsClean (target_temp ∷ own) ts
        → Returns own Promoted (promote_body env req before (world c j (quiet_rest ts o n)))
    unfolding new_journal
    promote_body-Returns c j ts o n (at, m) (free, clean) =
        subst (Returns own Promoted) (sym (body_start before c j ts o n free)) (
          (Sure-from_replaced own env base c0 req.content (Memᴰ.head refl)
              (Memᴰ.tail (Memᴰ.head refl)) (result before) (put_file req.target req.content c) j
              (
                put_file-IsAt base c0 req.content Stage.prepared_old Stage.prepared_new at
                    (λ u. refl) refl refl,
                m,
              )).at
            (without target_temp (target_temp ∷ ts)) none n
            (IsClean-replaced target_temp own ts clean))

    except_base-Returns :
        (c : Canonical) (j : Journal) (ts : List Temporary) (o : Option Temporary) (n : ℕ)
        → Reached base c0 req.content Stage.prepared_old prepared none c j
        → IsClean (target_temp ∷ own) ts
        → Returns own Promoted (
            except_base
              (promote_body env req before)
              (clean_up env req)
              (world c j (quiet_rest ts o n)))
    unfolding clean_up
    except_base-Returns c j ts o n h clean =
        go (promote_body env req before (world c j (quiet_rest ts o n)))
          (promote_body-Returns c j ts o n h clean)
      where
        go :
            (x : Exit TransactionResult × World)
            → Returns own Promoted x
            → Returns own Promoted (clean_up env req x.0 x.1)
        go (returned a, w) q = q
        go (Exit.raised f, w) q = elim q [ ]
        go (Exit.interrupted, w) q = elim q [ ]
        go (Exit.died, w) q = elim q [ ]

    -- From the journal on.
    abbrev from_journal : Action TransactionResult
    from_journal = do
      write_journal env
      set_temporary none
      except_base (promote_body env req before) (clean_up env req)

    from_journal-Returns :
        (ts : List Temporary) (o : Option Temporary) (n : ℕ)
        → event_at req.event_id c0 ≡ none
        → journal_at req.event_id c0 ≡ none
        → IsClean (target_temp ∷ own) ts
        → Returns own Promoted (from_journal (world c0 base (quiet_rest ts o n)))
    unfolding new_journal phase_allows
    from_journal-Returns ts o n no_event no_journal clean =
        Returns-bind (target_temp ∷ own) own Promoted
          (λ _. Reached base c0 req.content Stage.prepared_old prepared none)
          (write_journal env (world c0 base (quiet_rest ts o n)))
          (λ _. do set_temporary none; except_base (promote_body env req before) (clean_up env req))
          ((Sure-write_journal (target_temp ∷ own) env c0 base (Memᴰ.tail (Memᴰ.head refl)) refl (
            put_journal-IsAt base c0 req.content Stage.untouched Stage.prepared_old prepared none
                (env.timestamp n0) fresh refl refl refl,
            (env.timestamp n0, refl),
          )).at
            ts o n clean)
          (λ _ c j ts1 o1 n1 h k. except_base-Returns c j ts1 none n1 h k)
      where
        fresh : IsAt base c0 req.content Stage.untouched c0
        fresh = record {
          stamp = "";
          journal = no_journal;
          file = refl;
          event = no_event;
          frame = record { journals = λ i ne. refl; events = λ i ne. refl; files = λ p ne. refl };
        }

  available :
      (id : String) (c : Canonical) (j : Journal) (ts : List Temporary) (o : Option Temporary)
      (n : ℕ)
      → event_at id c ≡ none
      → journal_at id c ≡ none
      → ensure_event_id_available id (world c j (quiet_rest ts o n))
        ≡ (returned tt, world c j (quiet_rest ts o n))
  unfolding ensure_event_id_available refuse_used call effect
  available id c j ts o n no_event no_journal = rw (no_event, no_journal)

  -- Where no fault happens, the digest that the caller expects is the target's, the event ID is unused
  -- and no temporary file of the call is left over, `promote_bytes` returns its result, with the content
  -- in place, its success event in the log and its journal complete, and touches nothing else.
  pub promote_bytes-Returns :
      (c0 : Canonical) (j0 : Journal) (ts : List Temporary) (o : Option Temporary) (n : ℕ)
      → conflicts req.expected_before (file_sha256 env req.target c0) ≡ false
      → event_at req.event_id c0 ≡ none
      → journal_at req.event_id c0 ≡ none
      → IsClean (target_temp ∷ own) ts
      → Returns own (Promoted c0 n) (promote_bytes env req (world c0 j0 (quiet_rest ts o n)))
  unfolding promote_bytes call effect
  promote_bytes-Returns c0 j0 ts o n expected no_event no_journal clean = rw expected (
      subst (Returns own (Promoted c0 n))
        (sym (
          after-returned (ensure_event_id_available req.event_id)
            (λ _. do start_journal (new_journal env req (before c0 n)); from_journal c0 n)
            (world c0 j0 (quiet_rest ts o n)) (world c0 j0 (quiet_rest ts o n)) tt
            (available req.event_id c0 j0 ts o n no_event no_journal)))
        (from_journal-Returns c0 n ts o (n + 1) no_event no_journal clean))
