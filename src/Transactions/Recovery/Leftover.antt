-- ===== src/Transactions/Recovery/Leftover.antt =====
-- Recovery where a crash has left the temporary file of the journal.
use lit_grove.Prelude.{
  ℕ, ◌+◌, ◌≡◌, refl, sym, ap, true, false, Option, some, List, contains, subst, or_else,
}
use lit_grove.Transactions.State.{
  Phase, complete, Outcome, Journal, Event, Canonical, Temporary, temporary_eq, of_journal,
  find_event,
}
use lit_grove.Transactions.Action.{
  Exit, returned, raised, interrupted, died, os_error, pure, World, Action, call, effect, ◌>>=◌,
  finally, replace_temp, unlink, open_exclusive, write_fsynced_temp, atomic_write_bytes,
}
use lit_grove.Transactions.Rules.{world}
use lit_grove.Transactions.FaultFree.{quiet_rest}
use lit_grove.Transactions.Manager.{
  Env, phase_allows, file_sha256, validate_journal, write_journal, set_state,
}
use lit_grove.Transactions.Recovery.{finish, branch, reported, perform, recover_journal}

-- The action raises `FileExistsError`, with every file as it was.
abbrev pub IsStuck : {A : Type 0} → Canonical → List Temporary → Exit A × World → Type 0
IsStuck c ts (x, w) = (x ≡ raised os_error) × (w.canonical ≡ c) × (w.temporaries ≡ ts)

open_exclusive-IsStuck :
    (t : Temporary) (c : Canonical) (j : Journal) (ts : List Temporary) (o : Option Temporary)
    (n : ℕ)
    → contains ts t ≡ true
    → open_exclusive t (world c j (quiet_rest ts o n))
      ≡ (raised os_error, world c j (quiet_rest ts o n))
unfolding open_exclusive call effect
open_exclusive-IsStuck t c j ts o n e = rw e

abbrev stops : {A B : Type 0} → Exit A × World → (A → Action B) → Exit B × World
stops x f = ((λ _. x) >>= f) x.1

-- A failure, as the outcome of what would have come after.
abbrev recast : {A B : Type 0} → Exit A → Exit B
recast (raised e) = raised e
recast _ = raised os_error

IsStuck-stops :
    {A B : Type 0} (c : Canonical) (ts : List Temporary) (x : Exit A × World) (f : A → Action B)
    → IsStuck c ts x
    → IsStuck c ts (stops x f)
IsStuck-stops c ts (returned a, w) f (h, k, l) = cc
IsStuck-stops c ts (raised e, w) f (h, k, l) = (ap recast h, k, l)
IsStuck-stops c ts (interrupted, w) f (h, k, l) = cc
IsStuck-stops c ts (died, w) f (h, k, l) = cc

write-IsStuck :
    (t : Temporary) (f : Canonical → Canonical) (c : Canonical) (j : Journal) (ts : List Temporary)
    (o : Option Temporary) (n : ℕ)
    → contains ts t ≡ true
    → atomic_write_bytes t f (world c j (quiet_rest ts o n))
      ≡ (raised os_error, world c j (quiet_rest ts o n))
unfolding atomic_write_bytes write_fsynced_temp
write-IsStuck t f c j ts o n e =
    ap (λ x. stops (stops x (λ _. call)) (λ _. finally (replace_temp t f) (unlink t)))
      (open_exclusive-IsStuck t c j ts o n e)

module _ (env : Env) where
  set_state-IsStuck :
      (p : Phase) (r : Option Outcome) (c : Canonical) (j : Journal) (ts : List Temporary)
      (o : Option Temporary) (n : ℕ)
      → phase_allows p (or_else r j.result) ≡ true
      → contains ts (of_journal j.event_id) ≡ true
      → IsStuck c ts (set_state env p r (world c j (quiet_rest ts o n)))
  unfolding set_state write_journal validate_journal
  set_state-IsStuck p r c j ts o n ok e = rw ok (
      subst (IsStuck c ts) (sym (write-IsStuck (of_journal j.event_id) _ c _ ts o (n + 1) e))
        (refl, refl, refl))

  -- Where a crash has left the temporary file of a valid journal whose event is in the log, so that
  -- `recover` would only mark it complete (the branch `finish`), a round for it that meets no fault
  -- raises `FileExistsError`, and every canonical and temporary file is as it was.
  pub recover_journal-IsStuck :
      (events : List Event) (c : Canonical) (j j1 : Journal) (r : Outcome) (ts : List Temporary)
      (o : Option Temporary) (n : ℕ)
      → phase_allows j.phase j.result ≡ true
      → phase_allows complete (some r) ≡ true
      → branch j (find_event j.event_id events) (file_sha256 env j.target_relative_path c)
        ≡ finish r
      → contains ts (of_journal j.event_id) ≡ true
      → IsStuck c ts (recover_journal env false events j (world c j1 (quiet_rest ts o n)))
  unfolding recover_journal call effect validate_journal perform
  recover_journal-IsStuck events c j j1 r ts o n valid ok b e =
      rw (valid, b)
        (IsStuck-stops c ts (set_state env complete (some r) (world c j (quiet_rest ts o n)))
          (λ _. pure (reported (finish r))) (set_state-IsStuck complete (some r) c j ts o n ok e))
