-- ===== src/Jobs/Service/Accepted.antt =====
-- What holds where `transition` has appended a state.
use lit_grove.Prelude.{
  ◌≡◌, refl, sym, ap, subst, Bool, true, false, not, Option, none, some, List, [], ◌∷◌, ◌++◌, map,
  contains, find, get_last?, not-false, ◌==◌, string_eq, if◌then◌else◌,
}
use lit_grove.Diagnostics.{Diagnostic, ok, err, raise_if, bind-ok, raise_if-ok}
use lit_grove.Jobs.State.{JobState}
use lit_grove.Jobs.Rules.{validate_transition, validate_running_progress, progress}
use lit_grove.Jobs.Chain.{Env, pipeline_job_chain_diagnostics, first_diagnostic}
use lit_grove.Jobs.Service.{
  Mutation, unchanged, appended, stored, Fresh, Ids, Transition, transition_intent, history_of,
  next_state, append_state, advance, replay, swap, check_request, swap_in, transition, read_states,
  expect, validate_id,
}

pub record Accepted (env : Env) (ids : Ids) (fresh : Fresh) (t : Transition) (file : List JobState)
    (s head expected : JobState) : Type 0 where
  pub request : check_request env ids t ≡ ok tt
  pub report : pipeline_job_chain_diagnostics env file ≡ []
  pub head_at : get_last? (history_of t.job_id file) ≡ some head
  pub expected_at :
      find (λ (x : JobState). x.state_id == t.expected_state_id) (history_of t.job_id file)
      ≡ some expected
  pub digest : (env.canonical_digest expected == t.expected_state_digest) ≡ true
  pub is_head : (head.state_id == t.expected_state_id) ≡ true
  pub new_id : contains (map (λ (x : JobState). x.state_id) file) fresh.state_id ≡ false
  pub state : s ≡ next_state env ids fresh t head
  pub after : pipeline_job_chain_diagnostics env (file ++ s ∷ []) ≡ []

pub first_diagnostic-ok :
    {A : Type 0} (ds : List Diagnostic) (a b : A)
    → first_diagnostic ds a ≡ ok b
    → (ds ≡ []) × (a ≡ b)
first_diagnostic-ok [] a b h = (refl, ap (λ r. elim r [ ok x ↦ x | err d ↦ a ]) h)
first_diagnostic-ok (d ∷ ds) a b h = cc

pub expect-ok :
    {A : Type 0} (o : Option A) (d : Diagnostic) (a : A) → expect o d ≡ ok a → o ≡ some a
expect-ok none d a h = cc
expect-ok (some x) d a h = ap (λ r. elim r [ ok y ↦ some y | err e ↦ some x ]) h

pub if_ok :
    {A : Type 0} (b : Bool) (a m : A) (d : Diagnostic) → (if b then ok a else err d) ≡ ok m → a ≡ m
if_ok true a m d h = ap (λ r. elim r [ ok x ↦ x | err e ↦ a ]) h
if_ok false a m d h = cc

module _ (env : Env) (ids : Ids) (file : List JobState) where
  pub append_state-ok :
      (s : JobState) (m : Mutation)
      → append_state env ids file s ≡ ok m
      → (pipeline_job_chain_diagnostics env (file ++ s ∷ []) ≡ []) × (appended s ≡ m)
  unfolding append_state
  append_state-ok s m h = first_diagnostic-ok _ (appended s) m h

module _ (env : Env) (ids : Ids) (fresh : Fresh) (t : Transition) (file : List JobState) where
  advance-ok :
      (head : JobState) (m : Mutation)
      → advance env ids fresh t file head ≡ ok m
      → (contains (map (λ (x : JobState). x.state_id) file) fresh.state_id ≡ false)
        × (pipeline_job_chain_diagnostics env (file ++ next_state env ids fresh t head ∷ []) ≡ [])
        × (appended (next_state env ids fresh t head) ≡ m)
  unfolding advance
  advance-ok head m h =
      let (u1, e1, h1) = bind-ok (validate_transition head.status t.status) _ m h in
      let (u2, e2, h2) =
        bind-ok (validate_running_progress (progress head) (transition_intent head t)) _ m h1 in
      let (u3, e3, h3) = bind-ok (validate_id ids.is_job_state "jobstate" fresh.state_id) _ m h2 in
      let (u4, e4, h4) =
        bind-ok (raise_if (contains (map (λ (x : JobState). x.state_id) file) fresh.state_id) _) _ m
          h3 in
      let (clean, made) = append_state-ok env ids file (next_state env ids fresh t head) m h4 in
      (raise_if-ok _ _ u4 e4, clean, made)

  replay-ok :
      (expected head : JobState) (m : Mutation)
      → replay env ids t expected head ≡ ok m
      → unchanged head ≡ m
  unfolding replay
  replay-ok expected head m h = if_ok _ (unchanged head) m _ h

  -- The compare-and-swap appends only what `advance` appends to the expected head.
  swap-ok :
      (head expected s : JobState)
      → swap env ids fresh t file head expected ≡ ok (appended s)
      → ((head.state_id == t.expected_state_id) ≡ true)
        × (advance env ids fresh t file head ≡ ok (appended s))
  unfolding swap
  swap-ok head expected s h =
      (elim (head.state_id == t.expected_state_id)
          as (λ b.
            (if b then advance env ids fresh t file head else replay env ids t expected head)
              ≡ ok (appended s)
            → (b ≡ true) × (advance env ids fresh t file head ≡ ok (appended s))) [
              | true ↦ λ k. (refl, k)
              | false ↦ λ k. (let e = replay-ok expected head (appended s) k in cc)
            ])
        h

  pub transition-ok :
      (s : JobState)
      → transition env ids fresh t file ≡ ok (appended s)
      → (head : JobState) × (expected : JobState) × Accepted env ids fresh t file s head expected
  unfolding transition swap_in
  transition-ok s h =
      let (u1, e1, h1) = bind-ok (check_request env ids t) _ (appended s) h in
      let (states, e2, h2) = bind-ok (read_states env file) _ (appended s) h1 in
      let (clean, same) = first_diagnostic-ok _ file states e2 in
      let h3 = subst (λ x. swap_in env ids fresh t x ≡ ok (appended s)) (sym same) h2 in
      let (head, e4, h4) =
        bind-ok (expect (get_last? (history_of t.job_id file)) _) _ (appended s) h3 in
      let (expected, e5, h5) =
        bind-ok
          (expect
            (find (λ (x : JobState). x.state_id == t.expected_state_id) (history_of t.job_id file))
            _)
          _ (appended s) h4 in
      let (u6, e6, h6) =
        bind-ok (raise_if (not (env.canonical_digest expected == t.expected_state_digest)) _) _
          (appended s) h5 in
      let (at_head, h7) = swap-ok head expected s h6 in
      let (new, clean_after, made) = advance-ok head (appended s) h7 in
      (
        head,
        expected,
        record {
          request = e1;
          report = clean;
          head_at = expect-ok _ _ head e4;
          expected_at = expect-ok _ _ expected e5;
          digest = (not-false _).0 (raise_if-ok _ _ u6 e6);
          is_head = at_head;
          new_id = new;
          state = sym (appended_is made);
          after =
              subst (λ x. pipeline_job_chain_diagnostics env (file ++ x ∷ []) ≡ [])
                (appended_is made) clean_after;
        },
      )
    where
      appended_is : {a b : JobState} → appended a ≡ appended b → a ≡ b
      appended_is {a} e = ap (λ m. elim m [ appended x ↦ x | unchanged x ↦ a ]) e

  -- A `transition` that returns leaves a store whose report is empty, whether it appends a state or finds
  -- the call already carried out.
  pub transition-stored :
      (m : Mutation)
      → transition env ids fresh t file ≡ ok m
      → pipeline_job_chain_diagnostics env (stored file m) ≡ []
  unfolding transition
  transition-stored (appended s) h = let (head, expected, a) = transition-ok s h in a.after
  transition-stored (unchanged s) h =
      let (u1, e1, h1) = bind-ok (check_request env ids t) _ (unchanged s) h in
      let (states, e2, h2) = bind-ok (read_states env file) _ (unchanged s) h1 in
      (first_diagnostic-ok _ file states e2).0
