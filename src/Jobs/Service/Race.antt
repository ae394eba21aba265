-- ===== src/Jobs/Service/Race.antt =====
-- Two calls of `transition` that expect the same state.
use lit_grove.Prelude.{
  and_false, ◌≡◌, sym, ap, subst, true, false, List, [], ◌∷◌, ◌++◌, ◌==◌, string_eq, option_eq,
  get_last-append, find-append, beq-false, ne_of_beq,
}
use lit_grove.Diagnostics.{ok, err}
use lit_grove.Jobs.State.{JobState, status_eq}
use lit_grove.Jobs.Rules.{Progress, progress, progress_eq}
use lit_grove.Jobs.Chain.{Env}
use lit_grove.Jobs.Service.{
  appended, Fresh, Ids, Transition, transition_intent, history_of, next_state, replay, swap,
  check_request, swap_in, transition, cas_error,
}
use lit_grove.Jobs.Service.Accepted.{transition-ok}
use lit_grove.Jobs.Service.Replay.{history_of-append, head_job, new_is_not_expected}

module _ (env : Env) (ids : Ids) (fresh : Fresh) (t : Transition) (file : List JobState) where
  progress_differs :
      (s expected : JobState) (u : Transition)
      → (s.status == u.status) ≡ false
      → (progress s == transition_intent expected u) ≡ false
  progress_differs s expected u other =
      beq-false (progress s) (transition_intent expected u)
        (λ e. ne_of_beq s.status u.status other (ap (λ (x : Progress). x.status) e))

  -- Two calls expect the same state of a job and ask for different statuses: where the first has
  -- appended its state, the second, whose request is well formed, is refused with a write conflict.
  pub transition-conflict :
      (s : JobState) (again : Fresh) (u : Transition)
      → transition env ids fresh t file ≡ ok (appended s)
      → u.job_id ≡ t.job_id
      → u.expected_state_id ≡ t.expected_state_id
      → u.expected_state_digest ≡ t.expected_state_digest
      → check_request env ids u ≡ ok tt
      → (t.status == u.status) ≡ false
      → transition env ids again u (file ++ s ∷ [])
        ≡ err (cas_error u.expected_state_id "Pipeline Job current state changed before transition")
  unfolding transition swap_in swap replay next_state
  transition-conflict s again u h job id digest request other =
      let (head, expected, a) = transition-ok env ids fresh t file s h in
      rw
        (
          request,
          a.after,
          job,
          history_of-append t.job_id file s head
              (subst (λ x. (x.job_id == t.job_id) ≡ true) (sym a.state)
                (head_job env ids fresh t file head a.head_at))
              a.head_at (ap (λ (x : JobState). x.revision) a.state),
          get_last-append (history_of t.job_id file) s,
          id,
          find-append (λ (x : JobState). x.state_id == t.expected_state_id)
              (history_of t.job_id file) s expected a.expected_at,
          digest,
          a.digest,
          subst (λ (x : JobState). (x.state_id == t.expected_state_id) ≡ false) (sym a.state)
              (new_is_not_expected env ids fresh t file s head expected a),
        )
        (rw (
          progress_differs s expected u
              (subst (λ (x : JobState). (x.status == u.status) ≡ false) (sym a.state) other),
          and_false _,
        ))
