-- ===== src/Jobs/Service/Ending.antt =====
-- What `cancel` and `recover` append.
use lit_grove.Prelude.{String, ◌≡◌, ap, true, none, some, List, [], ◌∷◌, ◌++◌}
use lit_grove.Diagnostics.{ok, bind-ok}
use lit_grove.Jobs.State.{cancelled, recovering, transaction_recovery, JobState}
use lit_grove.Jobs.Chain.{Env, pipeline_job_chain_diagnostics}
use lit_grove.Jobs.Service.{appended, Fresh, Ids, next_state, current_state, cancel, recover_job}
use lit_grove.Jobs.Service.Accepted.{transition-ok}

module _ (env : Env) (ids : Ids) (fresh : Fresh) (job_id id digest actor : String)
    (file : List JobState) where
  -- A `cancel` that appends a state appends a cancelled one, which is terminal, has no wait reason and
  -- carries no recovery action; the report on the store with it is empty.
  pub cancel-appended :
      (s : JobState)
      → cancel env ids fresh job_id id digest actor file ≡ ok (appended s)
      → (s.status ≡ cancelled)
        × (s.terminal_receipt ≡ true)
        × (s.wait_reason ≡ none)
        × (s.recovery_action ≡ none)
        × (pipeline_job_chain_diagnostics env (file ++ s ∷ []) ≡ [])
  unfolding cancel next_state
  cancel-appended s h =
      let (head, e1, h1) = bind-ok (current_state env ids job_id file) _ (appended s) h in
      let (last, expected, a) = transition-ok env ids fresh _ file s h1 in
      (
        ap (λ (x : JobState). x.status) a.state,
        ap (λ (x : JobState). x.terminal_receipt) a.state,
        ap (λ (x : JobState). x.wait_reason) a.state,
        ap (λ (x : JobState). x.recovery_action) a.state,
        a.after,
      )

  -- A `recover` that appends a state appends one that waits for the transaction recovery with the given
  -- action; the report on the store with it is empty.
  pub recover_job-appended :
      (action : String) (s : JobState)
      → recover_job env ids fresh job_id id digest action actor file ≡ ok (appended s)
      → (s.status ≡ recovering)
        × (s.wait_reason ≡ some transaction_recovery)
        × (s.recovery_action ≡ some action)
        × (pipeline_job_chain_diagnostics env (file ++ s ∷ []) ≡ [])
  unfolding recover_job next_state
  recover_job-appended action s h =
      let (head, e1, h1) = bind-ok (current_state env ids job_id file) _ (appended s) h in
      let (last, expected, a) = transition-ok env ids fresh _ file s h1 in
      (
        ap (λ (x : JobState). x.status) a.state,
        ap (λ (x : JobState). x.wait_reason) a.state,
        ap (λ (x : JobState). x.recovery_action) a.state,
        a.after,
      )
