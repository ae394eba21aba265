-- ===== src/Jobs/Service/Creating.antt =====
-- What `create` leaves in the store.
use lit_grove.Prelude.{
  String, ◌≡◌, subst, sym, not, Option, none, some, List, [], find, ◌==◌, ◌||◌, ◌&&◌, contains, map,
  string_eq, nat_eq,
}
use lit_grove.Diagnostics.{ok, raise_if, bind-ok}
use lit_grove.Jobs.State.{Authority, JobState}
use lit_grove.Jobs.Chain.{Env, pipeline_job_chain_diagnostics, current_pipeline_states}
use lit_grove.Jobs.Service.{
  Mutation, unchanged, stored, Fresh, Ids, read_states, expect, validate_id, has_duplicates,
}
use lit_grove.Jobs.Service.Create.{
  Creation, first_state, normalize_authority_snapshot, answer, answer_bound, create_new, create,
  has_intent,
}
use lit_grove.Jobs.Service.Accepted.{append_state-ok, if_ok, first_diagnostic-ok}

module _ (env : Env) (ids : Ids) (workspace_id : String) (fresh : Fresh) (c : Creation)
    (file : List JobState) where
  create_new-stored :
      (authority : Authority) (m : Mutation)
      → create_new env ids workspace_id fresh c authority file ≡ ok m
      → pipeline_job_chain_diagnostics env (stored file m) ≡ []
  unfolding create_new
  create_new-stored authority m h =
      let (u1, e1, h1) = bind-ok (validate_id ids.is_job "job" fresh.job_id) _ m h in
      let (u2, e2, h2) = bind-ok (validate_id ids.is_job_state "jobstate" fresh.state_id) _ m h1 in
      let (u3, e3, h3) =
        bind-ok
          (raise_if
            (contains (map (λ (s : JobState). s.job_id) file) fresh.job_id
              || contains (map (λ (s : JobState). s.state_id) file) fresh.state_id)
            _)
          _ m h2 in
      let (clean, made) =
        append_state-ok env ids file (first_state env ids workspace_id fresh c authority) m h3 in
      subst (λ x. pipeline_job_chain_diagnostics env (stored file x) ≡ []) made clean

  answer_bound-stored :
      (authority : Authority) (existing : JobState) (m : Mutation)
      → answer_bound env ids workspace_id c authority file existing ≡ ok m
      → pipeline_job_chain_diagnostics env file ≡ []
      → pipeline_job_chain_diagnostics env (stored file m) ≡ []
  unfolding answer_bound
  answer_bound-stored authority existing m h clean =
      let (root, e1, h1) =
        bind-ok
          (expect (find (λ (s : JobState). s.job_id == existing.job_id && s.revision == 1) file) _)
          _ m h in
      subst (λ x. pipeline_job_chain_diagnostics env (stored file x) ≡ [])
        (if_ok (has_intent root c authority) (unchanged existing) m _ h1) clean

  answer-stored :
      (authority : Authority) (o : Option JobState) (m : Mutation)
      → answer env ids workspace_id fresh c authority file o ≡ ok m
      → pipeline_job_chain_diagnostics env file ≡ []
      → pipeline_job_chain_diagnostics env (stored file m) ≡ []
  unfolding answer
  answer-stored authority none m h clean = create_new-stored authority m h
  answer-stored authority (some existing) m h clean =
      answer_bound-stored authority existing m h clean

  -- A `create` that returns leaves a store whose report is empty, whether it appends the first state of a
  -- new job or finds that the request has been carried out.
  pub create-stored :
      (m : Mutation)
      → create env ids workspace_id fresh c file ≡ ok m
      → pipeline_job_chain_diagnostics env (stored file m) ≡ []
  unfolding create
  create-stored m h =
      let (u1, e1, h1) = bind-ok (raise_if (not (c.actor == "user")) _) _ m h in
      let (u2, e2, h2) = bind-ok (raise_if (has_duplicates c.input_refs) _) _ m h1 in
      let (authority, e3, h3) =
        bind-ok (normalize_authority_snapshot c.authority_snapshot) _ m h2 in
      let (states, e4, h4) = bind-ok (read_states env file) _ m h3 in
      let (clean, same) = first_diagnostic-ok _ file states e4 in
      let (current, e5, h5) = bind-ok (current_pipeline_states env states) _ m h4 in
      answer-stored authority
        (find (λ (s : JobState). s.idempotency_key == c.idempotency_key) current) m
        (subst
          (λ x.
            answer env ids workspace_id fresh c authority x
              (find (λ (s : JobState). s.idempotency_key == c.idempotency_key) current)
            ≡ ok m)
          (sym same) h5)
        clean
