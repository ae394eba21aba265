-- ===== src/Jobs/Chain/Groups.antt =====
-- The second loop of the report: one history for each job.
use lit_grove.Prelude.{
  String, ◌≡◌, ◌↔◌, refl, sym, subst, List, [], ◌∷◌, All, Pairwise, select, sort_by, flat_map,
  append-empty, flat_map-eq-nil, group_from, All-group_from, string_eq, ◌==◌,
}
use lit_grove.Diagnostics.Deduplicate.{deduplicate-eq-nil}
use lit_grove.Jobs.State.{JobState}
use lit_grove.Jobs.Chain.{
  Env, Gathered, gather, gather_all, nothing_gathered, in_order, ordered_diagnostics,
  job_diagnostics, pipeline_job_chain_diagnostics,
}
use lit_grove.Jobs.Chain.History.{IsHistory}
use lit_grove.Jobs.Chain.Report.{ordered_diagnostics-eq-nil}
use lit_grove.Jobs.Chain.Ids.{AreCompatible, gather_all-AreCompatible}

by_job-gather_all :
    (g : Gathered) (xs : List JobState)
    → (gather_all g xs).by_job ≡ group_from (λ (s : JobState). s.job_id) g.by_job xs
unfolding gather_all gather group_from
by_job-gather_all g [] = refl
by_job-gather_all g (x ∷ xs) = by_job-gather_all (gather g x) xs

module _ (env : Env) where
  -- The report on the jobs is empty exactly if each has its history.
  job_diagnostics-IsHistory :
      (states : List JobState)
      → (flat_map (job_diagnostics env) (gather_all nothing_gathered states).by_job ≡ []) ↔ (
          (job_id : String)
          → IsHistory env (sort_by in_order (select (λ (s : JobState). s.job_id == job_id) states)))
  unfolding job_diagnostics ordered_diagnostics
  job_diagnostics-IsHistory states =
      let groups =
        flat_map-eq-nil (job_diagnostics env) (gather_all nothing_gathered states).by_job in
      let by_job =
        All-group_from (λ (s : JobState). s.job_id)
          (λ xs. ordered_diagnostics env (sort_by in_order xs) ≡ []) states refl in
      (
        λ h job_id.
            (ordered_diagnostics-eq-nil env _).0 (
              by_job.0 (subst each (by_job-gather_all nothing_gathered states) (groups.0 h))
                job_id),
        λ h. groups.1 (
            subst each (sym (by_job-gather_all nothing_gathered states))
              (by_job.1 (λ job_id. (ordered_diagnostics-eq-nil env _).1 (h job_id)))),
      )
    where
      each : List (String × List JobState) → Type 0
      each gs = All (λ (g : String × List JobState). job_diagnostics env g ≡ []) gs

  -- The report on a store is empty exactly if its states have different IDs, states with the same
  -- idempotency key are of the same job, and for every job ID the states with it, sorted by revision, are a
  -- history.
  pub pipeline_job_chain_diagnostics-IsHistory :
      (states : List JobState)
      → (pipeline_job_chain_diagnostics env states ≡ []) ↔ (
          Pairwise AreCompatible states
          × ((job_id : String)
              → IsHistory env
                  (sort_by in_order (select (λ (s : JobState). s.job_id == job_id) states))))
  unfolding pipeline_job_chain_diagnostics
  pipeline_job_chain_diagnostics-IsHistory states =
      let compatible = gather_all-AreCompatible states in
      let histories = job_diagnostics-IsHistory states in
      (
        λ h.
            (let (first, rest) =
                (append-empty (gather_all nothing_gathered states).diagnostics _).0
                  ((deduplicate-eq-nil _).0 h) in
              (compatible.0 first, histories.0 rest)),
        λ h. (deduplicate-eq-nil _).1 (
            (append-empty (gather_all nothing_gathered states).diagnostics _).1
              (compatible.1 h.0, histories.1 h.1)),
      )
