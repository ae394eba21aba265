-- ===== src/Jobs/Chain/Ids.antt =====
-- The first loop of the report: state IDs that occur once, and idempotency keys of one job.
use lit_grove.Prelude.{
  ◌≡◌, ◌↔◌, refl, false, List, [], ◌∷◌, Pairwise-map, Pairwise, append-empty, string_eq, ◌==◌,
}
use lit_grove.Diagnostics.{reports-eq-nil}
use lit_grove.Diagnostics.Deduplicate.{deduplicate-eq-nil}
use lit_grove.Jobs.State.{JobState}
use lit_grove.Jobs.Chain.{
  Env, Gathered, gather, gather_tests, gather_all, nothing_gathered, pipeline_job_chain_diagnostics,
}
use lit_grove.Jobs.Chain.Bound.{Fresh, Compatible, Fresh-Pairwise}

abbrev pub DifferentIds : JobState → JobState → Type 0
DifferentIds a b = (a.state_id == b.state_id) ≡ false

-- Two states have different IDs, and where their idempotency keys are the same, they are of one job.
abbrev pub AreCompatible : JobState → JobState → Type 0
AreCompatible =
    Compatible (λ (s : JobState). s.state_id) (λ (s : JobState). s.idempotency_key)
      (λ (s : JobState). s.job_id)

abbrev AreFresh : Gathered → List JobState → Type 0
AreFresh g =
    Fresh (λ (s : JobState). s.state_id) (λ (s : JobState). s.idempotency_key)
      (λ (s : JobState). s.job_id) g.state_ids g.idempotency_jobs

gather_all-AreFresh :
    (g : Gathered) (xs : List JobState)
    → ((gather_all g xs).diagnostics ≡ []) ↔ ((g.diagnostics ≡ []) × AreFresh g xs)
unfolding gather_all gather gather_tests
gather_all-AreFresh g [] = (λ h. (h, tt), λ h. h.0)
gather_all-AreFresh g (x ∷ xs) =
    let again = gather_all-AreFresh (gather g x) xs in
    let tests = reports-eq-nil (gather_tests g x) in
    (
      λ h.
          (let (here, later) = again.0 h in
            let (before, new) = (append-empty g.diagnostics _).0 here in
            let (a, (b, c)) = tests.0 new in (before, (a, b, later))),
      λ h. again.1 ((append-empty g.diagnostics _).1 (h.0, tests.1 (h.1.0, (h.1.1, tt))), h.1.2),
    )

-- The first loop of the report finds nothing exactly if the states are compatible.
pub gather_all-AreCompatible :
    (states : List JobState)
    → ((gather_all nothing_gathered states).diagnostics ≡ []) ↔ Pairwise AreCompatible states
gather_all-AreCompatible states =
    let first = gather_all-AreFresh nothing_gathered states in
    let compatible =
      Fresh-Pairwise (λ (s : JobState). s.state_id) (λ (s : JobState). s.idempotency_key)
        (λ (s : JobState). s.job_id) states in
    (λ h. compatible.0 (first.0 h).1, λ h. first.1 (refl, compatible.1 h))

-- The states of a store whose report is empty have different state IDs.
pub pipeline_job_chain_diagnostics-DifferentIds :
    (env : Env) (states : List JobState)
    → pipeline_job_chain_diagnostics env states ≡ []
    → Pairwise DifferentIds states
unfolding pipeline_job_chain_diagnostics
pipeline_job_chain_diagnostics-DifferentIds env states h =
    let found = (deduplicate-eq-nil _).0 h in
    let (first, rest) = (append-empty (gather_all nothing_gathered states).diagnostics _).0 found in
    Pairwise-map states (λ x y c. c.0) ((gather_all-AreCompatible states).0 first)
