-- ===== src/Jobs/Chain/Monotone.antt =====
-- What a job's history keeps from each state to every later one.
use lit_grove.Prelude.{
  ◌≤◌, ◌≡◌, refl, sym, ◌∙◌, true, false, List, [], ◌∷◌, All-map, Pairwise, arith, string_eq,
  is_subset, is_subset_trans,
}
use lit_grove.Diagnostics.{ok, seq-eq-ok, raise_if-eq-ok}
use lit_grove.Jobs.State.{Status, JobState}
use lit_grove.Jobs.Rules.{is_terminal, validate_transition}
use lit_grove.Jobs.Chain.{Env, ordered_diagnostics}
use lit_grove.Jobs.Chain.History.{IsSameJob, IsStep, Follows, next}
use lit_grove.Jobs.Chain.Report.{ordered_diagnostics-eq-nil}

-- `earlier` is not terminal, and `later` keeps its outputs, its retries, its time and its request.
pub record Keeps (env : Env) (earlier later : JobState) : Type 0 where
  pub is_open : is_terminal earlier.status ≡ false
  pub outputs : is_subset earlier.output_refs later.output_refs ≡ true
  pub retries : earlier.retry_count ≤ later.retry_count
  pub time : env.parse_timestamp earlier.updated_at ≤ env.parse_timestamp later.updated_at
  pub key : later.idempotency_key ≡ earlier.idempotency_key
  pub inputs : later.input_refs ≡ earlier.input_refs
  pub authority : later.authority_snapshot ≡ earlier.authority_snapshot

open_of_transition : (a b : Status) → validate_transition a b ≡ ok tt → is_terminal a ≡ false
unfolding validate_transition
open_of_transition a b h = (raise_if-eq-ok (is_terminal a) _).0 ((seq-eq-ok _ _).0 h).0

module _ (env : Env) (root : JobState) where
  Keeps-trans : (a b c : JobState) → Keeps env a b → Keeps env b c → Keeps env a c
  Keeps-trans a b c h k = record {
    is_open = h.is_open;
    outputs = is_subset_trans a.output_refs b.output_refs c.output_refs h.outputs k.outputs;
    retries = omega (arith, h.retries, k.retries);
    time = omega (arith, h.time, k.time);
    key = k.key ∙ h.key;
    inputs = k.inputs ∙ h.inputs;
    authority = k.authority ∙ h.authority;
  }

  IsStep-Keeps : (a b : JobState) → IsSameJob root a → IsStep env root a b → Keeps env a b
  IsStep-Keeps a b same s = record {
    is_open = open_of_transition a.status b.status s.transition;
    outputs = s.outputs;
    retries = s.retries;
    time = s.time;
    key = s.same_job.idempotency_key ∙ sym same.idempotency_key;
    inputs = s.same_job.input_refs ∙ sym same.input_refs;
    authority = s.same_job.authority_snapshot ∙ sym same.authority_snapshot;
  }

  Follows-Keeps :
      (a : JobState) (states : List JobState)
      → IsSameJob root a
      → Follows env root a states
      → Pairwise (Keeps env) (a ∷ states)
  Follows-Keeps a [] same f = (tt, tt)
  Follows-Keeps a (b ∷ states) same (next s rest) =
      let later = Follows-Keeps b states s.same_job rest in
      let here = IsStep-Keeps a b same s in
      ((here, All-map states (λ c k. Keeps-trans a b c here k) later.0), later)

same_root : (root : JobState) → IsSameJob root root
same_root root = record {
  workspace_id = refl;
  requested_route = refl;
  requested_depth = refl;
  input_refs = refl;
  authority_snapshot = refl;
  idempotency_key = refl;
  created_at = refl;
  fixture_origin = refl;
}

-- Where the report on the ordered states of a job is empty, each state but the last is not terminal,
-- and every later state keeps its output refs, has at least its retry count and its update time, and
-- has the same idempotency key, inputs and authority.
pub ordered_diagnostics-Keeps :
    (env : Env) (states : List JobState)
    → ordered_diagnostics env states ≡ []
    → Pairwise (Keeps env) states
ordered_diagnostics-Keeps env [] h = tt
ordered_diagnostics-Keeps env (root ∷ states) h =
    Follows-Keeps env root root states (same_root root)
      ((ordered_diagnostics-eq-nil env (root ∷ states)).0 h).2
