-- ===== src/Jobs/Rules.antt =====
-- The rules of pipeline_jobs.py on one state and on one step: `validate_wait_state`,
-- `validate_transition` and `validate_running_progress`.
use Prim.Native.String.{◌++◌}
use lit_grove.Prelude.{
  and_true, beq_refl, subst, Eq, ◌↔◌, list_eq, list_beq_iff, option_beq_iff, ℕ, String, ◌≡◌, Bool,
  true, false, not, ◌&&◌, Option, none, some, List, [], ◌∷◌, contains, is_subset, is_some, ◌==◌,
  option_eq, nat_eq, string_eq,
}
use lit_grove.Diagnostics.{
  Diagnostic, diagnostic, Result, ok, ◌>>◌, raise_if, schema_validation_failed,
}
use lit_grove.Jobs.State.{
  Status, created, running, waiting_user, waiting_agent, waiting_source, paused, recovering,
  completed, completed_with_findings, failed, cancelled, status_eq, status_beq, WaitReason,
  authority_required, route_ambiguous, source_selection_required, ocr_required,
  layout_parse_required, reparse_required, source_adequacy_uncertain, source_missing,
  source_inaccessible, source_changed, parse_failed, source_incomplete, supplement_missing,
  source_adequacy_inadequate, source_adequacy_stale, user_paused, transaction_recovery, wait_eq,
  JobState,
}

-- `TERMINAL_STATUSES`
abbrev pub terminal_statuses : List Status
terminal_statuses = completed ∷ completed_with_findings ∷ failed ∷ cancelled ∷ []

abbrev pub is_terminal : Status → Bool
is_terminal s = contains terminal_statuses s

-- `WAIT_REASONS_BY_STATUS.get(status)`; `none` stands in a list for a reason that is absent.
abbrev pub wait_reasons : Status → Option (List (Option WaitReason))
wait_reasons waiting_user = some (
    some authority_required
    ∷ some route_ambiguous
    ∷ some source_selection_required
    ∷ some ocr_required
    ∷ some layout_parse_required
    ∷ some reparse_required
    ∷ some source_adequacy_uncertain
    ∷ [])
wait_reasons waiting_source = some (
    some source_missing
    ∷ some source_inaccessible
    ∷ some source_changed
    ∷ some parse_failed
    ∷ some source_incomplete
    ∷ some supplement_missing
    ∷ some source_adequacy_inadequate
    ∷ some source_adequacy_stale
    ∷ [])
wait_reasons waiting_agent = some (none ∷ [])
wait_reasons paused = some (some user_paused ∷ [])
wait_reasons recovering = some (some transaction_recovery ∷ [])
wait_reasons _ = none

-- `ALLOWED_TRANSITIONS.get(status, frozenset())`
abbrev pub allowed_transitions : Status → List Status
allowed_transitions created =
    running ∷ waiting_user ∷ waiting_source ∷ paused ∷ failed ∷ cancelled ∷ []
allowed_transitions running =
    running ∷ waiting_user ∷ waiting_agent ∷ waiting_source ∷ paused ∷ recovering ∷ completed
    ∷ completed_with_findings ∷ failed ∷ cancelled ∷ []
allowed_transitions waiting_user =
    running ∷ waiting_agent ∷ paused ∷ recovering ∷ failed ∷ cancelled ∷ []
allowed_transitions waiting_agent = running ∷ paused ∷ recovering ∷ failed ∷ cancelled ∷ []
allowed_transitions waiting_source = running ∷ paused ∷ recovering ∷ failed ∷ cancelled ∷ []
allowed_transitions paused = running ∷ recovering ∷ failed ∷ cancelled ∷ []
allowed_transitions recovering =
    running ∷ waiting_user ∷ waiting_source ∷ paused ∷ completed ∷ completed_with_findings ∷ failed
    ∷ cancelled ∷ []
allowed_transitions _ = []

-- `_job_error`
abbrev pub job_error : String → String → Diagnostic
job_error message path = diagnostic schema_validation_failed "pipeline-job-state" none path message

unfoldable pub validate_wait_reason :
    Option (List (Option WaitReason)) → Option WaitReason → Result (Unit {0})
validate_wait_reason none wait_reason =
    raise_if (is_some wait_reason)
      (job_error "wait reason is not allowed for this status" "/wait_reason")
validate_wait_reason (some allowed) wait_reason =
    raise_if (not (contains allowed wait_reason))
      (job_error "wait reason is incompatible with the requested status" "/wait_reason")

unfoldable pub validate_recovery_action : Bool → Option String → Result (Unit {0})
validate_recovery_action true recovery_action =
    raise_if (not (is_some recovery_action))
      (job_error "recovering status requires a recovery action" "/recovery_action")
validate_recovery_action false recovery_action =
    raise_if (is_some recovery_action)
      (job_error "recovery action is allowed only while recovering" "/recovery_action")

-- `validate_wait_state`
unfoldable pub validate_wait_state : Status → Option WaitReason → Option String → Result (Unit {0})
unfolding validate_wait_reason validate_recovery_action
validate_wait_state status wait_reason recovery_action = do
  validate_wait_reason (wait_reasons status) wait_reason
  validate_recovery_action (status_beq status recovering) recovery_action

abbrev status_text : Status → String
status_text created = "created"
status_text running = "running"
status_text waiting_user = "waiting_user"
status_text waiting_agent = "waiting_agent"
status_text waiting_source = "waiting_source"
status_text paused = "paused"
status_text recovering = "recovering"
status_text completed = "completed"
status_text completed_with_findings = "completed_with_findings"
status_text failed = "failed"
status_text cancelled = "cancelled"

unfoldable pub transition_message : Status → Status → String
transition_message previous_status status =
    "invalid Pipeline Job transition from "
    ++ (status_text previous_status ++ (" to " ++ status_text status))

-- `validate_transition`
unfoldable pub validate_transition : Status → Status → Result (Unit {0})
unfolding transition_message
validate_transition previous_status status = do
  raise_if (is_terminal previous_status)
      (job_error "terminal Pipeline Job state cannot have a successor" "/status")
  raise_if (not (contains (allowed_transitions previous_status) status))
      (job_error (transition_message previous_status status) "/status")

-- What `validate_running_progress` and the compare-and-swap read of a state.
pub record Progress : Type 0 where
  pub status : Status
  pub current_node : String
  pub wait_reason : Option WaitReason
  pub output_refs : List String
  pub retry_count : ℕ
  pub recovery_action : Option String

unfoldable pub progress_beq : Progress → Progress → Bool
progress_beq a b =
    a.status == b.status
    && a.current_node == b.current_node
    && a.wait_reason == b.wait_reason
    && a.output_refs == b.output_refs
    && a.retry_count == b.retry_count
    && a.recovery_action == b.recovery_action

pub progress_beq_refl : (a : Progress) → progress_beq a a ≡ true
unfolding progress_beq
progress_beq_refl a = rw (
  beq_refl a.status,
  beq_refl a.current_node,
  beq_refl a.wait_reason,
  beq_refl a.output_refs,
  beq_refl a.retry_count,
  beq_refl a.recovery_action,
)

pub progress_beq_iff : (a b : Progress) → (progress_beq a b ≡ true) ↔ (a ≡ b)
unfolding progress_beq
progress_beq_iff a b = (
  λ h.
      (let (h, action) = and_true _ _ h in
        let (h, retries) = and_true _ _ h in
        let (h, outputs) = and_true _ _ h in
        let (h, wait) = and_true _ _ h in
        let (status, node) = and_true _ _ h in
        let status = (status_eq.beq_iff a.status b.status).0 status in
        let node = (string_eq.beq_iff a.current_node b.current_node).0 node in
        let wait = (option_beq_iff a.wait_reason b.wait_reason).0 wait in
        let outputs = (list_beq_iff a.output_refs b.output_refs).0 outputs in
        let retries = (nat_eq.beq_iff a.retry_count b.retry_count).0 retries in
        let action = (option_beq_iff a.recovery_action b.recovery_action).0 action in
        λ i. record {
          status = status i;
          current_node = node i;
          wait_reason = wait i;
          output_refs = outputs i;
          retry_count = retries i;
          recovery_action = action i;
        }),
  λ h. subst (λ c. progress_beq a c ≡ true) h (progress_beq_refl a),
)

instance abbrev pub progress_eq : Eq Progress
progress_eq = record { beq = progress_beq; beq_iff = progress_beq_iff }

-- `_state_transition_intent`
abbrev pub progress : JobState → Progress
progress s = record {
  status = s.status;
  current_node = s.current_node;
  wait_reason = s.wait_reason;
  output_refs = s.output_refs;
  retry_count = s.retry_count;
  recovery_action = s.recovery_action;
}

unfoldable pub progress_checks : Progress → Progress → Result (Unit {0})
progress_checks previous current = do
  raise_if (current.current_node == previous.current_node)
      (job_error "running progress must advance the current node" "/current_node")
  raise_if
      (not (
        is_subset previous.output_refs current.output_refs
        && not (is_subset current.output_refs previous.output_refs)))
      (job_error "running progress must append at least one committed output ref" "/output_refs")
  raise_if (not (current.retry_count == previous.retry_count))
      (job_error "running progress cannot change the retry count" "/retry_count")
  raise_if (is_some current.wait_reason)
      (job_error "running progress cannot set a wait reason" "/wait_reason")
  raise_if (is_some current.recovery_action)
      (job_error "running progress cannot set a recovery action" "/recovery_action")

-- `validate_running_progress`
unfoldable pub validate_running_progress : Progress → Progress → Result (Unit {0})
unfolding progress_checks
validate_running_progress previous current =
    elim (status_beq previous.status running && status_beq current.status running) [
      | true ↦ progress_checks previous current
      | false ↦ ok tt
    ]
