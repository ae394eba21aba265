-- ===== src/Jobs/State.antt =====
-- The stored states of pipeline jobs, as the pipeline-job-state schema admits them.
use lit_grove.Prelude.{
  nat_beq, code_beq_iff, ℕ, String, ◌≡◌, ◌==◌, ◌&&◌, Bool, true, Option, List, [], ◌∷◌, item_at,
  refl, Eq, string_eq, option_eq, list_eq, nat_eq, list_beq_iff, arith, ◌↔◌,
}

pub data Status : Type 0 where
  created running waiting_user waiting_agent waiting_source paused recovering : Status
  completed completed_with_findings failed cancelled : Status

pub data WaitReason : Type 0 where
  authority_required route_ambiguous source_selection_required ocr_required : WaitReason
  layout_parse_required reparse_required source_adequacy_uncertain : WaitReason
  source_missing source_inaccessible source_changed parse_failed source_incomplete : WaitReason
  supplement_missing source_adequacy_inadequate source_adequacy_stale : WaitReason
  user_paused transaction_recovery : WaitReason

abbrev pub status_code : Status → ℕ
status_code created = 0
status_code running = 1
status_code waiting_user = 2
status_code waiting_agent = 3
status_code waiting_source = 4
status_code paused = 5
status_code recovering = 6
status_code completed = 7
status_code completed_with_findings = 8
status_code failed = 9
status_code cancelled = 10

-- In the order of their codes.
abbrev pub statuses : List Status
statuses =
    created ∷ running ∷ waiting_user ∷ waiting_agent ∷ waiting_source ∷ paused ∷ recovering
    ∷ completed ∷ completed_with_findings ∷ failed ∷ cancelled ∷ []

abbrev pub status_of : ℕ → Status
status_of = item_at statuses cancelled

pub status_of-status_code : (s : Status) → status_of (status_code s) ≡ s
status_of-status_code created = refl
status_of-status_code running = refl
status_of-status_code waiting_user = refl
status_of-status_code waiting_agent = refl
status_of-status_code waiting_source = refl
status_of-status_code paused = refl
status_of-status_code recovering = refl
status_of-status_code completed = refl
status_of-status_code completed_with_findings = refl
status_of-status_code failed = refl
status_of-status_code cancelled = refl

abbrev pub status_beq : Status → Status → Bool
status_beq a b = nat_beq (status_code a) (status_code b)

instance abbrev pub status_eq : Eq Status
status_eq = record {
  beq = status_beq;
  beq_iff = code_beq_iff status_code status_of status_of-status_code;
}

abbrev pub wait_code : WaitReason → ℕ
wait_code authority_required = 0
wait_code route_ambiguous = 1
wait_code source_selection_required = 2
wait_code ocr_required = 3
wait_code layout_parse_required = 4
wait_code reparse_required = 5
wait_code source_adequacy_uncertain = 6
wait_code source_missing = 7
wait_code source_inaccessible = 8
wait_code source_changed = 9
wait_code parse_failed = 10
wait_code source_incomplete = 11
wait_code supplement_missing = 12
wait_code source_adequacy_inadequate = 13
wait_code source_adequacy_stale = 14
wait_code user_paused = 15
wait_code transaction_recovery = 16

-- In the order of their codes.
abbrev pub wait_reason_list : List WaitReason
wait_reason_list =
    authority_required ∷ route_ambiguous ∷ source_selection_required ∷ ocr_required
    ∷ layout_parse_required ∷ reparse_required ∷ source_adequacy_uncertain ∷ source_missing
    ∷ source_inaccessible ∷ source_changed ∷ parse_failed ∷ source_incomplete ∷ supplement_missing
    ∷ source_adequacy_inadequate ∷ source_adequacy_stale ∷ user_paused ∷ transaction_recovery ∷ []

abbrev pub wait_of : ℕ → WaitReason
wait_of = item_at wait_reason_list transaction_recovery

pub wait_of-wait_code : (r : WaitReason) → wait_of (wait_code r) ≡ r
wait_of-wait_code authority_required = refl
wait_of-wait_code route_ambiguous = refl
wait_of-wait_code source_selection_required = refl
wait_of-wait_code ocr_required = refl
wait_of-wait_code layout_parse_required = refl
wait_of-wait_code reparse_required = refl
wait_of-wait_code source_adequacy_uncertain = refl
wait_of-wait_code source_missing = refl
wait_of-wait_code source_inaccessible = refl
wait_of-wait_code source_changed = refl
wait_of-wait_code parse_failed = refl
wait_of-wait_code source_incomplete = refl
wait_of-wait_code supplement_missing = refl
wait_of-wait_code source_adequacy_inadequate = refl
wait_of-wait_code source_adequacy_stale = refl
wait_of-wait_code user_paused = refl
wait_of-wait_code transaction_recovery = refl

instance abbrev pub wait_eq : Eq WaitReason
wait_eq = record {
  beq = λ a b. nat_beq (wait_code a) (wait_code b);
  beq_iff = code_beq_iff wait_code wait_of wait_of-wait_code;
}

pub record Predecessor : Type 0 where
  pub state_id : String
  pub state_digest : String

unfoldable pub predecessor_beq : Predecessor → Predecessor → Bool
predecessor_beq a b = a.state_id == b.state_id && a.state_digest == b.state_digest

pub predecessor_beq_iff : (a b : Predecessor) → (predecessor_beq a b ≡ true) ↔ (a ≡ b)
unfolding predecessor_beq
predecessor_beq_iff a b = ground (
  arith,
  string_eq.beq_iff a.state_id b.state_id,
  string_eq.beq_iff a.state_digest b.state_digest,
)

instance abbrev pub predecessor_eq : Eq Predecessor
predecessor_eq = record { beq = predecessor_beq; beq_iff = predecessor_beq_iff }

pub record Authority : Type 0 where
  pub actor : String
  pub granted_operations : List String
  pub captured_at : String

unfoldable pub authority_beq : Authority → Authority → Bool
authority_beq a b =
    a.actor == b.actor
    && a.granted_operations == b.granted_operations
    && a.captured_at == b.captured_at

pub authority_beq_iff : (a b : Authority) → (authority_beq a b ≡ true) ↔ (a ≡ b)
unfolding authority_beq
authority_beq_iff a b = ground (
  arith,
  string_eq.beq_iff a.actor b.actor,
  list_beq_iff a.granted_operations b.granted_operations,
  string_eq.beq_iff a.captured_at b.captured_at,
)

instance abbrev pub authority_eq : Eq Authority
authority_eq = record { beq = authority_beq; beq_iff = authority_beq_iff }

pub record JobState : Type 0 where
  pub state_id : String
  pub job_id : String
  pub workspace_id : String
  pub revision : ℕ
  pub predecessor : Option Predecessor
  pub requested_route : String
  pub requested_depth : String
  pub current_node : String
  pub status : Status
  pub wait_reason : Option WaitReason
  pub input_refs : List String
  pub output_refs : List String
  pub authority_snapshot : Authority
  pub idempotency_key : String
  pub retry_count : ℕ
  pub recovery_action : Option String
  pub terminal_receipt : Bool
  pub created_at : String
  pub updated_at : String
  pub fixture_origin : Option String
