-- ===== src/Tasks/State.antt =====
-- The stored states of Agent Tasks, as the agent-task-state schema admits them. A JSON value that the
-- code only compares and digests stands as one text.
use lit_grove.Prelude.{
  ℕ, String, ◌≡◌, refl, ◌==◌, ◌&&◌, Bool, true, false, Option, List, [], ◌∷◌, Eq, nat_beq,
  code_beq_iff, item_at, string_eq, option_eq, arith, ◌↔◌,
}

pub data Status : Type 0 where
  created leased submitted revision_requested superseded rejected approved cancelled : Status

abbrev pub status_code : Status → ℕ
status_code created = 0
status_code leased = 1
status_code submitted = 2
status_code revision_requested = 3
status_code superseded = 4
status_code rejected = 5
status_code approved = 6
status_code cancelled = 7

abbrev pub status_of : ℕ → Status
status_of =
    item_at
      (created ∷ leased ∷ submitted ∷ revision_requested ∷ superseded ∷ rejected ∷ approved
        ∷ cancelled ∷ [])
      cancelled

pub status_of-status_code : (s : Status) → status_of (status_code s) ≡ s
status_of-status_code created = refl
status_of-status_code leased = refl
status_of-status_code submitted = refl
status_of-status_code revision_requested = refl
status_of-status_code superseded = refl
status_of-status_code rejected = refl
status_of-status_code approved = refl
status_of-status_code cancelled = refl

instance abbrev pub status_eq : Eq Status
status_eq = record {
  beq = λ a b. nat_beq (status_code a) (status_code b);
  beq_iff = code_beq_iff status_code status_of status_of-status_code;
}

pub record Predecessor : Type 0 where
  pub state_id : String
  pub state_digest : String

unfoldable pub predecessor_beq : Predecessor → Predecessor → Bool
predecessor_beq a b = a.state_id == b.state_id && a.state_digest == b.state_digest

pub predecessor_beq_iff : (a b : Predecessor) → (predecessor_beq a b ≡ true) ↔ (a ≡ b)
unfolding predecessor_beq
predecessor_beq_iff a b = ground (
  arith,
  string_eq.beq_iff a.state_id b.state_id,
  string_eq.beq_iff a.state_digest b.state_digest,
)

instance abbrev pub predecessor_eq : Eq Predecessor
predecessor_eq = record { beq = predecessor_beq; beq_iff = predecessor_beq_iff }

pub record Lease : Type 0 where
  pub lease_id : String
  pub handoff_digest : String
  pub issued_at : String

unfoldable pub lease_beq : Lease → Lease → Bool
lease_beq a b =
    a.lease_id == b.lease_id && a.handoff_digest == b.handoff_digest && a.issued_at == b.issued_at

pub lease_beq_iff : (a b : Lease) → (lease_beq a b ≡ true) ↔ (a ≡ b)
unfolding lease_beq
lease_beq_iff a b = ground (
  arith,
  string_eq.beq_iff a.lease_id b.lease_id,
  string_eq.beq_iff a.handoff_digest b.handoff_digest,
  string_eq.beq_iff a.issued_at b.issued_at,
)

instance abbrev pub lease_eq : Eq Lease
lease_eq = record { beq = lease_beq; beq_iff = lease_beq_iff }

-- What the executor handed in; `content` is the rest of it.
pub record StagedResult : Type 0 where
  pub task_id : String
  pub input_basis_digest : String
  pub content : String

unfoldable pub staged_beq : StagedResult → StagedResult → Bool
staged_beq a b =
    a.task_id == b.task_id && a.input_basis_digest == b.input_basis_digest && a.content == b.content

pub staged_beq_iff : (a b : StagedResult) → (staged_beq a b ≡ true) ↔ (a ≡ b)
unfolding staged_beq
staged_beq_iff a b = ground (
  arith,
  string_eq.beq_iff a.task_id b.task_id,
  string_eq.beq_iff a.input_basis_digest b.input_basis_digest,
  string_eq.beq_iff a.content b.content,
)

instance abbrev pub staged_eq : Eq StagedResult
staged_eq = record { beq = staged_beq; beq_iff = staged_beq_iff }

pub record Decision : Type 0 where
  pub action : Status
  pub reason_code : Option String
  pub feedback : Option String
  pub successor_task_id : Option String
  pub applied_job_state_id : Option String
  pub decided_at : String

-- A Task succeeds another one after a request for a revision, or with refreshed input.
pub data Lineage : Type 0 where
  of_result : String → String → String → Lineage
  of_refresh : String → String → Lineage

abbrev pub predecessor_task_id : Lineage → String
predecessor_task_id (of_result predecessor digest feedback) = predecessor
predecessor_task_id (of_refresh predecessor digest) = predecessor

unfoldable pub lineage_beq : Lineage → Lineage → Bool
lineage_beq (of_result p d f) (of_result q e g) = p == q && d == e && f == g
lineage_beq (of_refresh p d) (of_refresh q e) = p == q && d == e
lineage_beq _ _ = false

pub lineage_beq_iff : (a b : Lineage) → (lineage_beq a b ≡ true) ↔ (a ≡ b)
unfolding lineage_beq
lineage_beq_iff (of_result p d f) (of_result q e g) =
    ground (arith, string_eq.beq_iff p q, string_eq.beq_iff d e, string_eq.beq_iff f g)
lineage_beq_iff (of_result p d f) (of_refresh q e) = ground arith
lineage_beq_iff (of_refresh p d) (of_result q e g) = ground arith
lineage_beq_iff (of_refresh p d) (of_refresh q e) =
    ground (arith, string_eq.beq_iff p q, string_eq.beq_iff d e)

instance abbrev pub lineage_eq : Eq Lineage
lineage_eq = record { beq = lineage_beq; beq_iff = lineage_beq_iff }

pub record TaskState : Type 0 where
  pub schema_version : String
  pub state_id : String
  pub task_id : String
  pub workspace_id : String
  pub revision : ℕ
  pub predecessor : Option Predecessor
  pub task_kind : String
  pub result_contract : String
  pub privacy_registry_version : String
  pub executor_id : String
  pub execution_scope : String
  pub effective_content_classes : List String
  pub input_basis : String
  pub input_basis_digest : String
  pub idempotency_key : String
  pub lineage : Option Lineage
  pub status : Status
  pub lease : Option Lease
  pub staged_result : Option StagedResult
  pub decision : Option Decision
  pub terminal_receipt : Bool
  pub created_at : String
  pub updated_at : String
