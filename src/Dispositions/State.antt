-- ===== src/Dispositions/State.antt =====
-- The record of a disposition, and the tables of guardian_dispositions.py.
use lit_grove.Prelude.{ℕ, String, ◌≡◌, ◌↔◌, Bool, true, false, Option, List, [], ◌∷◌, Eq, arith}

pub data Status : Type 0 where
  acknowledged accepted_risk remediation_planned resolved false_positive superseded : Status

abbrev pub status_beq : Status → Status → Bool
status_beq acknowledged acknowledged = true
status_beq accepted_risk accepted_risk = true
status_beq remediation_planned remediation_planned = true
status_beq resolved resolved = true
status_beq false_positive false_positive = true
status_beq superseded superseded = true
status_beq _ _ = false

pub status_beq_iff : (a b : Status) → (status_beq a b ≡ true) ↔ (a ≡ b)
status_beq_iff a b = ground arith

instance abbrev pub status_eq : Eq Status
status_eq = record { beq = status_beq; beq_iff = status_beq_iff }

pub record Disposition : Type 0 where
  pub disposition_id : String
  pub workspace_id : String
  pub guardian_report_id : String
  pub finding_index : ℕ
  pub finding_digest : String
  pub status : Status
  pub rationale : String
  pub previous_disposition_id : Option String
  pub actor : String
  pub created_at : String
  pub fixture_origin : Option String

-- A Guardian report, of which the code reads the findings; each stands as one text.
pub record GuardianReport : Type 0 where
  pub guardian_report_id : String
  pub findings : List String

-- `TERMINAL_DISPOSITION_STATUSES`
abbrev pub terminal_statuses : List Status
terminal_statuses = resolved ∷ false_positive ∷ superseded ∷ []

-- `INITIAL_DISPOSITION_STATUSES`
abbrev pub initial_statuses : List Status
initial_statuses = acknowledged ∷ accepted_risk ∷ remediation_planned ∷ false_positive ∷ []

-- `DISPOSITION_TRANSITIONS.get(status, frozenset())`
abbrev pub disposition_transitions : Status → List Status
disposition_transitions acknowledged =
    accepted_risk ∷ remediation_planned ∷ resolved ∷ false_positive ∷ superseded ∷ []
disposition_transitions accepted_risk = remediation_planned ∷ resolved ∷ superseded ∷ []
disposition_transitions remediation_planned =
    accepted_risk ∷ resolved ∷ false_positive ∷ superseded ∷ []
disposition_transitions _ = []
