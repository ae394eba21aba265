-- ===== src/Diagnostics.antt =====
-- errors.py: the diagnostics, the exception that carries one as a result, and `_deduplicate`, which
-- pipeline_jobs.py, agent_tasks.py, identity_corrections.py and guardian_dispositions.py repeat.
pub mod Deduplicate
mod Tests
use lit_grove.Prelude.{
  ◌++◌, All, refl, String, ◌≡◌, Bool, true, false, Option, List, [], ◌∷◌, Eq, string_eq, option_eq,
  option_beq_iff, unique_from, ◌==◌, ◌&&◌, arith, ◌↔◌,
}

pub record Diagnostic : Type 0 where
  pub code : String
  pub record_kind : String
  pub record_id : Option String
  pub json_path : String
  pub message : String
  pub severity : String

abbrev pub schema_validation_failed : String
schema_validation_failed = "RKBC-002"

abbrev pub duplicate_id : String
duplicate_id = "RKBC-004"

abbrev pub unresolved_reference : String
unresolved_reference = "RKBC-005"

abbrev pub invalid_authority : String
invalid_authority = "RKBC-006"

abbrev pub path_escape : String
path_escape = "RKBC-007"

abbrev pub non_posix_path : String
non_posix_path = "RKBC-008"

abbrev pub grounding_mismatch : String
grounding_mismatch = "RKBC-009"

abbrev pub workspace_layout_conflict : String
workspace_layout_conflict = "RKBC-021"

abbrev pub write_conflict : String
write_conflict = "RKBC-017"

abbrev pub incomplete_transaction : String
incomplete_transaction = "RKBC-018"

-- `Diagnostic(code, record_kind, record_id, json_path, message)`; the severity has a default.
abbrev pub diagnostic : String → String → Option String → String → String → Diagnostic
diagnostic code kind id path message = record {
  code = code;
  record_kind = kind;
  record_id = id;
  json_path = path;
  message = message;
  severity = "error";
}

-- A function that may raise `ResearchKBError`.
pub data Result {ℓ} (A : Type ℓ) : Type ℓ where
  err : Diagnostic → Result A
  ok : A → Result A

infixl 5 ◌>>=◌ ◌>>◌
abbrev pub ◌>>=◌ {ℓ κ} : {A : Type ℓ} {B : Type κ} (m : Result A) (next : A → Result B) → Result B
err d >>= next = err d
ok a >>= next = next a

abbrev pub ◌>>◌ {ℓ} : {B : Type ℓ} (check : Result (Unit {0})) (rest : Result B) → Result B
check >> rest = check >>= λ _. rest

-- `if test: raise ResearchKBError(d)`
abbrev pub raise_if : Bool → Diagnostic → Result (Unit {0})
raise_if true d = err d
raise_if false d = ok tt

-- A row of `if test: raise ResearchKBError(d)`.
abbrev pub raise_first : List (Bool × Diagnostic) → Result (Unit {0})
raise_first [] = ok tt
raise_first ((b, d) ∷ rest) = raise_if b d >> raise_first rest

-- `if test: diagnostics.append(d)`
abbrev pub report_if : Bool → Diagnostic → List Diagnostic
report_if true d = d ∷ []
report_if false d = []

-- The diagnostics whose tests hold, in the order of the tests.
abbrev pub reports : List (Bool × Diagnostic) → List Diagnostic
reports [] = []
reports ((b, d) ∷ rest) = report_if b d ++ reports rest

pub reports-eq-nil :
    (tests : List (Bool × Diagnostic))
    → (reports tests ≡ []) ↔ All (λ (t : Bool × Diagnostic). t.0 ≡ false) tests
reports-eq-nil [] = (λ h. tt, λ h. refl)
reports-eq-nil ((true, d) ∷ rest) = (λ h. cc, λ h. cc)
reports-eq-nil ((false, d) ∷ rest) =
    let again = reports-eq-nil rest in (λ h. (refl, again.0 h), λ h. again.1 h.1)

pub raise_first-eq-ok :
    (tests : List (Bool × Diagnostic))
    → (raise_first tests ≡ ok tt) ↔ All (λ (t : Bool × Diagnostic). t.0 ≡ false) tests
raise_first-eq-ok [] = (λ h. tt, λ h. refl)
raise_first-eq-ok ((true, d) ∷ rest) = (λ h. cc, λ h. cc)
raise_first-eq-ok ((false, d) ∷ rest) =
    let again = raise_first-eq-ok rest in (λ h. (refl, again.0 h), λ h. again.1 h.1)

-- What a chain that returns has passed.
pub bind-ok {ℓ κ} :
    {A : Type ℓ} {B : Type κ} (m : Result A) (f : A → Result B) (b : B)
    → (m >>= f) ≡ ok b
    → (a : A) × (m ≡ ok a) × (f a ≡ ok b)
bind-ok (ok a) f b h = (a, refl, h)
bind-ok (err d) f b h = cc

pub raise_if-ok : (b : Bool) (d : Diagnostic) (u : Unit {0}) → raise_if b d ≡ ok u → b ≡ false
raise_if-ok true d u h = cc
raise_if-ok false d u h = refl

-- `m >> k` returns where both do.
pub seq-eq-ok : (m k : Result (Unit {0})) → ((m >> k) ≡ ok tt) ↔ ((m ≡ ok tt) × (k ≡ ok tt))
seq-eq-ok (ok u) k = (λ h. (refl, h), λ h. h.1)
seq-eq-ok (err d) k = (λ h. cc, λ h. cc)

pub raise_if-eq-ok : (b : Bool) (d : Diagnostic) → (raise_if b d ≡ ok tt) ↔ (b ≡ false)
raise_if-eq-ok true d = (λ h. cc, λ h. cc)
raise_if-eq-ok false d = (λ h. refl, λ h. refl)

pub report_if-eq-nil : (b : Bool) (d : Diagnostic) → (report_if b d ≡ []) ↔ (b ≡ false)
report_if-eq-nil b d = ground arith

-- The tuple by which `_deduplicate` tells diagnostics apart.
pub record Key : Type 0 where
  pub code : String
  pub record_id : Option String
  pub json_path : String
  pub message : String

abbrev pub key : Diagnostic → Key
key d = record {
  code = d.code;
  record_id = d.record_id;
  json_path = d.json_path;
  message = d.message;
}

unfoldable pub key_beq : Key → Key → Bool
key_beq a b =
    a.code == b.code
    && a.record_id == b.record_id
    && a.json_path == b.json_path
    && a.message == b.message

pub key_beq_iff : (a b : Key) → (key_beq a b ≡ true) ↔ (a ≡ b)
unfolding key_beq
key_beq_iff a b = ground (
  arith,
  string_eq.beq_iff a.code b.code,
  option_beq_iff a.record_id b.record_id,
  string_eq.beq_iff a.json_path b.json_path,
  string_eq.beq_iff a.message b.message,
)

instance abbrev pub key_eq : Eq Key
key_eq = record { beq = key_beq; beq_iff = key_beq_iff }

unfoldable pub deduplicate : List Diagnostic → List Diagnostic
deduplicate = unique_from key []
