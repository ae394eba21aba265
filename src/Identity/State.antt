-- ===== src/Identity/State.antt =====
-- A registry identity correction as its schema admits it, and how a run of the module can end.
use lit_grove.Prelude.{
  ℕ, String, ◌≡◌, refl, Option, List, [], ◌∷◌, Eq, nat_beq, code_beq_iff, item_at,
}
use lit_grove.Diagnostics.{Diagnostic}

pub data Operation : Type 0 where
  confirmed_duplicate_merge mistaken_merge_split paper_alias : Operation
  library_archive library_tombstone : Operation

abbrev pub operation_code : Operation → ℕ
operation_code confirmed_duplicate_merge = 0
operation_code mistaken_merge_split = 1
operation_code paper_alias = 2
operation_code library_archive = 3
operation_code library_tombstone = 4

abbrev pub operation_of : ℕ → Operation
operation_of =
    item_at
      (confirmed_duplicate_merge ∷ mistaken_merge_split ∷ paper_alias ∷ library_archive
        ∷ library_tombstone ∷ [])
      library_tombstone

pub operation_of-operation_code : (o : Operation) → operation_of (operation_code o) ≡ o
operation_of-operation_code confirmed_duplicate_merge = refl
operation_of-operation_code mistaken_merge_split = refl
operation_of-operation_code paper_alias = refl
operation_of-operation_code library_archive = refl
operation_of-operation_code library_tombstone = refl

instance abbrev pub operation_eq : Eq Operation
operation_eq = record {
  beq = λ a b. nat_beq (operation_code a) (operation_code b);
  beq_iff = code_beq_iff operation_code operation_of operation_of-operation_code;
}

pub record Correction : Type 0 where
  pub correction_id : String
  pub previous_correction_id : Option String
  pub previous_correction_digest : Option String
  pub operation : Operation
  pub subject_paper_ids : List String
  pub retained_paper_id : Option String
  pub supersedes_correction_id : Option String

pub data LibraryStatus : Type 0 where
  active archived tombstoned : LibraryStatus

-- One item of the projected registry.
pub record PaperIdentity : Type 0 where
  pub paper_id : String
  pub canonical_paper_id : String
  pub library_status : LibraryStatus

-- The run returns, raises `ResearchKBError`, ends by another error (a missing key, an empty list, a
-- failed assertion), or has used up the rounds that the model gives a `while` loop.
pub data Run (A : Type 0) : Type 0 where
  returns : A → Run A
  raises : Diagnostic → Run A
  crashes : Run A
  exhausted : Run A

infixl 5 ◌>>=◌ ◌>>◌
abbrev pub ◌>>=◌ : {A B : Type 0} → Run A → (A → Run B) → Run B
returns a >>= f = f a
raises d >>= f = raises d
crashes >>= f = crashes
exhausted >>= f = exhausted

abbrev pub ◌>>◌ : {B : Type 0} → Run (Unit {0}) → Run B → Run B
m >> k = m >>= λ _. k
