-- ===== src/Transactions/Recovery/Service.antt =====
-- What `TransactionRecoveryService.recover` (services/recovery.py) makes of the report.
use lit_grove.Prelude.{
  ℕ, String, ◌≡◌, ◌↔◌, refl, ap, ◌∙◌, sym, Bool, true, false, not, ◌||◌, any, any-Memᴰ, Memᴰ-any,
  if◌then◌else◌, Option, none, some, List, [], ◌∷◌, Memᴰ, All, arith, ◌==◌, option_eq, string_eq,
}
use lit_grove.Transactions.State.{
  Phase, prepared, target_replaced, event_recorded, complete, Outcome, success, failure, Journal,
  Event, event_eq, outcome_eq,
}
use lit_grove.Transactions.Recovery.{
  ActionName, target_digest_ambiguous, journal_result_mismatch, Branch, flag, report_manual, branch,
  of_complete, of_digest, of_incomplete, reported, prepend, is_manual, recovery_result,
}

-- What a round of `recover` reads: the journal, its event in the log and the digest of its target.
pub record Examined : Type 0 where
  pub journal : Journal
  pub existing : Option Event
  pub current : Option String

abbrev pub branch_of : Examined → Branch
branch_of x = branch x.journal x.existing x.current

-- The report of the rounds.
abbrev pub report_of : List Examined → List (String × ActionName)
report_of [] = []
report_of (x ∷ xs) = prepend x.journal.event_id (reported (branch_of x)) (report_of xs)

-- The branches that put a transaction under `needs_resolution`, or find it there.
abbrev pub leaves_open : Branch → Bool
leaves_open (flag a) = true
leaves_open report_manual = true
leaves_open _ = false

abbrev is_open : Option ActionName → Bool
is_open none = false
is_open (some a) = is_manual a

of_complete-open :
    (j : Journal) (o : Option Event)
    → is_open (reported (of_complete j o)) ≡ leaves_open (of_complete j o)
unfolding of_complete reported is_manual
of_complete-open j none = refl
of_complete-open j (some e) = ground arith

of_digest-open :
    (j : Journal) (o : Option Event) (c : Option String) (r : Outcome)
    → is_open (reported (of_digest j o c r)) ≡ leaves_open (of_digest j o c r)
unfolding of_digest reported is_manual
of_digest-open j none c r = ground arith
of_digest-open j (some e) c r = ground arith

of_incomplete-open :
    (j : Journal) (o : Option Event) (c : Option String)
    → is_open (reported (of_incomplete j o c)) ≡ leaves_open (of_incomplete j o c)
unfolding of_incomplete reported is_manual
of_incomplete-open j o c =
    go (not (c == j.before_sha256 || c == some j.after_sha256))
      (not (j.result == none || j.result == some expected))
  where
    expected : Outcome
    expected = if c == some j.after_sha256 then success else failure

    go :
        (a b : Bool)
        → is_open (
            reported (
              if a
              then flag target_digest_ambiguous
              else if b
              then flag journal_result_mismatch
              else of_digest j o c expected))
          ≡ leaves_open (
              if a
              then flag target_digest_ambiguous
              else if b
              then flag journal_result_mismatch
              else of_digest j o c expected)
    go true b = refl
    go false true = refl
    go false false = of_digest-open j o c expected

-- The names that the report calls manual are those of the branches that leave a transaction open.
branch-open :
    (j : Journal) (o : Option Event) (c : Option String)
    → is_open (reported (branch j o c)) ≡ leaves_open (branch j o c)
unfolding branch reported is_manual
branch-open j o c = elim j.phase as (λ p. is_open (reported (taken p)) ≡ leaves_open (taken p)) [
  | complete ↦ of_complete-open j o
  | Phase.needs_resolution ↦ refl
  | prepared ↦ of_incomplete-open j o c
  | target_replaced ↦ of_incomplete-open j o c
  | event_recorded ↦ of_incomplete-open j o c
]
  where
    taken : Phase → Branch
    taken p = elim p [
      | complete ↦ of_complete j o
      | Phase.needs_resolution ↦ report_manual
      | _ ↦ of_incomplete j o c
    ]

any-report_of :
    (xs : List Examined)
    → any (λ (e : String × ActionName). is_manual e.1) (report_of xs)
      ≡ any (λ (x : Examined). leaves_open (branch_of x)) xs
any-report_of [] = refl
any-report_of (x ∷ xs) =
    step (reported (branch_of x))
    ∙ ap (λ b. if b then true else any (λ (e : String × ActionName). is_manual e.1) (report_of xs))
        (branch-open x.journal x.existing x.current)
    ∙ ap (λ b. if leaves_open (branch_of x) then true else b) (any-report_of xs)
  where
    step :
        (o : Option ActionName)
        → any
            (λ (e : String × ActionName). is_manual e.1)
            (prepend x.journal.event_id o (report_of xs))
          ≡ (if is_open o
              then true
              else any (λ (e : String × ActionName). is_manual e.1) (report_of xs))
    step none = refl
    step (some a) = refl

none_open :
    (xs : List Examined)
    → (any (λ (x : Examined). leaves_open (branch_of x)) xs ≡ false)
      ↔ All (λ (x : Examined). leaves_open (branch_of x) ≡ false) xs
none_open [] = (λ h. tt, λ h. refl)
none_open (x ∷ xs) =
    let again = none_open xs in
    elim (leaves_open (branch_of x))
      as (λ b.
        ((if b then true else any (λ (y : Examined). leaves_open (branch_of y)) xs) ≡ false)
        ↔ ((b ≡ false) × All (λ (y : Examined). leaves_open (branch_of y) ≡ false) xs)) [
          | true ↦ (λ h. cc, λ h. cc)
          | false ↦ (λ h. (refl, again.0 h), λ h. again.1 h.1)
        ]

-- For the report of any rounds of `recover`, the service exits with 4 exactly if some round takes a branch
-- that puts its transaction under `needs_resolution` or finds it there, and with 0 exactly if none does.
pub recovery_result_lem :
    (xs : List Examined)
    → ((recovery_result (report_of xs)).exit_code ≡ 4
        ↔ ((x : Examined) × Memᴰ x xs × (leaves_open (branch_of x) ≡ true)))
      × ((recovery_result (report_of xs)).exit_code ≡ 0
          ↔ All (λ (x : Examined). leaves_open (branch_of x) ≡ false) xs)
unfolding recovery_result
recovery_result_lem xs =
    let same = any-report_of xs in
    (
      (
        λ h. any-Memᴰ (λ (x : Examined). leaves_open (branch_of x)) xs (sym same ∙ if_four _ h),
        λ h.
            ap code_of
              (same ∙ Memᴰ-any (λ (x : Examined). leaves_open (branch_of x)) xs h.0 h.1 h.2),
      ),
      (λ h. (none_open xs).0 (sym same ∙ if_zero _ h), λ h. ap code_of (same ∙ (none_open xs).1 h)),
    )
  where
    code_of : Bool → ℕ
    code_of b = if b then 4 else 0

    if_four : (b : Bool) → ◌≡◌ {A = ℕ} (if b then 4 else 0) 4 → b ≡ true
    if_four true h = refl
    if_four false h = ground arith

    if_zero : (b : Bool) → ◌≡◌ {A = ℕ} (if b then 4 else 0) 0 → b ≡ false
    if_zero true h = ground arith
    if_zero false h = refl
