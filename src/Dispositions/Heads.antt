-- ===== src/Dispositions/Heads.antt =====
-- `current_guardian_dispositions` (guardian_dispositions.py): one head for each finding.
use mathlib.Core.List.Permᴰ
use lit_grove.Prelude.{
  String, ◌≡◌, ◌⊎◌, inl, inr, refl, sym, ap, ◌∙◌, subst, Bool, true, false, not, some, List, [],
  ◌∷◌, map, select, contains, Memᴰ, Memᴰ-Permᴰ, select-Memᴰ, Memᴰ-select, sort_by-Memᴰ,
  contains-of_Memᴰ, sort_by, ◌==◌, string_eq, option_eq, beq_refl,
}
use lit_grove.Jobs.Service.Accepted.{first_diagnostic-ok}
use lit_grove.Diagnostics.{ok}
use lit_grove.Dispositions.State.{Disposition, GuardianReport}
use lit_grove.Dispositions.Report.{
  finding_of, finding_eq, is_predecessor, heads, in_finding_order, guardian_disposition_diagnostics,
  current_guardian_dispositions,
}
use lit_grove.Dispositions.Thread.{Follows, IsThread, IsDecided}
use lit_grove.Dispositions.Accepted.{guardian_disposition_diagnostics-IsDecided}

-- The end of a thread.
abbrev pub last_of : Disposition → List Disposition → Disposition
last_of d [] = d
last_of d (x ∷ xs) = last_of x xs

-- What is not at the end has one behind it.
named_or_last :
    (root : Disposition) (others : List Disposition) (x : Disposition)
    → Follows root others
    → Memᴰ x (root ∷ others)
    → (x ≡ last_of root others)
      ⊎ ((n : Disposition) × Memᴰ n others × (n.previous_disposition_id ≡ some x.disposition_id))
named_or_last root [] x f (Memᴰ.head q) = inl q
named_or_last root [] x f (Memᴰ.tail m) = elim m [ ]
named_or_last root (d ∷ ds) x (Follows.next s f) (Memᴰ.head q) =
    inr (d, Memᴰ.head refl, s.names ∙ ap (λ (y : Disposition). some y.disposition_id) (sym q))
named_or_last root (d ∷ ds) x (Follows.next s f) (Memᴰ.tail m) = elim (named_or_last d ds x f m) [
  | inl end ↦ inl end
  | inr (n, k, e) ↦ inr (n, Memᴰ.tail k, e)
]

-- No record names it.
abbrev pub HasNoNext : List Disposition → Disposition → Type 0
HasNoNext file x =
    (n : Disposition) → Memᴰ n file → n.previous_disposition_id ≡ some x.disposition_id → ⊥

IsThread-last :
    (records : List Disposition) (t : IsThread records) (x : Disposition)
    → Memᴰ x records
    → HasNoNext records x
    → x ≡ last_of t.root t.others
IsThread-last records t x m unnamed =
    elim (named_or_last t.root t.others x t.follows (Memᴰ-Permᴰ t.reordered m)) [
      | inl end ↦ end
      | inr (n, k, e) ↦ absurd (unnamed n (Memᴰ-Permᴰ (Permᴰ.symm t.reordered) (Memᴰ.tail k)) e)
    ]

-- Two records of a decided finding that none names are the same.
IsDecided-last :
    (records : List Disposition) (x y : Disposition)
    → IsDecided records
    → Memᴰ x records
    → Memᴰ y records
    → HasNoNext records x
    → HasNoNext records y
    → x ≡ y
IsDecided-last [] x y t m n h k = elim m [ ]
IsDecided-last (r ∷ rs) x y t m n h k =
    IsThread-last (r ∷ rs) t x m h ∙ sym (IsThread-last (r ∷ rs) t y n k)

heads-HasNoNext :
    (file : List Disposition) (x : Disposition)
    → not (is_predecessor file x.disposition_id) ≡ true
    → HasNoNext file x
heads-HasNoNext file x h n m e = clash (is_predecessor file x.disposition_id) h (
    subst (λ o. contains (map (λ (d : Disposition). d.previous_disposition_id) file) o ≡ true) e
      (contains-of_Memᴰ (λ (d : Disposition). d.previous_disposition_id) n file m))
  where
    clash : (b : Bool) → not b ≡ true → b ≡ true → ⊥
    clash true h k = cc
    clash false h k = cc

module _ (digest : String → String) (guardian_reports : List GuardianReport)
    (file hs : List Disposition) where
  -- A current disposition is in the store, and none names it.
  pub current-HasNoNext :
      (x : Disposition)
      → current_guardian_dispositions digest guardian_reports file ≡ ok hs
      → Memᴰ x hs
      → Memᴰ x file × HasNoNext file x
  unfolding current_guardian_dispositions
  current-HasNoNext x e m =
      let (clean, made) =
        first_diagnostic-ok (guardian_disposition_diagnostics digest guardian_reports file)
          (sort_by in_finding_order (heads file)) hs e in
      let (n, free) =
        select-Memᴰ (λ (d : Disposition). not (is_predecessor file d.disposition_id)) x file
          (sort_by-Memᴰ in_finding_order x (heads file) (subst (Memᴰ x) (sym made) m)) in
      (n, heads-HasNoNext file x free)

  -- Current dispositions of the same finding are the same.
  pub current_guardian_dispositions_unique :
      (x y : Disposition)
      → current_guardian_dispositions digest guardian_reports file ≡ ok hs
      → Memᴰ x hs
      → Memᴰ y hs
      → finding_of x ≡ finding_of y
      → x ≡ y
  unfolding current_guardian_dispositions
  current_guardian_dispositions_unique x y e m n same =
      let (clean, made) =
        first_diagnostic-ok (guardian_disposition_diagnostics digest guardian_reports file)
          (sort_by in_finding_order (heads file)) hs e in
      let (_, _, decided) =
        guardian_disposition_diagnostics-IsDecided digest guardian_reports file clean in
      let (a, free_x) = current-HasNoNext x e m in
      let (b, free_y) = current-HasNoNext y e n in
      IsDecided-last records x y (decided (finding_of y))
        (Memᴰ-select of_finding x file a
          ((finding_eq.beq_iff (finding_of x) (finding_of y)).1 same))
        (Memᴰ-select of_finding y file b (beq_refl (finding_of y)))
        (λ z k. free_x z (select-Memᴰ of_finding z file k).0)
        (λ z k. free_y z (select-Memᴰ of_finding z file k).0)
    where
      of_finding : Disposition → Bool
      of_finding d = finding_of d == finding_of y

      records : List Disposition
      records = select of_finding file
