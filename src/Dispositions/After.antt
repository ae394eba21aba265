-- ===== src/Dispositions/After.antt =====
-- The store after `record` (services/guardian_disposition.py) has written a disposition.
use lit_grove.Prelude.{
  String, ◌≡◌, ◌⊎◌, inl, inr, refl, sym, ap, ◌∙◌, subst, Bool-cases, Option-cases, Bool, true,
  false, not, ◌&&◌, Option, none, some, List, [], ◌∷◌, ◌++◌, map, contains, contains-map, Memᴰ,
  Memᴰ-select, Memᴰ-sort_by, Memᴰ-append, Memᴰ-snoc, find-Memᴰ, find-none, contains-of_Memᴰ,
  sort_by, if◌then◌else◌, ◌==◌, string_eq, nat_eq, option_eq, beq_refl, beq-false, arith,
}
use lit_grove.Diagnostics.{ok, err}
use lit_grove.Jobs.Chain.{first_diagnostic}
use lit_grove.Dispositions.State.{status_eq, Disposition, GuardianReport}
use lit_grove.Dispositions.Report.{
  finding_of, finding_eq, finding_beq, is_predecessor, heads, in_finding_order,
  guardian_disposition_diagnostics, current_guardian_dispositions,
}
use lit_grove.Dispositions.Heads.{
  HasNoNext, current-HasNoNext, current_guardian_dispositions_unique,
}
use lit_grove.Dispositions.Service.{
  Env, Fresh, Request, id_of, is_same, replay, append_new, current_of, changed_before,
  new_disposition, swap,
}
use lit_grove.Dispositions.Named.{named_there}

module _ (env : Env) (guardian_reports : List GuardianReport) (existing hs : List Disposition)
    (fresh : Fresh) (r : Request) (finding : String)
    (clean : guardian_disposition_diagnostics env.finding_digest guardian_reports existing ≡ [])
    (current : current_guardian_dispositions env.finding_digest guardian_reports existing ≡ ok hs)
    (unused : contains (map (λ (x : Disposition). x.disposition_id) existing) fresh.disposition_id
      ≡ false) where
  abbrev made : Disposition
  made = new_disposition env fresh r finding (current_of r hs)

  abbrev file : List Disposition
  file = existing ++ made ∷ []

  abbrev is_of_request : Disposition → Bool
  is_of_request d =
      d.guardian_report_id == r.guardian_report_id && d.finding_index == r.finding_index

  id_is_new :
      contains (map (λ (x : Disposition). x.disposition_id) existing) made.disposition_id ≡ false
  unfolding new_disposition
  id_is_new = unused

  not_there :
      (id : String)
      → contains (map (λ (x : Disposition). x.disposition_id) existing) id ≡ true
      → id ≡ made.disposition_id
      → ⊥
  not_there id h q = clash (
      sym
        (subst (λ i. contains (map (λ (x : Disposition). x.disposition_id) existing) i ≡ true) q h)
      ∙ id_is_new)
    where
      clash : true ≡ false → ⊥
      clash p = cc

  -- The head of the finding, if there is one, is in the store.
  head_there :
      (c : Disposition)
      → current_of r hs ≡ some c
      → contains (map (λ (x : Disposition). x.disposition_id) existing) c.disposition_id ≡ true
  head_there c q =
      contains-of_Memᴰ (λ (x : Disposition). x.disposition_id) c existing
        (current-HasNoNext env.finding_digest guardian_reports existing hs c current
          (find-Memᴰ is_of_request c hs q).0).0

  head_differs :
      (o : Option Disposition) → current_of r hs ≡ o → id_of o ≡ some made.disposition_id → ⊥
  head_differs none q e = cc
  head_differs (some c) q e = not_there c.disposition_id (head_there c q) (inner e)
    where
      inner : {a b : String} → some a ≡ some b → a ≡ b
      inner p = cc

  unnamed : HasNoNext file made
  unfolding new_disposition
  unnamed n m e = elim (Memᴰ-snoc n made existing m) [
    | inl old ↦
        not_there made.disposition_id
          (named_there env.finding_digest guardian_reports existing n made.disposition_id clean old
            e)
          refl
    | inr same ↦
        head_differs (current_of r hs) refl
          (sym (ap (λ (x : Disposition). x.previous_disposition_id) same) ∙ e)
  ]

  made_is_head : Memᴰ made (sort_by in_finding_order (heads file))
  made_is_head = Memᴰ-sort_by in_finding_order made (heads file) (
      Memᴰ-select (λ (d : Disposition). not (is_predecessor file d.disposition_id)) made file
        (Memᴰ-append made existing (made ∷ []) (Memᴰ.head refl))
        (free (Bool-cases (is_predecessor file made.disposition_id))))
    where
      free :
          (is_predecessor file made.disposition_id ≡ true)
            ⊎ (is_predecessor file made.disposition_id ≡ false)
          → not (is_predecessor file made.disposition_id) ≡ true
      free (inl named) =
          let (n, m, e) =
            contains-map (λ (d : Disposition). d.previous_disposition_id) file
              (some made.disposition_id) named in
          absurd (unnamed n m e)
      free (inr q) = ap not q

  module _
      (accepted : guardian_disposition_diagnostics env.finding_digest guardian_reports file
        ≡ []) where
    pub current_after :
        current_guardian_dispositions env.finding_digest guardian_reports file
        ≡ ok (sort_by in_finding_order (heads file))
    unfolding current_guardian_dispositions
    current_after = ap (λ ds. first_diagnostic ds (sort_by in_finding_order (heads file))) accepted

    -- The new disposition is the head of its finding.
    pub head_after : current_of r (sort_by in_finding_order (heads file)) ≡ some made
    unfolding new_disposition finding_beq
    head_after = elim (Option-cases (current_of r (sort_by in_finding_order (heads file)))) [
      | inl missing ↦ absurd (
          clash (
            sym (
              find-none is_of_request made (sort_by in_finding_order (heads file)) missing
                made_is_head)
            ∙ both (beq_refl r.guardian_report_id) (beq_refl r.finding_index)))
      | inr (h, q) ↦
          let (m, passes) = find-Memᴰ is_of_request h (sort_by in_finding_order (heads file)) q in
          q
          ∙ ap some (
              current_guardian_dispositions_unique env.finding_digest guardian_reports file
                (sort_by in_finding_order (heads file)) h made current_after m made_is_head
                ((finding_eq.beq_iff (finding_of h) (finding_of made)).0 passes))
    ]
      where
        clash : false ≡ true → ⊥
        clash p = cc

        both :
            (r.guardian_report_id == r.guardian_report_id) ≡ true
            → (r.finding_index == r.finding_index) ≡ true
            → is_of_request made ≡ true
        both a b = ground arith

    -- It is not the expected one, and is what the request stands for.
    pub swap_after :
        (again : Fresh) (other : String)
        → id_of (current_of r hs) ≡ r.expected_previous_disposition_id
        → swap env guardian_reports file again r other (some made)
          ≡ ok (record { disposition = made; proposed = none })
    unfolding swap new_disposition
    swap_after again other expected =
        ap
          (λ b.
            if b
            then append_new env guardian_reports file again r other (some made)
            else replay r (some made))
          (beq-false (some made.disposition_id) r.expected_previous_disposition_id
            (λ q. head_differs (current_of r hs) refl (expected ∙ sym q)))
        ∙ ap
            (λ b.
              if b
              then ok (record { disposition = made; proposed = none })
              else err (changed_before (some made)))
            (all_same
              (beq_true (id_of (current_of r hs)) r.expected_previous_disposition_id expected)
              (beq_refl r.status) (beq_refl r.rationale) (beq_refl r.actor))
      where
        beq_true : (a b : Option String) → a ≡ b → (a == b) ≡ true
        beq_true a b q = (option_eq.beq_iff a b).1 q

        all_same :
            (id_of (current_of r hs) == r.expected_previous_disposition_id) ≡ true
            → (r.status == r.status) ≡ true
            → (r.rationale == r.rationale) ≡ true
            → (r.actor == r.actor) ≡ true
            → is_same r made ≡ true
        all_same a b c d = ground arith
