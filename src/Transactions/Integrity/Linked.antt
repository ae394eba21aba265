-- ===== src/Transactions/Integrity/Linked.antt =====
-- The second loop of `transaction_integrity_diagnostics` (storage/transactions.py): the journals of each target.
use lit_grove.Prelude.{
  sym, ◌∙◌, inl, inr, if◌then◌else◌, All, All-sort_by, All-select, String, ◌≡◌, ◌↔◌, refl, ap,
  false, Option, none, some, List, [], ◌∷◌, select, flat_map, sort_by, append-empty, differs-false,
  string_eq, ◌==◌, option_eq, All-group_from, group_from, flat_map-eq-nil,
}
use lit_grove.Diagnostics.{report_if-eq-nil}
use lit_grove.Transactions.State.{success, failure, outcome_eq, Journal}
use lit_grove.Transactions.Integrity.{
  Disk, Completed, digest_after, breaks_chain, chain_diagnostics, current_diagnostics,
  link_diagnostics, items_diagnostics, group_diagnostics, target_key, TargetKey, target_key_eq,
  in_log_order,
}
use lit_grove.Transactions.Integrity.Sound.{IsLeftBy, Links, last, link, IsLinked}
use lit_grove.Transactions.Integrity.Ordered.{IsSettled}

-- The code's digest after a settled journal is the one that it leaves.
digest_after-IsLeftBy :
    (j : Journal) (d : Option String) → IsSettled j → (d ≡ digest_after j) ↔ IsLeftBy j d
digest_after-IsLeftBy j d (inl e) = (λ q. inl (e, q ∙ value), back)
  where
    value : digest_after j ≡ some j.after_sha256
    value = ap (λ o. if o == some success then some j.after_sha256 else j.before_sha256) e

    back : IsLeftBy j d → d ≡ digest_after j
    back (inl (k, q)) = q ∙ sym value
    back (inr (k, q)) = absurd (clash (sym e ∙ k))
      where
        clash : some success ≡ some failure → ⊥
        clash h = cc
digest_after-IsLeftBy j d (inr e) = (λ q. inr (e, q ∙ value), back)
  where
    value : digest_after j ≡ j.before_sha256
    value = ap (λ o. if o == some success then some j.after_sha256 else j.before_sha256) e

    back : IsLeftBy j d → d ≡ digest_after j
    back (inl (k, q)) = absurd (clash (sym k ∙ e))
      where
        clash : some success ≡ some failure → ⊥
        clash h = cc
    back (inr (k, q)) = q ∙ sym value

module _ (disk : Disk) where
  current_diagnostics-eq-nil :
      (o : Option (Option String)) (j : Journal)
      → (current_diagnostics o j ≡ []) ↔ (o ≡ some (digest_after j))
  unfolding current_diagnostics
  current_diagnostics-eq-nil none j = (λ h. cc, λ h. cc)
  current_diagnostics-eq-nil (some digest) j = (
    λ h. ap some ((differs-false _ _).0 ((report_if-eq-nil _ _).0 h)),
    λ h. (report_if-eq-nil _ _).1 ((differs-false _ _).1 (inner h)),
  )
    where
      inner : some digest ≡ some (digest_after j) → digest ≡ digest_after j
      inner q = cc

  -- The report on one target is empty exactly if its journals are linked.
  link_diagnostics-Links :
      (previous : Option (Option String)) (c : Completed) (cs : List Completed)
      → All (λ (x : Completed). IsSettled x.journal) (c ∷ cs)
      → (link_diagnostics disk previous c cs ≡ [])
        ↔ ((breaks_chain previous c.journal ≡ false) × Links disk c cs)
  unfolding link_diagnostics chain_diagnostics
  link_diagnostics-Links previous c [] s =
      let current =
        current_diagnostics-eq-nil (disk.current_digest c.journal.target_relative_path) c.journal in
      (
        λ h.
            (let (a, b) = (append-empty _ _).0 h in
              (
                (report_if-eq-nil _ _).0 a,
                last ((digest_after-IsLeftBy c.journal (digest_after c.journal) s.0).0 refl)
                    (current.0 b),
              )),
        λ h. (append-empty _ _).1 ((report_if-eq-nil _ _).1 h.0, current.1 (at_end h.1)),
      )
    where
      at_end :
          Links disk c []
          → disk.current_digest c.journal.target_relative_path ≡ some (digest_after c.journal)
      at_end (last {digest = d} l q) = q ∙ ap some ((digest_after-IsLeftBy c.journal d s.0).1 l)
  link_diagnostics-Links previous c (next ∷ rest) s =
      let again = link_diagnostics-Links (some (digest_after c.journal)) next rest s.1 in
      let left = digest_after-IsLeftBy c.journal next.journal.before_sha256 s.0 in
      (
        λ h.
            (let (a, b) = (append-empty _ _).0 h in
              let (d, e) = again.0 b in
              ((report_if-eq-nil _ _).0 a, link (left.0 ((differs-false _ _).0 d)) e)),
        λ h. (append-empty _ _).1 ((report_if-eq-nil _ _).1 h.0, again.1 (ahead h.1)),
      )
    where
      ahead :
          Links disk c (next ∷ rest)
          → (breaks_chain (some (digest_after c.journal)) next.journal ≡ false)
            × Links disk next rest
      ahead (link l r) = (
        (differs-false _ _).1
            ((digest_after-IsLeftBy c.journal next.journal.before_sha256 s.0).1 l),
        r,
      )

  items_diagnostics-IsLinked :
      (items : List Completed)
      → All (λ (x : Completed). IsSettled x.journal) items
      → (items_diagnostics disk items ≡ []) ↔ IsLinked disk items
  unfolding items_diagnostics
  items_diagnostics-IsLinked [] s = (λ h. tt, λ h. refl)
  items_diagnostics-IsLinked (c ∷ cs) s =
      let links = link_diagnostics-Links none c cs s in (λ h. (links.0 h).1, λ h. links.1 (refl, h))

  pub groups-IsLinked :
      (cs : List Completed)
      → All (λ (x : Completed). IsSettled x.journal) cs
      → (flat_map
            (group_diagnostics disk)
            (group_from (λ (c : Completed). target_key c.journal) [] cs)
          ≡ [])
        ↔ ((target : TargetKey)
            → IsLinked disk (
                sort_by in_log_order
                  (select (λ (c : Completed). target_key c.journal == target) cs)))
  unfolding group_diagnostics items_diagnostics
  groups-IsLinked cs s =
      let groups =
        flat_map-eq-nil (group_diagnostics disk)
          (group_from (λ (c : Completed). target_key c.journal) [] cs) in
      let by_target =
        All-group_from (λ (c : Completed). target_key c.journal)
          (λ items. items_diagnostics disk (sort_by in_log_order items) ≡ []) cs refl in
      (
        λ h target.
            (items_diagnostics-IsLinked _ (settled target)).0 (by_target.0 (groups.0 h) target),
        λ h.
            groups.1 (
              by_target.1 (λ target. (items_diagnostics-IsLinked _ (settled target)).1 (h target))),
      )
    where
      settled :
          (target : TargetKey)
          → All
              (λ (x : Completed). IsSettled x.journal)
              (sort_by in_log_order (select (λ (c : Completed). target_key c.journal == target) cs))
      settled target =
          All-sort_by in_log_order (λ (x : Completed). IsSettled x.journal) _
            (All-select (λ (x : Completed). IsSettled x.journal)
              (λ (c : Completed). target_key c.journal == target) cs s)
