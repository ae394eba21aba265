-- ===== src/Transactions/Integrity/Accepted.antt =====
-- When `transaction_integrity_diagnostics` (storage/transactions.py) reports nothing.
use lit_grove.Prelude.{
  Pairwise, All-map, All-select, ◌≡◌, ◌↔◌, sym, subst, List, [], All, select, flat_map, sort_by,
  append-empty, string_eq, ◌==◌, option_eq, group_from, All-sort_by, All-sorted_by,
}
use lit_grove.Diagnostics.{Diagnostic}
use lit_grove.Transactions.State.{Event}
use lit_grove.Transactions.Integrity.{
  JournalFile, Disk, Completed, group_diagnostics, target_key, TargetKey, target_key_eq,
  in_log_order, by_path_name, examine_all, transaction_integrity_diagnostics,
}
use lit_grove.Transactions.Integrity.Sound.{IsSound, completed_journals, IsLinked, Precedes}
use lit_grove.Transactions.Integrity.Ordered.{
  IsSettled, IsLocated, completed_journals-IsLocated, sorted-Precedes,
}
use lit_grove.Transactions.Integrity.Examined.{examine_all-IsSound, examine_all-completed}
use lit_grove.Transactions.Integrity.Linked.{groups-IsLinked}

-- The journals of one target, sorted as the second loop sorts them.
abbrev pub journals_of : List Event → List JournalFile → TargetKey → List Completed
journals_of events files target = sort_by in_log_order (
    select (λ (c : Completed). target_key c.journal == target)
      (completed_journals events (sort_by by_path_name files)))

module _ (disk : Disk) (events : List Event) where
  -- The report is empty exactly if each file is a valid journal that is named by its event ID, whose path is
  -- one of its store and can be inspected, which is complete with success or failure, and whose event is in
  -- the log and is the only one with its ID; and if for each target, in the list of its journals that the
  -- loop goes through, the events of the journals stand in the log in the order of the list, each journal
  -- starts from what the one before left (its new digest after a success, its old one after a failure), and
  -- the file has the digest that the last left.
  pub transaction_integrity_diagnostics-IsLinked :
      (files : List JournalFile)
      → (transaction_integrity_diagnostics disk events files ≡ []) ↔ (
          All (IsSound disk events) files
          × ((target : TargetKey)
              → IsLinked disk (journals_of events files target)
                × Pairwise (Precedes events) (journals_of events files target)))
  unfolding transaction_integrity_diagnostics
  transaction_integrity_diagnostics-IsLinked files = (
    λ h.
        (let (a, b) = (append-empty (examine_all disk events sorted).0 _).0 h in
          let sound = (examine_all-IsSound disk events sorted).0 a in
          let located = completed_journals-IsLocated disk events sorted sound in
          (
            All-sorted_by by_path_name (IsSound disk events) files sound,
            λ target. (
              (groups-IsLinked disk (completed_journals events sorted)
                    (settled (completed_journals events sorted) located)).0
                  (subst (λ cs. reported cs ≡ []) (examine_all-completed disk events sorted sound)
                    b)
                  target,
              sorted-Precedes events _ (
                  All-select (IsLocated events) (λ (c : Completed). target_key c.journal == target)
                    (completed_journals events sorted) located),
            ),
          )),
    λ h.
        (let sound = All-sort_by by_path_name (IsSound disk events) files h.0 in
          (append-empty (examine_all disk events sorted).0 _).1 (
            (examine_all-IsSound disk events sorted).1 sound,
            subst (λ cs. reported cs ≡ []) (sym (examine_all-completed disk events sorted sound))
                ((groups-IsLinked disk (completed_journals events sorted) (
                    settled (completed_journals events sorted)
                      (completed_journals-IsLocated disk events sorted sound))).1
                  (λ target. (h.1 target).0)),
          )),
  )
    where
      sorted : List JournalFile
      sorted = sort_by by_path_name files

      settled :
          (cs : List Completed)
          → All (IsLocated events) cs
          → All (λ (c : Completed). IsSettled c.journal) cs
      settled cs l = All-map cs (λ (c : Completed) k. k.settled) l

      reported : List Completed → List Diagnostic
      reported cs =
          flat_map (group_diagnostics disk)
            (group_from (λ (c : Completed). target_key c.journal) [] cs)
