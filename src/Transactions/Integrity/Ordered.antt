-- ===== src/Transactions/Integrity/Ordered.antt =====
-- The order in which `transaction_integrity_diagnostics` (storage/transactions.py) takes the journals of a target.
use lit_grove.Prelude.{
  ℕ, suc, ◌≤◌, String, ◌≡◌, ◌≢◌, refl, sym, ap, subst, inl, inr, ◌⊎◌, Bool, true, false, Option,
  none, some, List, [], ◌∷◌, ◌++◌, All, Pairwise, Memᴰ, Memᴰ-append, sort_by, sort_by-Pairwise,
  All-sort_by, eq_of_beq, string_eq, nat_eq, ◌==◌, if◌then◌else◌, arith,
}
use lit_grove.Transactions.State.{success, failure, Outcome, Journal, Event}
use lit_grove.Transactions.Manager.{journal_event}
use lit_grove.Transactions.Integrity.{
  Reading, unreadable, refused, accepted, JournalFile, Disk, Completed, matching_events,
  event_position, in_log_order, in_position, by_creation,
}
use lit_grove.Transactions.Integrity.Sound.{
  IsSound, completed_reading, completed_journals, Precedes,
}
use lit_grove.Transactions.Integrity.Matching.{matching_events-only}

abbrev pub IsSettled : Journal → Type 0
IsSettled j = (j.result ≡ some success) ⊎ (j.result ≡ some failure)

settled_of :
    (j : Journal) (r : Outcome) → j.result ≡ some r → r ≢ Outcome.needs_resolution → IsSettled j
settled_of j success e n = inl e
settled_of j failure e n = inr e
settled_of j Outcome.needs_resolution e n = absurd (n refl)

-- The journal is settled, and the search has found one event of it, at its position.
pub record IsLocated (events : List Event) (c : Completed) : Type 0 where
  pub place : ℕ
  pub event : Event
  pub found : matching_events 0 c.journal.event_id events ≡ (place, event) ∷ []
  pub position : c.position ≡ some place
  pub settled : IsSettled c.journal

pub completed_journals-IsLocated :
    (disk : Disk) (events : List Event) (files : List JournalFile)
    → All (IsSound disk events) files
    → All (IsLocated events) (completed_journals events files)
unfolding mathlib.Core.List.flat_map
completed_journals-IsLocated disk events [] h = tt
completed_journals-IsLocated disk events (f ∷ files) h =
    go f.content h.0 (completed_journals-IsLocated disk events files h.1)
  where
    go :
        (r : Reading)
        → IsSound disk events (record f { content = r })
        → All (IsLocated events) (completed_journals events files)
        → All
            (IsLocated events)
            (completed_reading events f.name r ++ completed_journals events files)
    go (unreadable d) s again = absurd s
    go (refused d ds) s again = absurd s
    go (accepted j) s again =
        let (m, q) =
          (matching_events-only 0 j.event_id (journal_event j s.result) events).1 s.event in
        (
          record {
            place = m;
            event = journal_event j s.result;
            found = q;
            position = ap event_position q;
            settled = settled_of j s.result s.recorded s.settled;
          },
          again,
        )

matching_events-from :
    (k m : ℕ) (id : String) (e : Event) (events : List Event)
    → matching_events k id events ≡ (m, e) ∷ []
    → k ≤ m
unfolding matching_events
matching_events-from k m id e [] h = cc
matching_events-from k m id e (x ∷ events) h =
    go (x.event_id == id) h (matching_events-from (suc k) m id e events)
  where
    here : {xs ys : List (ℕ × Event)} → (k, x) ∷ xs ≡ (m, e) ∷ ys → k ≡ m
    here q = cc

    go :
        (b : Bool)
        → (if b
            then (k, x) ∷ matching_events (suc k) id events
            else matching_events (suc k) id events)
          ≡ (m, e) ∷ []
        → (matching_events (suc k) id events ≡ (m, e) ∷ [] → suc k ≤ m)
        → k ≤ m
    go true q again = at_first (here q)
      where
        at_first : k ≡ m → k ≤ m
        at_first p = omega arith
    go false q again = later (again q)
      where
        later : suc k ≤ m → k ≤ m
        later p = omega arith

-- Of two events of the log, the one at the lower position comes first.
found-Precedes :
    (a b : Completed) (k m n : ℕ) (x y : Event) (events : List Event)
    → matching_events k a.journal.event_id events ≡ (m, x) ∷ []
    → matching_events k b.journal.event_id events ≡ (n, y) ∷ []
    → m ≤ n
    → Precedes events a b
unfolding matching_events
found-Precedes a b k m n x y [] p q le = cc
found-Precedes a b k m n x y (e ∷ events) p q le =
    go (e.event_id == a.journal.event_id) (eq_of_beq e.event_id a.journal.event_id)
      (e.event_id == b.journal.event_id) (eq_of_beq e.event_id b.journal.event_id) p q
      (λ p' q'. found-Precedes a b (suc k) m n x y events p' q' le)
  where
    at : {i j : ℕ} {e f : Event} {xs ys : List (ℕ × Event)} → (i, e) ∷ xs ≡ (j, f) ∷ ys → i ≡ j
    at r = cc

    too_late : k ≡ n → suc k ≤ m → ⊥
    too_late r s = omega arith

    go :
        (i : Bool)
        → (i ≡ true → e.event_id ≡ a.journal.event_id)
        → (j : Bool) → (j ≡ true → e.event_id ≡ b.journal.event_id)
        → (if i
            then (k, e) ∷ matching_events (suc k) a.journal.event_id events
            else matching_events (suc k) a.journal.event_id events)
          ≡ (m, x) ∷ []
        → (if j
            then (k, e) ∷ matching_events (suc k) b.journal.event_id events
            else matching_events (suc k) b.journal.event_id events)
          ≡ (n, y) ∷ []
        → (matching_events (suc k) a.journal.event_id events ≡ (m, x) ∷ []
            → matching_events (suc k) b.journal.event_id events ≡ (n, y) ∷ []
            → Precedes events a b)
        → Precedes (e ∷ events) a b
    go true same_a true same_b p q again = record {
      before = [];
      first = e;
      after = events;
      second = e;
      log = refl;
      first_id = same_a refl;
      from_there = Memᴰ.head refl;
      second_id = same_b refl;
    }
    go true same_a false same_b p q again =
        let only = (matching_events-only (suc k) b.journal.event_id y events).0 (n, q) in
        record {
          before = [];
          first = e;
          after = events;
          second = y;
          log = refl;
          first_id = same_a refl;
          from_there = Memᴰ.tail (
              subst (Memᴰ y) (sym only.log)
                (Memᴰ-append y only.before (y ∷ only.after) (Memᴰ.head refl)));
          second_id = only.same_id;
        }
    go false same_a true same_b p q again =
        absurd (too_late (at q) (matching_events-from (suc k) m a.journal.event_id x events p))
    go false same_a false same_b p q again =
        let later = again p q in
        record {
          before = e ∷ later.before;
          first = later.first;
          after = later.after;
          second = later.second;
          log = ap (λ l. e ∷ l) later.log;
          first_id = later.first_id;
          from_there = later.from_there;
          second_id = later.second_id;
        }

-- A journal without a position comes last.
abbrev IsNotAfter : Option ℕ → Option ℕ → Type 0
IsNotAfter m none = Unit
IsNotAfter none (some n) = ⊥
IsNotAfter (some m) (some n) = m ≤ n

in_position-true : (m n : Option ℕ) (rest : Bool) → in_position m n rest ≡ true → IsNotAfter m n
in_position-true m none rest h = tt
in_position-true none (some n) rest h = cc
in_position-true (some m) (some n) rest h = ground (arith, nat_eq.beq_iff m n)

in_position-false : (m n : Option ℕ) (rest : Bool) → in_position m n rest ≡ false → IsNotAfter n m
in_position-false none n rest h = tt
in_position-false (some m) none rest h = cc
in_position-false (some m) (some n) rest h = ground (arith, nat_eq.beq_iff m n)

IsNotAfter-trans : (m n o : Option ℕ) → IsNotAfter m n → IsNotAfter n o → IsNotAfter m o
IsNotAfter-trans m n none p q = tt
IsNotAfter-trans m none (some o) p q = absurd q
IsNotAfter-trans none (some n) (some o) p q = absurd p
IsNotAfter-trans (some m) (some n) (some o) p q = omega arith

abbrev IsNotBehind : Completed → Completed → Type 0
IsNotBehind a b = IsNotAfter a.position b.position

in_order-Precedes :
    (events : List Event) (cs : List Completed)
    → All (IsLocated events) cs
    → Pairwise IsNotBehind cs
    → Pairwise (Precedes events) cs
in_order-Precedes events [] h k = tt
in_order-Precedes events (c ∷ cs) h k = (each cs h.1 k.0, in_order-Precedes events cs h.1 k.1)
  where
    each :
        (ds : List Completed)
        → All (IsLocated events) ds
        → All (IsNotBehind c) ds
        → All (Precedes events c) ds
    each [] l n = tt
    each (d ∷ ds) l n = (
      found-Precedes c d 0 h.0.place l.0.place h.0.event l.0.event events h.0.found l.0.found (
          subst (IsNotAfter (some h.0.place)) l.0.position
            (subst (λ p. IsNotAfter p d.position) h.0.position n.0)),
      each ds l.1 n.1,
    )

-- The journals of sound files, sorted as the second loop sorts them, are in the order of their events.
pub sorted-Precedes :
    (events : List Event) (cs : List Completed)
    → All (IsLocated events) cs
    → Pairwise (Precedes events) (sort_by in_log_order cs)
sorted-Precedes events cs h =
    in_order-Precedes events (sort_by in_log_order cs)
      (All-sort_by in_log_order (IsLocated events) cs h)
      (sort_by-Pairwise in_log_order
        (λ a b. in_position-true a.position b.position (by_creation a b))
        (λ a b. in_position-false a.position b.position (by_creation a b))
        (λ a b c. IsNotAfter-trans a.position b.position c.position) cs)
