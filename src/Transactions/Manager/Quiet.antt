-- ===== src/Transactions/Manager/Quiet.antt =====
-- Calls of a transaction that leave the disk as it is (storage/transactions.py).
use lit_grove.Prelude.{Option, none, some, option_eq, string_eq}
use lit_grove.Transactions.State.{Journal, Canonical, Temporary}
use lit_grove.Transactions.Action.{Action, Exit, returned, World, Rest, ◌>>=◌, unlink}
use lit_grove.Transactions.Rules.{Triple, IsQuiet, Ends, world, Triple-bind, unlink-IsQuiet}
use lit_grove.Transactions.Manager.{set_temporary, unlink_temporary}

pub set_temporary-IsQuiet : (t : Option Temporary) → IsQuiet (set_temporary t)
set_temporary-IsQuiet t = record { triple = λ {P} {X} c j p x. record { at = λ r. p } }

module _ {P : Unit {0} → Canonical → Journal → Type 0} {X : Canonical → Journal → Type 0} where
  pub Triple-unlink_temporary :
      (c : Canonical) (j : Journal) → P tt c j → X c j → Triple unlink_temporary c j P X
  unfolding unlink_temporary
  Triple-unlink_temporary c j p x = record { at = λ r. go r r.temporary }
    where
      go :
          (r : Rest) (o : Option Temporary)
          → Ends P X (elim o as (λ _. Exit (Unit {0}) × World) [
            | none ↦ (returned tt, world c j r)
            | some t ↦ unlink t (world c j r)
          ])
      go r none = p
      go r (some t) = ((unlink-IsQuiet t).triple {P = P} {X = X} c j p x).at r

-- An action that keeps `Q`, before the rest `k`.
module _ {A : Type 0} {X : Canonical → Journal → Type 0}
    {P : A → Canonical → Journal → Type 0} where
  pub Triple-quiet :
      {m : Action (Unit {0})} (k : Unit {0} → Action A) {c : Canonical} {j : Journal}
      (Q : Canonical → Journal → Type 0)
      → IsQuiet m
      → Q c j
      → ((c' : Canonical) (j' : Journal) → Q c' j' → X c' j')
      → ((c' : Canonical) (j' : Journal) → Q c' j' → Triple (k tt) c' j' P X)
      → Triple (m >>= k) c j P X
  Triple-quiet {m} k {c} {j} Q q h x next =
      Triple-bind {Q = λ _. Q} {f = k} (q.triple {P = λ _. Q} {X = X} c j h (x c j h))
        (λ _ c' j' h'. next c' j' h')

-- Body of a transaction that began in `c0` with the journal that `req` makes.
