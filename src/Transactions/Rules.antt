-- ===== src/Transactions/Rules.antt =====
-- Rules for what holds of an action however its calls end.
use lit_grove.Prelude.{Bool, true, false, ◌≡◌, refl, List, [], ◌∷◌, contains}
use lit_grove.Transactions.State.{Canonical, Journal, Temporary, temporary_eq}
use lit_grove.Transactions.Action.{
  Exit, returned, raised, interrupted, died, Failure, World, Rest, Fault, works, raises, interrupts,
  dies, os_error, Action, pure, raise, gets, ◌>>=◌, ◌>>◌, raise_if, except_exception, finally,
  effect, call, open_exclusive, unlink, write_fsynced_temp, replace_temp, atomic_write_bytes,
}

-- `P` where the action returns, `X` where it raises, is interrupted or dies.
abbrev pub Ends :
    {A : Type 0}
    → (A → Canonical → Journal → Type 0)
    → (Canonical → Journal → Type 0)
    → Exit A × World
    → Type 0
Ends P X (returned a, w) = P a w.canonical w.journal
Ends P X (raised e, w) = X w.canonical w.journal
Ends P X (interrupted, w) = X w.canonical w.journal
Ends P X (died, w) = X w.canonical w.journal

abbrev pub world : Canonical → Journal → Rest → World
world c j r = record { canonical = c; journal = j; rest = r }

-- From the canonical files `c` and the variable `j`, whatever the faults and leftover files.
pub record Triple {A : Type 0} (m : Action A) (c : Canonical) (j : Journal)
    (P : A → Canonical → Journal → Type 0) (X : Canonical → Journal → Type 0) : Type 0 where
  pub at : (r : Rest) → Ends P X (m (world c j r))

-- An action that leaves the canonical files and the variable alone.
pub record IsQuiet (m : Action (Unit {0})) : Type 1 where
  pub triple :
      {P : Unit {0} → Canonical → Journal → Type 0} {X : Canonical → Journal → Type 0}
      (c : Canonical) (j : Journal)
      → P tt c j
      → X c j
      → Triple m c j P X

module _ {X : Canonical → Journal → Type 0} where
  pub Triple-effect :
      {P : Unit {0} → Canonical → Journal → Type 0} (f : Canonical → Canonical)
      (g : List Temporary → List Temporary) (c : Canonical) (j : Journal)
      → P tt (f c) j
      → X c j
      → Triple (effect f g) c j P X
  unfolding effect
  Triple-effect {P} f g c j p x = record { at = λ r. go r r.schedule }
    where
      go :
          (r : Rest) (s : List Fault)
          → Ends P X (unfold effect in effect f g (world c j (record r { schedule = s })))
      go r [] = p
      go r (works ∷ s) = p
      go r (raises ∷ s) = x
      go r (interrupts ∷ s) = x
      go r (dies ∷ s) = x

  pub Triple-bind :
      {A B : Type 0} {Q : A → Canonical → Journal → Type 0} {P : B → Canonical → Journal → Type 0}
      {m : Action A} {f : A → Action B} {c : Canonical} {j : Journal}
      → Triple m c j Q X
      → ((a : A) (c' : Canonical) (j' : Journal) → Q a c' j' → Triple (f a) c' j' P X)
      → Triple (m >>= f) c j P X
  Triple-bind {A} {B} {Q} {P} {m} {f} {c} {j} first next = record {
    at = λ r. go (m (world c j r)) (first.at r);
  }
    where
      go :
          (x : Exit A × World)
          → Ends Q X x
          → Ends P X (elim x.0 as (λ _. Exit B × World) [
            | returned a ↦ f a x.1
            | raised e ↦ (raised e, x.1)
            | interrupted ↦ (interrupted, x.1)
            | died ↦ (died, x.1)
          ])
      go (returned a, w) q = (next a w.canonical w.journal q).at w.rest
      go (raised e, w) q = q
      go (interrupted, w) q = q
      go (died, w) q = q

  pub Triple-weaken :
      {A : Type 0} {Q P : A → Canonical → Journal → Type 0} {Y : Canonical → Journal → Type 0}
      {m : Action A} {c : Canonical} {j : Journal}
      → Triple m c j Q Y
      → ((a : A) (c' : Canonical) (j' : Journal) → Q a c' j' → P a c' j')
      → ((c' : Canonical) (j' : Journal) → Y c' j' → X c' j')
      → Triple m c j P X
  Triple-weaken {A} {Q} {P} {Y} {m} {c} {j} t f g = record {
    at = λ r. go (m (world c j r)) (t.at r);
  }
    where
      go : (x : Exit A × World) → Ends Q Y x → Ends P X x
      go (returned a, w) q = f a w.canonical w.journal q
      go (raised e, w) q = g w.canonical w.journal q
      go (interrupted, w) q = g w.canonical w.journal q
      go (died, w) q = g w.canonical w.journal q

  pub Triple-finally :
      {P : Unit {0} → Canonical → Journal → Type 0} {m : Action (Unit {0})}
      (clean : Action (Unit {0})) {c : Canonical} {j : Journal}
      → IsQuiet clean
      → Triple m c j P X
      → ((c' : Canonical) (j' : Journal) → P tt c' j' → X c' j')
      → Triple (finally m clean) c j P X
  Triple-finally {P} {m} clean {c} {j} quiet t f = record {
    at = λ r. go (m (world c j r)) (t.at r);
  }
    where
      again :
          (b : Action (Unit {0})) (c' : Canonical) (j' : Journal)
          → X c' j'
          → ((c'' : Canonical) (j'' : Journal) → X c'' j'' → Triple b c'' j'' P X)
          → Triple (clean >> b) c' j' P X
      again b c' j' x k =
          Triple-bind {Q = λ _. X} {f = λ _. b} (quiet.triple {P = λ _. X} {X = X} c' j' x x)
            (λ _ c'' j'' y. k c'' j'' y)

      go : (x : Exit (Unit {0}) × World) → Ends P X x → Ends P X (finally (λ _. x) clean x.1)
      go (returned a, w) q =
          (Triple-bind {Q = P} {f = λ _. pure a}
              (quiet.triple {P = P} {X = X} w.canonical w.journal q (f w.canonical w.journal q))
              (λ _ c' j' y. record { at = λ r. y })).at
            w.rest
      go (raised e, w) q =
          (again (raise e) w.canonical w.journal q (λ c' j' y. record { at = λ r. y })).at w.rest
      go (interrupted, w) q =
          (again (λ v. (interrupted, v)) w.canonical w.journal q
              (λ c' j' y. record { at = λ r. y })).at
            w.rest
      go (died, w) q = q

  pub Triple-pure :
      {A : Type 0} {P : A → Canonical → Journal → Type 0} (a : A) (c : Canonical) (j : Journal)
      → P a c j
      → Triple (pure a) c j P X
  Triple-pure a c j p = record { at = λ r. p }

  pub Triple-raise :
      {A : Type 0} {P : A → Canonical → Journal → Type 0} (e : Failure) (c : Canonical)
      (j : Journal)
      → X c j
      → Triple (raise e) c j P X
  Triple-raise e c j x = record { at = λ r. x }

  pub Triple-gets :
      {A : Type 0} {P : A → Canonical → Journal → Type 0} (g : World → A) (c : Canonical)
      (j : Journal)
      → ((r : Rest) → P (g (world c j r)) c j)
      → Triple (gets g) c j P X
  Triple-gets g c j p = record { at = p }

  pub Triple-raise_if :
      {P : Unit {0} → Canonical → Journal → Type 0} (b : Bool) (e : Failure) (c : Canonical)
      (j : Journal)
      → (b ≡ false → P tt c j)
      → X c j
      → Triple (raise_if b e) c j P X
  Triple-raise_if true e c j p x = record { at = λ r. x }
  Triple-raise_if false e c j p x = record { at = λ r. p refl }

  -- `try` with `except Exception`; an interruption passes through.
  pub Triple-except_exception :
      {A : Type 0} {P : A → Canonical → Journal → Type 0} {Y : Canonical → Journal → Type 0}
      {m : Action A} {h : Failure → Action A} {c : Canonical} {j : Journal}
      → Triple m c j P Y
      → ((e : Failure) (c' : Canonical) (j' : Journal) → Y c' j' → Triple (h e) c' j' P X)
      → ((c' : Canonical) (j' : Journal) → Y c' j' → X c' j')
      → Triple (except_exception m h) c j P X
  Triple-except_exception {A} {P} {Y} {m} {h} {c} {j} t k f = record {
    at = λ r. go (m (world c j r)) (t.at r);
  }
    where
      go : (x : Exit A × World) → Ends P Y x → Ends P X (except_exception (λ _. x) h x.1)
      go (returned a, w) q = q
      go (raised e, w) q = (k e w.canonical w.journal q).at w.rest
      go (interrupted, w) q = f w.canonical w.journal q
      go (died, w) q = f w.canonical w.journal q

pub call-IsQuiet : IsQuiet call
unfolding call
call-IsQuiet = record { triple = λ {P} {X} c j p x. Triple-effect (λ c. c) (λ ts. ts) c j p x }

pub unlink-IsQuiet : (t : Temporary) → IsQuiet (unlink t)
unfolding unlink
unlink-IsQuiet t = record { triple = λ {P} {X} c j p x. Triple-effect (λ c. c) _ c j p x }

pub IsQuiet-bind : {m k : Action (Unit {0})} → IsQuiet m → IsQuiet k → IsQuiet (m >> k)
IsQuiet-bind qm qk = record {
  triple = λ {P} {X} c j p x.
      Triple-bind {Q = λ _ c' j'. P tt c' j' × X c' j'} (qm.triple c j (p, x) x)
        (λ _ c' j' h. qk.triple c' j' h.0 h.1);
}

module _ {X : Canonical → Journal → Type 0} {P : Unit {0} → Canonical → Journal → Type 0} where
  Triple-open_exclusive :
      (t : Temporary) (c : Canonical) (j : Journal)
      → P tt c j
      → X c j
      → Triple (open_exclusive t) c j P X
  unfolding open_exclusive
  Triple-open_exclusive t c j p x = record { at = λ r. go r (contains r.temporaries t) }
    where
      go :
          (r : Rest) (b : Bool)
          → Ends P X (elim b as (λ _. Exit (Unit {0}) × World) [
            | true ↦ (call >> raise os_error) (world c j r)
            | false ↦ effect (λ c. c) (λ ts. t ∷ ts) (world c j r)
          ])
      go r true =
          (Triple-bind {Q = λ _. X} {f = λ _. raise os_error}
              (call-IsQuiet.triple {P = λ _. X} {X = X} c j x x)
              (λ _ c' j' y. record { at = λ r. y })).at
            r
      go r false = (Triple-effect {X = X} {P = P} (λ c. c) (λ ts. t ∷ ts) c j p x).at r

pub open_exclusive-IsQuiet : (t : Temporary) → IsQuiet (open_exclusive t)
open_exclusive-IsQuiet t = record { triple = λ {P} {X} c j p x. Triple-open_exclusive t c j p x }

pub write_fsynced_temp-IsQuiet : (t : Temporary) → IsQuiet (write_fsynced_temp t)
unfolding write_fsynced_temp
write_fsynced_temp-IsQuiet t = IsQuiet-bind (open_exclusive-IsQuiet t) call-IsQuiet

module _ {X : Canonical → Journal → Type 0} where
  pub Triple-replace_temp :
      {P : Unit {0} → Canonical → Journal → Type 0} (t : Temporary) (f : Canonical → Canonical)
      (c : Canonical) (j : Journal)
      → P tt (f c) j
      → X c j
      → Triple (replace_temp t f) c j P X
  unfolding replace_temp
  Triple-replace_temp t f c j p x = Triple-effect f _ c j p x

module _ {X : Canonical → Journal → Type 0} {P : Unit {0} → Canonical → Journal → Type 0} where
  pub Triple-replace_finally :
      (t : Temporary) (f : Canonical → Canonical) (c : Canonical) (j : Journal)
      → P tt (f c) j
      → X c j
      → X (f c) j
      → Triple (finally (replace_temp t f) (unlink t)) c j P X
  Triple-replace_finally t f c j p x y =
      Triple-weaken {Q = λ _ c' j'. P tt c' j' × X c' j'} {Y = X}
        (Triple-finally {P = λ _ c' j'. P tt c' j' × X c' j'} (unlink t) (unlink-IsQuiet t)
          (Triple-replace_temp t f c j (p, y) x) (λ c' j' h. h.1))
        (λ _ c' j' h. h.0) (λ c' j' h. h)

  -- The rename has happened or it has not: there is nothing between.
  pub Triple-atomic_write_bytes :
      (t : Temporary) (f : Canonical → Canonical) (c : Canonical) (j : Journal)
      → P tt (f c) j
      → X c j
      → X (f c) j
      → Triple (atomic_write_bytes t f) c j P X
  unfolding atomic_write_bytes
  Triple-atomic_write_bytes t f c j p x y =
      Triple-bind {Q = λ _ c' j'. P tt (f c') j' × X c' j' × X (f c') j'}
        {f = λ _. finally (replace_temp t f) (unlink t)}
        ((write_fsynced_temp-IsQuiet t).triple c j (p, x, y) x)
        (λ _ c' j' h. Triple-replace_finally t f c' j' h.0 h.1 h.2)
