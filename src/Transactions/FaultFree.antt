-- ===== src/Transactions/FaultFree.antt =====
-- Actions that meet no fault and no leftover temporary file return, with the state that follows.
pub mod Writes
use lit_grove.Prelude.{
  ℕ, ◌+◌, String, Bool, true, false, not, ◌≡◌, refl, sym, ap, subst, ◌∙◌, ◌≢◌, List, [], ◌∷◌,
  Option, none, some, contains, select, arith, Memᴰ,
}
use lit_grove.Transactions.State.{
  Canonical, Journal, Temporary, temporary_eq, temporary_beq, temporary_beq_iff,
}
use lit_grove.Transactions.Action.{
  Exit, returned, raised, interrupted, died, World, Rest, Failure, Action, pure, gets, ◌>>=◌, ◌>>◌,
  raise_if, finally, effect, call, without, open_exclusive, unlink, write_fsynced_temp,
  replace_temp, atomic_write_bytes,
}
use lit_grove.Transactions.Rules.{world}

-- No temporary file of `free` is on disk.
abbrev pub IsClean : List Temporary → List Temporary → Type 0
IsClean [] ts = Unit
IsClean (t ∷ free) ts = (contains ts t ≡ false) × IsClean free ts

abbrev pub quiet_rest : List Temporary → Option Temporary → ℕ → Rest
quiet_rest ts t n = record { temporaries = ts; schedule = []; temporary = t; ticks = n }

module _ (free : List Temporary) where
  abbrev pub Returns : {A : Type 0} → (A → Canonical → Journal → Type 0) → Exit A × World → Type 0
  Returns P (returned a, w) =
      P a w.canonical w.journal × (w.schedule ≡ []) × IsClean free w.temporaries
  Returns P _ = ⊥

  pub record Sure {A : Type 0} (m : Action A) (c : Canonical) (j : Journal)
      (P : A → Canonical → Journal → Type 0) : Type 0 where
    pub at :
        (ts : List Temporary) (t : Option Temporary) (n : ℕ)
        → IsClean free ts
        → Returns P (m (world c j (quiet_rest ts t n)))

  module _ {A : Type 0} {P : A → Canonical → Journal → Type 0} where
    pub Sure-pure : (a : A) (c : Canonical) (j : Journal) → P a c j → Sure (pure a) c j P
    Sure-pure a c j p = record { at = λ ts t n k. (p, refl, k) }

    pub Sure-weaken :
        {Q : A → Canonical → Journal → Type 0} {m : Action A} {c : Canonical} {j : Journal}
        → Sure m c j Q
        → ((a : A) (c' : Canonical) (j' : Journal) → Q a c' j' → P a c' j')
        → Sure m c j P
    Sure-weaken {Q} {m} {c} {j} sure f = record {
      at = λ ts t n k. go (m (world c j (quiet_rest ts t n))) (sure.at ts t n k);
    }
      where
        go : (x : Exit A × World) → Returns Q x → Returns P x
        go (returned a, w) (q, e, k) = (f a w.canonical w.journal q, e, k)
        go (raised e, w) q = elim q [ ]
        go (interrupted, w) q = elim q [ ]
        go (died, w) q = elim q [ ]

    pub Sure-gets :
        (g : World → A) (c : Canonical) (j : Journal)
        → ((r : Rest) → P (g (world c j r)) c j)
        → Sure (gets g) c j P
    Sure-gets g c j p = record { at = λ ts t n k. (p (quiet_rest ts t n), refl, k) }

    pub Sure-bind :
        {B : Type 0} {Q : B → Canonical → Journal → Type 0} {m : Action B} (f : B → Action A)
        {c : Canonical} {j : Journal}
        → Sure m c j Q
        → ((b : B) (c' : Canonical) (j' : Journal) → Q b c' j' → Sure (f b) c' j' P)
        → Sure (m >>= f) c j P
    Sure-bind {B} {Q} {m} f {c} {j} first next = record {
      at = λ ts t n k. go (m (world c j (quiet_rest ts t n))) (first.at ts t n k);
    }
      where
        go :
            (x : Exit B × World)
            → Returns Q x
            → Returns P (elim x.0 as (λ _. Exit A × World) [
              | returned b ↦ f b x.1
              | raised e ↦ (raised e, x.1)
              | interrupted ↦ (interrupted, x.1)
              | died ↦ (died, x.1)
            ])
        go (returned b, w) (q, e, k) =
            subst
              (λ s. Returns P (f b (world w.canonical w.journal (record w.rest { schedule = s }))))
              (sym e) ((next b w.canonical w.journal q).at w.temporaries w.temporary w.ticks k)
        go (raised e, w) q = elim q [ ]
        go (interrupted, w) q = elim q [ ]
        go (died, w) q = elim q [ ]

  module _ {P : Unit {0} → Canonical → Journal → Type 0} where
    pub Sure-call : (c : Canonical) (j : Journal) → P tt c j → Sure call c j P
    unfolding call effect
    Sure-call c j p = record { at = λ ts t n k. (p, refl, k) }

    pub Sure-raise_if :
        (b : Bool) (e : Failure) (c : Canonical) (j : Journal)
        → b ≡ false
        → P tt c j
        → Sure (raise_if b e) c j P
    Sure-raise_if true e c j h p = cc
    Sure-raise_if false e c j h p = Sure-pure tt c j p

-- A bind after which fewer names are free.
pub Returns-bind :
    (free free' : List Temporary) {A B : Type 0} (P : A → Canonical → Journal → Type 0)
    (Q : B → Canonical → Journal → Type 0) (x : Exit B × World) (f : B → Action A)
    → Returns free Q x
    → ((b : B) (c : Canonical) (j : Journal) (ts : List Temporary) (t : Option Temporary) (n : ℕ)
        → Q b c j
        → IsClean free ts
        → Returns free' P (f b (world c j (quiet_rest ts t n))))
    → Returns free' P (((λ _. x) >>= f) x.1)
Returns-bind free free' {A} {B} P Q (returned b, w) f (q, e, k) next =
    subst
      (λ s. Returns free' P (f b (world w.canonical w.journal (record w.rest { schedule = s }))))
      (sym e) (next b w.canonical w.journal w.temporaries w.temporary w.ticks q k)
Returns-bind free free' P Q (raised e, w) f q next = elim q [ ]
Returns-bind free free' P Q (interrupted, w) f q next = elim q [ ]
Returns-bind free free' P Q (died, w) f q next = elim q [ ]

contains-without :
    (t u : Temporary) (ts : List Temporary)
    → contains ts u ≡ false
    → contains (without t ts) u ≡ false
unfolding without
contains-without t u [] h = refl
contains-without t u (x ∷ ts) h = ground (arith, contains-without t u ts)

IsClean-without :
    (t : Temporary) (free ts : List Temporary) → IsClean free ts → IsClean free (without t ts)
IsClean-without t [] ts k = tt
IsClean-without t (u ∷ free) ts k = (contains-without t u ts k.0, IsClean-without t free ts k.1)

-- What is opened and then taken away again leaves the rest as clean as it was.
without-cons : (t : Temporary) (ts : List Temporary) → without t (t ∷ ts) ≡ without t ts
unfolding without
without-cons t ts = rw ((temporary_beq_iff t t).1 refl)

pub opened :
    (t : Temporary) (c : Canonical) (j : Journal) (ts : List Temporary) (o : Option Temporary)
    (n : ℕ)
    → contains ts t ≡ false
    → open_exclusive t (world c j (quiet_rest ts o n))
      ≡ (returned tt, world c j (quiet_rest (t ∷ ts) o n))
unfolding open_exclusive effect
opened t c j ts o n e = rw (e, open_exclusive)

pub IsClean-replaced :
    (t : Temporary) (free ts : List Temporary) → IsClean free ts → IsClean free (without t (t ∷ ts))
IsClean-replaced t free ts k = rw (without-cons t ts) (IsClean-without t free ts k)

abbrev twice_without : Temporary → List Temporary → List Temporary
twice_without t ts = without t (without t (t ∷ ts))

IsClean-twice_without :
    (t : Temporary) (free ts : List Temporary) → IsClean free ts → IsClean free (twice_without t ts)
IsClean-twice_without t free ts k =
    IsClean-without t free (without t (t ∷ ts))
      (rw (without-cons t ts) (IsClean-without t free ts k))

-- An action after one that is known to return.
pub after-returned :
    {A B : Type 0} (m : Action A) (f : A → Action B) (w w' : World) (a : A)
    → m w ≡ (returned a, w')
    → (m >>= f) w ≡ f a w'
after-returned {A} {B} m f w w' a e =
    ap
      (λ (x : Exit A × World). elim x.0 as (λ _. Exit B × World) [
        | returned b ↦ f b x.1
        | raised y ↦ (raised y, x.1)
        | interrupted ↦ (interrupted, x.1)
        | died ↦ (died, x.1)
      ])
      e

pub temp_written :
    (t : Temporary) (c : Canonical) (j : Journal) (ts : List Temporary) (o : Option Temporary)
    (n : ℕ)
    → contains ts t ≡ false
    → write_fsynced_temp t (world c j (quiet_rest ts o n))
      ≡ (returned tt, world c j (quiet_rest (t ∷ ts) o n))
unfolding write_fsynced_temp call effect
temp_written t c j ts o n e =
    after-returned (open_exclusive t) (λ _. call) (world c j (quiet_rest ts o n))
      (world c j (quiet_rest (t ∷ ts) o n)) tt (opened t c j ts o n e)

written :
    (t : Temporary) (f : Canonical → Canonical) (c : Canonical) (j : Journal) (ts : List Temporary)
    (o : Option Temporary) (n : ℕ)
    → contains ts t ≡ false
    → atomic_write_bytes t f (world c j (quiet_rest ts o n))
      ≡ (returned tt, world (f c) j (quiet_rest (twice_without t ts) o n))
unfolding atomic_write_bytes replace_temp unlink call effect
written t f c j ts o n e =
    after-returned (write_fsynced_temp t) (λ _. finally (replace_temp t f) (unlink t))
      (world c j (quiet_rest ts o n)) (world c j (quiet_rest (t ∷ ts) o n)) tt
      (temp_written t c j ts o n e)

appended :
    (t : Temporary) (f : Canonical → Canonical) (c : Canonical) (j : Journal) (ts : List Temporary)
    (o : Option Temporary) (n : ℕ)
    → contains ts t ≡ false
    → (open_exclusive t >> finally (call >> replace_temp t f) (unlink t))
        (world c j (quiet_rest ts o n))
      ≡ (returned tt, world (f c) j (quiet_rest (twice_without t ts) o n))
unfolding replace_temp unlink call effect
appended t f c j ts o n e =
    after-returned (open_exclusive t) (λ _. finally (call >> replace_temp t f) (unlink t))
      (world c j (quiet_rest ts o n)) (world c j (quiet_rest (t ∷ ts) o n)) tt
      (opened t c j ts o n e)

IsClean-at :
    (t : Temporary) (free ts : List Temporary)
    → Memᴰ t free
    → IsClean free ts
    → contains ts t ≡ false
IsClean-at t (u ∷ free) ts (Memᴰ.head e) k = rw e k.0
IsClean-at t (u ∷ free) ts (Memᴰ.tail m) k = IsClean-at t free ts m k.1
IsClean-at t [] ts m k = elim m [ ]

module _ (free : List Temporary) {P : Unit {0} → Canonical → Journal → Type 0} where
  pub Sure-atomic_write_bytes :
      (t : Temporary) (f : Canonical → Canonical) (c : Canonical) (j : Journal)
      → Memᴰ t free
      → P tt (f c) j
      → Sure free (atomic_write_bytes t f) c j P
  Sure-atomic_write_bytes t f c j m p = record {
    at = λ ts o n k.
        subst (Returns free P) (sym (written t f c j ts o n (IsClean-at t free ts m k)))
          (p, refl, IsClean-twice_without t free ts k);
  }

  -- The write half of `append_process_event`.
  pub Sure-append :
      (t : Temporary) (f : Canonical → Canonical) (c : Canonical) (j : Journal)
      → Memᴰ t free
      → P tt (f c) j
      → Sure free (open_exclusive t >> finally (call >> replace_temp t f) (unlink t)) c j P
  Sure-append t f c j m p = record {
    at = λ ts o n k.
        subst (Returns free P) (sym (appended t f c j ts o n (IsClean-at t free ts m k)))
          (p, refl, IsClean-twice_without t free ts k);
  }
