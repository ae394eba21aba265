-- ===== src/Transactions/Action.antt =====
-- The steps of a transaction as actions that may raise, be interrupted or lose the process.
use lit_grove.Prelude.{ℕ, Bool, true, false, Option, List, [], ◌∷◌, not, contains, select}
use lit_grove.Diagnostics.{Diagnostic}
use lit_grove.Transactions.State.{Journal, Canonical, Temporary, temporary_eq, temporary_beq}

-- What happens at one call of the operating system or of a caller's callback: it works, it raises an
-- `Exception`, a `KeyboardInterrupt` arrives, or the process is gone.
pub data Fault : Type 0 where
  works raises interrupts dies : Fault

pub data Failure : Type 0 where
  os_error : Failure
  diagnosed : Diagnostic → Failure

pub data Exit (A : Type 0) : Type 0 where
  returned : A → Exit A
  raised : Failure → Exit A
  interrupted : Exit A
  died : Exit A

-- What no canonical file shows: the temporary files on disk, the faults to come (none once the list
-- is used up), the local variable `temporary` and the number of clock readings so far.
pub record Rest : Type 0 where
  pub temporaries : List Temporary
  pub schedule : List Fault
  pub temporary : Option Temporary
  pub ticks : ℕ

-- The canonical files, the local variable `journal`, and the rest.
pub record World : Type 0 where
  pub canonical : Canonical
  pub journal : Journal
  pub rest : Rest
  pub open rest use *

abbrev pub Action : Type 0 → Type 0
Action A = World → Exit A × World

module _ {A : Type 0} where
  abbrev pub pure : A → Action A
  pure a w = (returned a, w)

  abbrev pub raise : Failure → Action A
  raise e w = (raised e, w)

  abbrev pub gets : (World → A) → Action A
  gets f w = (returned (f w), w)

infixl 5 ◌>>=◌ ◌>>◌
abbrev pub ◌>>=◌ : {A B : Type 0} → Action A → (A → Action B) → Action B
◌>>=◌ m f w =
    let (x, w') = m w in
    elim x [
      | returned a ↦ f a w'
      | raised e ↦ (raised e, w')
      | interrupted ↦ (interrupted, w')
      | died ↦ (died, w')
    ]

abbrev pub ◌>>◌ : {B : Type 0} → Action (Unit {0}) → Action B → Action B
m >> k = m >>= λ _. k

abbrev pub raise_if : Bool → Failure → Action (Unit {0})
raise_if true e = raise e
raise_if false e = pure tt

-- `try: m` with `except Exception as error: h error`.
abbrev pub except_exception : {A : Type 0} → Action A → (Failure → Action A) → Action A
except_exception m h w =
    let (x, w') = m w in
    elim x [
      | returned a ↦ (returned a, w')
      | raised e ↦ h e w'
      | interrupted ↦ (interrupted, w')
      | died ↦ (died, w')
    ]

-- `try: m` with `finally: c`.
abbrev pub finally : {A : Type 0} → Action A → Action (Unit {0}) → Action A
finally m c w =
    let (x, w') = m w in
    elim x [
      | returned a ↦ (c >> pure a) w'
      | raised e ↦ (c >> raise e) w'
      | interrupted ↦ (c >> (λ v. (interrupted, v))) w'
      | died ↦ (died, w')
    ]

unfoldable pub faulty :
    (Canonical → Canonical)
    → (List Temporary → List Temporary)
    → World
    → List Fault
    → Exit (Unit {0}) × World
faulty f g w [] = (
  returned tt,
  record w { canonical = f w.canonical; rest = record w.rest { temporaries = g w.temporaries } },
)
faulty f g w (works ∷ faults) = (
  returned tt,
  record w {
    canonical = f w.canonical;
    rest = record w.rest { temporaries = g w.temporaries; schedule = faults };
  },
)
faulty f g w (raises ∷ faults) =
    (raised os_error, record w { rest = record w.rest { schedule = faults } })
faulty f g w (interrupts ∷ faults) =
    (interrupted, record w { rest = record w.rest { schedule = faults } })
faulty f g w (dies ∷ faults) = (died, record w { rest = record w.rest { schedule = faults } })

-- One call that the disk sees as a whole: it has its effect on the canonical and on the temporary
-- files exactly if it works.
unfoldable pub effect :
    (Canonical → Canonical) → (List Temporary → List Temporary) → Action (Unit {0})
unfolding faulty
effect f g w = faulty f g w w.schedule

-- A callback, or a check of the environment, that does not write.
unfoldable pub call : Action (Unit {0})
call = effect (λ c. c) (λ ts. ts)

unfoldable pub without : Temporary → List Temporary → List Temporary
without t = select (λ u. not (temporary_beq u t))

-- `os.open` with `O_CREAT | O_EXCL`.
unfoldable pub open_exclusive : Temporary → Action (Unit {0})
open_exclusive t w = elim (contains w.temporaries t) [
  | true ↦ (call >> raise os_error) w
  | false ↦ effect (λ c. c) (λ ts. t ∷ ts) w
]

-- `temporary.unlink(missing_ok=True)`
unfoldable pub unlink : Temporary → Action (Unit {0})
unfolding without
unlink t = effect (λ c. c) (without t)

-- `write_fsynced_temp`: a failure after the file was opened leaves it behind.
unfoldable pub write_fsynced_temp : Temporary → Action (Unit {0})
write_fsynced_temp t = open_exclusive t >> call

-- `replace_temp`: the rename removes the temporary name and puts the content in place at once.
unfoldable pub replace_temp : Temporary → (Canonical → Canonical) → Action (Unit {0})
unfolding without
replace_temp t commit = effect commit (without t)

-- `atomic_write_bytes`
unfoldable pub atomic_write_bytes : Temporary → (Canonical → Canonical) → Action (Unit {0})
atomic_write_bytes t commit = write_fsynced_temp t >> finally (replace_temp t commit) (unlink t)
