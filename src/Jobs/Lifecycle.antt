-- ===== src/Jobs/Lifecycle.antt =====
-- The life cycle that `validate_transition` allows.
use lit_grove.Prelude.{◌≡◌, ◌≢◌, ◌⊎◌, inl, inr, refl, true, false}
use lit_grove.Diagnostics.{ok}
use lit_grove.Jobs.State.{
  Status, created, running, waiting_user, waiting_agent, waiting_source, paused, recovering,
  completed, completed_with_findings, failed, cancelled,
}
use lit_grove.Jobs.Rules.{is_terminal, validate_transition}

abbrev pub IsFinal : Status → Type 0
IsFinal s = (is_terminal s ≡ true) × ((t : Status) → validate_transition s t ≢ ok tt)

abbrev pub IsOpen : Status → Type 0
IsOpen s =
    (is_terminal s ≡ false)
    × (validate_transition s running ≡ ok tt)
    × (validate_transition s failed ≡ ok tt)
    × (validate_transition s cancelled ≡ ok tt)

-- By `validate_transition` alone, a status is terminal and no status may follow it, or it is not terminal
-- and running, failed and cancelled may each follow it.
pub validate_transition-IsOpen : (s : Status) → IsFinal s ⊎ IsOpen s
unfolding validate_transition
validate_transition-IsOpen created = inr (refl, refl, refl, refl)
validate_transition-IsOpen running = inr (refl, refl, refl, refl)
validate_transition-IsOpen waiting_user = inr (refl, refl, refl, refl)
validate_transition-IsOpen waiting_agent = inr (refl, refl, refl, refl)
validate_transition-IsOpen waiting_source = inr (refl, refl, refl, refl)
validate_transition-IsOpen paused = inr (refl, refl, refl, refl)
validate_transition-IsOpen recovering = inr (refl, refl, refl, refl)
validate_transition-IsOpen completed = inl (refl, λ t h. cc)
validate_transition-IsOpen completed_with_findings = inl (refl, λ t h. cc)
validate_transition-IsOpen failed = inl (refl, λ t h. cc)
validate_transition-IsOpen cancelled = inl (refl, λ t h. cc)
