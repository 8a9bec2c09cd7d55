-- ===== src/Control/Contact.antt =====
-- The watchdog timer over a whole history: when it fires.
use text.Mathlib.Text.{◌==◌ as str_eq}
use treadmill.Prelude.{ℕ, ◌≡◌, ◌&&◌, not, Bool, true, false, List, [], ◌∷◌, if◌then◌else◌}
use treadmill.Prelude.Int.{ℤ}
use treadmill.Double.{Double}
use treadmill.Control.{Control}
use treadmill.Control.Requests.{
  Request, pauses, reads_rate, sets_configuration, Occurrence, arrives, acts,
}

-- Every request but pause() and getRate() is a sign of life.
abbrev pub is_contact : Request → Bool
is_contact pauses = false
is_contact reads_rate = false
is_contact _ = true

-- Neither pause() nor a new duration.
abbrev pub leaves_timer : Request → Bool
leaves_timer pauses = false
leaves_timer (sets_configuration key value) = not (str_eq key "watchdog_sec")
leaves_timer _ = true

module _ {F : Type 0} where
  abbrev pub leave_timer : List (Occurrence F) → Bool
  leave_timer [] = true
  leave_timer (arrives now r ∷ os) = leaves_timer r && leave_timer os
  leave_timer (acts a ∷ os) = leave_timer os

  -- The time of the last sign of life, `t` if there is none.
  abbrev pub last_contact : List (Occurrence F) → ℤ → ℤ
  last_contact [] t = t
  last_contact (arrives now r ∷ os) t = last_contact os (if is_contact r then now else t)
  last_contact (acts a ∷ os) t = last_contact os t

-- The timer is set to `n` and was last reset at the time `t`.
record IsTimed {D S : Type 0} (n : ℕ) (t : ℤ) (c : Control D S) : Type 0 where
  duration : c.watchdog_duration_sec ≡ n
  heartbeat : c.last_heartbeat ≡ t
