-- ===== src/Control/Watchdog.antt =====
-- The watchdog timer: clients that stay in touch keep the run alive.
use treadmill.Prelude.{ℕ, ◌<◌, ◌≡◌, Bool, true, false, String, Option, some, arith}
use treadmill.Prelude.Int.{ℤ, ◌+ℤ◌, ◌-ℤ◌, ◌≤ℤ◌, ◌<ℤ◌, +ℤ_parts, -ℤ_parts}
use treadmill.Result.{ok, fatal, Fault}
use treadmill.Control.{
  Control, Flags, watchdog_update, watchdog_timeout_check, pause_run, resume_run, set_run_rps,
  get_configuration, set_configuration, clear_configuration,
}

module _ {D S : Type 0} (flags : Flags) where
  -- Within the duration after a client's call of resume, setRps, getConfiguration or
  -- clearConfiguration the check passes; after pause it passes until a duration is set again.
  pub watchdog_timeout_check-calls :
      (called now rps : ℤ) (raise : Bool) (key : String) (c : Control D S)
      → now ≤ℤ called +ℤ ℤ.pos c.watchdog_duration_sec
      → (watchdog_timeout_check flags now raise (resume_run flags called c).0 ≡ ok false)
        × (watchdog_timeout_check flags now raise (set_run_rps flags called rps c) ≡ ok false)
        × (watchdog_timeout_check flags now raise (get_configuration flags called key c).0
            ≡ ok false)
        × (watchdog_timeout_check flags now raise (clear_configuration flags called c) ≡ ok false)
        × (watchdog_timeout_check flags now raise (pause_run c).0 ≡ ok false)
  unfolding watchdog_timeout_check resume_run set_run_rps get_configuration clear_configuration
      pause_run watchdog_update
  watchdog_timeout_check-calls called now rps raise key c h =
      let late : now -ℤ ℤ.pos c.watchdog_duration_sec ≤ℤ called = omega (
        arith,
        -ℤ_parts now (ℤ.pos c.watchdog_duration_sec),
        +ℤ_parts called (ℤ.pos c.watchdog_duration_sec),
      ) in
      (
        ground (arith, late),
        ground (arith, late),
        ground (arith, late),
        ground (arith, late),
        ground arith,
      )

  -- The client that turns the watchdog on does not count as a heartbeat: from a service whose timer
  -- was off, setting the duration to n seconds makes the next check fire, even one made at the very
  -- time of the call, unless the last heartbeat, from before the timer was off, is recent.
  pub set_configuration-fires :
      (try_to_uint32 : String → Option ℕ) (now : ℤ) (value : String) (n : ℕ) (c : Control D S)
      → flags.enable_watchdog_timer ≡ true
      → c.watchdog_duration_sec ≡ 0
      → try_to_uint32 value ≡ some n
      → 0 < n
      → c.last_heartbeat +ℤ ℤ.pos n <ℤ now
      → watchdog_timeout_check flags now true
          (set_configuration try_to_uint32 flags now "watchdog_sec" value c)
        ≡ fatal Fault.aborted
  unfolding watchdog_timeout_check set_configuration watchdog_update
  set_configuration-fires try_to_uint32 now value n c on off parsed some' late =
      let fires : c.last_heartbeat <ℤ now -ℤ ℤ.pos n =
        omega (arith, -ℤ_parts now (ℤ.pos n), +ℤ_parts c.last_heartbeat (ℤ.pos n)) in
      ground (arith, fires)
