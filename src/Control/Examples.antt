-- ===== src/Control/Examples.antt =====
-- A service with two clients, and the theorems on whole histories at it.
use text.Mathlib.Text.{◌==◌ as str_eq}
use treadmill.Prelude.{
  ℕ, ◌≡◌, refl, Bool, true, false, Option, none, some, List, [], ◌∷◌, String, if◌then◌else◌,
}
use treadmill.Prelude.Int.{ℤ, pos, ◌-ℤ◌, ◌+ℤ◌, ◌*ℤ◌, to_int32, to_uint32}
use treadmill.Result.{Result, ok, fatal, ◌>>=◌}
use treadmill.Event.{Value, value_dynamic}
use treadmill.Double.{whole}
use treadmill.Scheduler.{make}
use treadmill.Scheduler.Loop.{Pc, loop_step, interval_of, random_exponential_interval}
use treadmill.Scheduler.System.{Call, calls, starts, steps, act, run_all}
use treadmill.Control.{
  Flags, make_control, set_configuration, watchdog_update, resume_phase, set_run_rps,
}
use treadmill.Control.Requests.{
  resumes, resumes_to, sets_rps, reads_rate, sets_configuration, Occurrence, arrives, acts, Service,
  system_of, occur, occur_all,
}
use treadmill.Control.Clients.{is_configured, actions_for, occur_all-calls}
use treadmill.Scheduler.Going.{IsGoing}
use treadmill.Control.Going.{occur_all-IsGoing}

abbrev flags : Flags
flags = record {
  require_configuration_on_resume = true;
  enable_watchdog_timer = true;
  wait_for_runner_ready = true;
}

-- A reader of numbers that knows one.
abbrev parse : String → Option ℕ
parse s = if str_eq s "10" then some 10 else none

-- The timer has been set to 10 seconds at the time 200.
abbrev configured : Service Value Bool
configured = record {
  control =
      set_configuration parse flags (pos 200) "watchdog_sec" "10"
        (make_control true (pos 100) (make true 1000 2 8 4));
  pc = Pc.idle;
}

abbrev tick : ℕ → Occurrence ℤ
tick t = acts (steps (record { now = pos t; draw = pos 1; size = 0 }))

abbrev morning : List (Occurrence ℤ)
morning =
    arrives (pos 201) (sets_rps (pos 50))
    ∷ acts starts
    ∷ tick 1
    ∷ arrives (pos 205) (resumes_to (some "warm"))
    ∷ tick 2
    ∷ tick 3
    ∷ arrives (pos 206) resumes
    ∷ arrives (pos 208) (sets_configuration "size" "3")
    ∷ arrives (pos 209) reads_rate
    ∷ []

abbrev reached : Result (Service Value Bool) → Service Value Bool
reached (ok y) = y
reached (fatal e) = configured

abbrev later : Service Value Bool
later = reached (occur_all parse flags morning configured)

morning_runs : occur_all parse flags morning configured ≡ ok later
unfolding occur_all occur act make loop_step interval_of random_exponential_interval ◌-ℤ◌ ◌+ℤ◌ ◌*ℤ◌
    to_int32 to_uint32 set_configuration make_control watchdog_update resume_phase set_run_rps
morning_runs = refl

occur_all-calls_example :
    run_all true
      (actions_for flags (is_configured configured.control) morning)
      (system_of configured)
    ≡ (occur_all parse flags morning configured >>= (λ z. ok (system_of z)))
occur_all-calls_example = occur_all-calls parse flags morning configured

-- Without a configuration the flag keeps resume() from resuming, and resume2() not.
refuses :
    (actions_for {F = ℤ} flags false (arrives (pos 1) resumes ∷ []) ≡ [])
    × (actions_for {F = ℤ} flags false (arrives (pos 1) (resumes_to (some "x")) ∷ [])
        ≡ calls (Call.sets_phase "x") ∷ calls Call.resumes ∷ [])
refuses = (refl, refl)

occur_all-IsGoing_example : IsGoing false (system_of later)
unfolding make set_configuration make_control watchdog_update
occur_all-IsGoing_example =
    occur_all-IsGoing parse flags false morning configured later refl morning_runs
      (record { state = refl; pc = refl; promised = refl })
