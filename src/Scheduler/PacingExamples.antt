-- ===== src/Scheduler/PacingExamples.antt =====
-- A round of two requests with an interval of a second, where the first message takes long.
use treadmill.Prelude.{ℕ, ◌≡◌, refl, false, List, [], ◌∷◌, arith}
use treadmill.Prelude.Int.{ℤ, pos, negsuc, ◌+ℤ◌, ◌-ℤ◌, ◌*ℤ◌, to_int32, to_uint32}
use treadmill.Double.{Double, whole}
use treadmill.Event.{Value, value_dynamic}
use treadmill.Result.{Result, ok, fatal}
use treadmill.Scheduler.{make}
use treadmill.Scheduler.Loop.{loop_step, random_exponential_interval, interval_of}
use treadmill.Scheduler.System.{Action, starts, steps, System, idle_system, run_all, act}
use treadmill.Scheduler.Pace.{Pace, NoneEarly, FitsAll, pace_all, last_reading}
use treadmill.Scheduler.Pacing.{PacedAt, run_all-Paced}

-- Whole numbers in place of doubles, with a logarithm that is -1.
abbrev even : Double ℤ
even = record whole { log = λ x. negsuc 0 }

abbrev at : ℕ → Action ℤ
at t = steps (record { now = pos t; draw = pos 1; size = 0 })

abbrev round : List (Action ℤ)
round =
    starts
    ∷ at 1
    ∷ at 2
    ∷ at 3
    ∷ at 4
    ∷ at 500_000_000
    ∷ at 1_000_000_004
    ∷ at 1_000_000_900
    ∷ at 1_000_001_000
    ∷ at 1_000_001_001
    ∷ at 1_700_000_000
    ∷ at 1_700_000_001
    ∷ at 2_000_000_003
    ∷ at 2_000_000_100
    ∷ at 2_000_000_101
    ∷ []

abbrev fresh : System Value
fresh = idle_system (make false 1 2 8 4)

abbrev reached : Result (System Value) → System Value
reached (ok y) = y
reached (fatal e) = fresh

abbrev start_pace : Pace
start_pace = record { due = pos 0; puts = [] }

abbrev ran : System Value
ran = reached (run_all ⦃f = even⦄ false round fresh)

round_runs : run_all ⦃f = even⦄ false round fresh ≡ ok ran
unfolding run_all act make loop_step interval_of random_exponential_interval ◌-ℤ◌ ◌+ℤ◌ ◌*ℤ◌ to_int32
    to_uint32
round_runs = refl

-- The second request is due a second after the first one was.
round_puts :
    (pace_all ⦃f = even⦄ false round fresh start_pace).puts
    ≡ (pos 2_000_000_003, pos 2_000_000_101) ∷ (pos 1_000_000_003, pos 1_000_000_900) ∷ []
unfolding run_all act make loop_step interval_of random_exponential_interval ◌-ℤ◌ ◌+ℤ◌ ◌*ℤ◌ to_int32
    to_uint32
round_puts = refl

round-FitsAll : FitsAll ⦃f = even⦄ false round fresh (pos 1)
unfolding run_all act make loop_step interval_of random_exponential_interval ◌-ℤ◌ ◌+ℤ◌ ◌*ℤ◌ to_int32
    to_uint32
round-FitsAll = omega arith

run_all-Paced_example :
    PacedAt ran.pc (pace_all ⦃f = even⦄ false round fresh start_pace) (last_reading round (pos 1))
    × NoneEarly (pace_all ⦃f = even⦄ false round fresh start_pace).puts
run_all-Paced_example =
    run_all-Paced ⦃f = even⦄ false round fresh ran start_pace (pos 1) round_runs round-FitsAll
      (omega arith) tt tt
