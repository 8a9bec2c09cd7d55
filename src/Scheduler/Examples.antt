-- ===== src/Scheduler/Examples.antt =====
-- Runs of a scheduler with two workers, and the theorems about it at those runs.
use treadmill.Prelude.{ℕ, ◌+◌, ◌≤◌, ◌≡◌, refl, true, List, [], ◌∷◌, ◌++◌, arith}
use treadmill.Prelude.Int.{ℤ, pos, ◌+ℤ◌, ◌-ℤ◌, ◌*ℤ◌, to_int32, to_uint32}
use treadmill.Double.{whole}
use treadmill.Event.{Value, value_dynamic}
use treadmill.Result.{Result, ok, fatal}
use treadmill.Scheduler.{Scheduler, RunState, make}
use treadmill.Scheduler.Loop.{Pc, loop_step, random_exponential_interval, interval_of}
use treadmill.Scheduler.System.{
  Action, starts, steps, calls, resumes, stops, sets_rps, sets_phase, pauses, System, idle_system,
  run_all, act,
}
use treadmill.Scheduler.Termination.{progress, stop_terminates}
use treadmill.Scheduler.Protocol.{FollowsProtocol, run_all-FollowsProtocol}
use treadmill.Scheduler.RoundRobin.{sent, queue, round_robin}

abbrev fresh_scheduler : Scheduler Value
fresh_scheduler = make true 1000 2 8 4

abbrev tick : ℕ → Action ℤ
tick t = steps (record { now = pos t; draw = pos 1; size = 0 })

-- Started while paused, resumed, and three requests put, a wait of one round among them.
abbrev warm_up : List (Action ℤ)
warm_up =
    starts
    ∷ calls (sets_phase "a")
    ∷ tick 1
    ∷ calls resumes
    ∷ tick 2
    ∷ tick 3
    ∷ tick 4
    ∷ tick 5
    ∷ tick 6
    ∷ tick 7
    ∷ tick 8
    ∷ tick 9
    ∷ tick 10
    ∷ tick 11
    ∷ tick 12
    ∷ tick 13
    ∷ tick 14
    ∷ tick 15
    ∷ tick 16
    ∷ tick 17
    ∷ tick 18
    ∷ []

-- Then stopped, and run until the thread has ended.
abbrev wind_down : List (Action ℤ)
wind_down =
    tick 19
    ∷ calls pauses
    ∷ tick 20
    ∷ tick 21
    ∷ tick 22
    ∷ calls (sets_rps (pos 5))
    ∷ tick 23
    ∷ tick 24
    ∷ tick 25
    ∷ tick 26
    ∷ tick 27
    ∷ tick 28
    ∷ tick 29
    ∷ tick 30
    ∷ []

abbrev reached : Result (System Value) → System Value
reached (ok y) = y
reached (fatal e) = idle_system fresh_scheduler

abbrev warm : System Value
warm = reached (run_all true warm_up (idle_system fresh_scheduler))

abbrev stopped : System Value
stopped = reached (run_all {F = ℤ} true (calls stops ∷ []) warm)

abbrev ended : System Value
ended = reached (run_all true wind_down stopped)

warm_runs : run_all true warm_up (idle_system fresh_scheduler) ≡ ok warm
unfolding run_all act make loop_step interval_of random_exponential_interval ◌-ℤ◌ ◌+ℤ◌ ◌*ℤ◌ to_int32
    to_uint32
warm_runs = refl

warm_shares : (sent (queue warm.scheduler 0) ≡ 2) × (sent (queue warm.scheduler 1) ≡ 1)
unfolding run_all act make loop_step interval_of random_exponential_interval ◌-ℤ◌ ◌+ℤ◌ ◌*ℤ◌ to_int32
    to_uint32
warm_shares = (refl, refl)

round_robin_example :
    (sent (queue warm.scheduler 1) ≤ sent (queue warm.scheduler 0))
    × (sent (queue warm.scheduler 0) ≤ sent (queue warm.scheduler 1) + 1)
round_robin_example =
    round_robin 2 (omega arith) (omega arith) true 1000 8 4 warm_up warm 0 1 warm_runs (omega arith)
      (omega arith)

stopped_runs : run_all true (warm_up ++ calls stops ∷ []) (idle_system fresh_scheduler) ≡ ok stopped
unfolding run_all act make loop_step interval_of random_exponential_interval ◌-ℤ◌ ◌+ℤ◌ ◌*ℤ◌ to_int32
    to_uint32
stopped_runs = refl

ended_runs : run_all true wind_down stopped ≡ ok ended
unfolding run_all act make loop_step interval_of random_exponential_interval ◌-ℤ◌ ◌+ℤ◌ ◌*ℤ◌ to_int32
    to_uint32
ended_runs = refl

stopped_state : stopped.scheduler.state ≡ RunState.stopping
unfolding run_all act make loop_step interval_of random_exponential_interval ◌-ℤ◌ ◌+ℤ◌ ◌*ℤ◌ to_int32
    to_uint32
stopped_state = refl

enough_moves : 11 ≤ progress true wind_down stopped
unfolding run_all act make loop_step interval_of random_exponential_interval ◌-ℤ◌ ◌+ℤ◌ ◌*ℤ◌ to_int32
    to_uint32
enough_moves = omega arith

stop_terminates_example : (ended.pc ≡ Pc.done) × (ended.scheduler.promise ≡ true)
stop_terminates_example =
    stop_terminates true fresh_scheduler (warm_up ++ calls stops ∷ []) wind_down stopped ended
      stopped_runs ended_runs stopped_state enough_moves

run_all-FollowsProtocol_example : FollowsProtocol warm.scheduler warm.pc
run_all-FollowsProtocol_example = run_all-FollowsProtocol true 1000 2 8 4 warm_up warm warm_runs
