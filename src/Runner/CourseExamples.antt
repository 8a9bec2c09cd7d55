-- ===== src/Runner/CourseExamples.antt =====
-- A whole run of one worker, from its flags to its last stop().
use treadmill.Prelude.{
  ℕ, zero, suc, ◌*◌, ◌≤◌, ◌≡◌, refl, true, false, Bool, String, Option, none, some, List, [], ◌∷◌,
  ◌++◌, length, get_elem?,
}
use treadmill.Prelude.Int.{ℤ, pos, ◌+ℤ◌, ◌-ℤ◌, ◌*ℤ◌, to_int32, to_uint32}
use treadmill.Double.{whole}
use treadmill.Event.{Event, Value, value_dynamic}
use treadmill.Result.{Result, ok, fatal}
use treadmill.Scheduler.{make, join}
use treadmill.Scheduler.Loop.{Pc, loop_step, interval_of, random_exponential_interval}
use treadmill.Scheduler.RoundRobin.{queue}
use treadmill.Scheduler.System.{steps, act, idle_system}
use treadmill.Worker.{
  Workload, make_worker, set_off, sender_loop, report, estimate, flush_exceptions, dispatch, stop,
}
use treadmill.Worker.Handlers.{run, message_available, on_event, send_request, send_next}
use treadmill.Assembly.{Consumer, Assembly, Move, acts, takes, move, move_all}
use treadmill.Assembly.Order.{requests}
use treadmill.Runner.{
  make_runner, load_config, read_affinity, initialize_workers, workers_from, run_workers,
}
use treadmill.Runner.Defaults.{default_flags, default_target}
use treadmill.Runner.Setup.{Outside, set_up}
use treadmill.Runner.Course.{Course, run_course, run_test}
use treadmill.Runner.Ending.{run_test_lem}

abbrev pub counting : Workload Value ℕ ℕ
counting = record {
  make = λ config. 0;
  reset = λ n. 0;
  set_phase = λ phase n. n;
  get_next_request = λ n. (some n, suc n);
  make_config_outputs = λ w ws. Value.nothing;
}

abbrev pub outside : Outside Value
outside = record {
  parse_json = λ s. some (Value.text s);
  read_file = λ name. none;
  update = λ base extra. some extra;
  split = λ s. s ∷ [];
  to_int = λ s. none;
  cores = 4;
  object = Value.nothing;
}

abbrev pub answers : ℕ → List Bool
answers i = []

abbrev pub ticks : ℕ → ℕ → List (Move ℤ String)
ticks t zero = []
ticks t (suc n) =
    acts (steps (record { now = pos (t * 1000); draw = pos 1; size = 0 })) ∷ ticks (suc t) n

abbrev pub take_one : Move ℤ String
take_one =
    takes 0
      (record { send_time = pos 5; recv_time = pos 5; now = pos 5; ready = none; escaped = none })

abbrev test_run : Course ℤ String
test_run = record {
  now = pos 1;
  running_time = ticks 1 8 ++ take_one ∷ take_one ∷ [];
  joining = ticks 30 12;
  waiting = take_one ∷ take_one ∷ [];
}

abbrev pub nobody : Assembly Value ℕ
nobody = record { system = idle_system (make false 0 0 0 0); consumers = [] }

abbrev pub reached : Result (Option (Assembly Value ℕ)) → Assembly Value ℕ
reached (ok (some z)) = z
reached _ = nobody

abbrev first_of : List (Consumer Value ℕ) → Consumer Value ℕ
first_of [] = record {
  worker = make_worker counting (pos 0) (pos 1) 4 (pos 0) Value.nothing;
  consumed = [];
}
first_of (c ∷ cs) = c

abbrev finished : Assembly Value ℕ
finished = reached (run_test counting outside default_flags default_target answers test_run)

abbrev its_worker : Consumer Value ℕ
its_worker = first_of finished.consumers

abbrev pub finishes : Result (Option (Assembly Value ℕ)) → Bool
finishes (ok (some z)) = true
finishes _ = false

pub reached-eq :
    (m : Result (Option (Assembly Value ℕ))) → finishes m ≡ true → m ≡ ok (some (reached m))
reached-eq (ok (some z)) e = refl
reached-eq (ok none) e = cc
reached-eq (fatal fault) e = cc

abbrev has_one : List (Consumer Value ℕ) → Bool
has_one [] = false
has_one (c ∷ cs) = true

first_of-eq :
    (cs : List (Consumer Value ℕ)) → has_one cs ≡ true → get_elem? cs 0 ≡ some (first_of cs)
first_of-eq [] e = cc
first_of-eq (c ∷ cs) e = refl

-- The run finishes, with one worker, which has sent two requests.
test_runs :
    (finishes (run_test counting outside default_flags default_target answers test_run) ≡ true)
    × (has_one finished.consumers ≡ true)
    × (its_worker.worker.sent ≡ 2)
unfolding run_test run_course set_up make_runner load_config read_affinity initialize_workers
    workers_from run_workers run make_worker set_off sender_loop make to_uint32 to_int32 join
    move_all move act loop_step interval_of random_exponential_interval ◌-ℤ◌ ◌+ℤ◌ ◌*ℤ◌
    message_available on_event send_request send_next report estimate flush_exceptions dispatch stop
test_runs = (refl, refl, refl)

run_test_lem_example :
    (length finished.consumers ≡ 1)
    × (finished.system.pc ≡ Pc.done)
    × (its_worker.worker.running ≡ false)
    × ((rest : List (Event Value)) × (queue finished.system.scheduler 0
          ≡ its_worker.consumed ++ rest))
    × (its_worker.worker.sent ≤ requests (queue finished.system.scheduler 0))
run_test_lem_example =
    run_test_lem counting outside default_flags default_target answers test_run finished 0
      its_worker (reached-eq _ test_runs.0) (first_of-eq finished.consumers test_runs.1)
