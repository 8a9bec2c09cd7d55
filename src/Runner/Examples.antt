-- ===== src/Runner/Examples.antt =====
-- A run with three workers, set up and shut down.
use text.Mathlib.Text.{◌==◌ as str_eq}
use treadmill.Prelude.{
  Bool, ℕ, suc, ◌+◌, ◌≤◌, ◌<◌, ◌≡◌, refl, true, false, String, Option, none, some, List, [], ◌∷◌,
  ◌++◌, map, replicate, All, arith, if◌then◌else◌, ltb,
}
use treadmill.Prelude.Int.{ℤ, pos}
use treadmill.Double.{whole}
use treadmill.Event.{Value, value_dynamic, Event, EventType}
use treadmill.Result.{ok, fatal}
use treadmill.Scheduler.{Scheduler, RunState, make, set_phase, set_max_outstanding_requests}
use treadmill.Worker.{Workload, Worker, begun, make_worker, set_off, sender_loop}
use treadmill.Worker.Handlers.{Turn, TargetFlags, run, wait_ready}
use treadmill.Runner.{run_workers}
use treadmill.Runner.{
  RunnerFlags, Runner, make_runner, pin, cpus, read_affinity, initialize_workers, wait_for_workers,
  shut_down,
}
use treadmill.Runner.Limits.{total_limit, numbers, initialize_workers-total_limit}
use treadmill.Runner.Shutdown.{IsPatient, shut_down_lem}
use treadmill.Runner.Settings.{taken, taken-set_max_outstanding_requests}

abbrev counting : Workload Value ℕ ℕ
counting = record {
  make = λ config. 0;
  reset = λ n. 0;
  set_phase = λ phase n. 100;
  get_next_request = λ n. (some n, suc n);
  make_config_outputs = λ w ws. Value.nothing;
}

abbrev flags : RunnerFlags
flags = record {
  wait_for_runner_ready = false;
  request_per_second = pos 1000;
  number_of_workers = 3;
  number_of_connections = 2;
  max_outstanding_requests = 10;
  cpu_affinity = "a,b,a";
  worker_shutdown_delay = 2;
  config_in_file = "";
  config_in_json = "";
  config_out_file = "";
}

abbrev runner : Runner Value ℕ
runner = initialize_workers counting flags (make_runner flags Value.nothing)

initialize_workers-total_limit_example :
    (map (λ w. w.worker_id) runner.workers ≡ numbers 0 3)
    × All
        (λ w. w.max_outstanding_requests ≡ pos runner.max_outstanding_requests_per_worker)
        runner.workers
    × (total_limit runner.workers ≤ 10)
    × (10 < total_limit runner.workers + 3)
initialize_workers-total_limit_example =
    initialize_workers-total_limit counting flags Value.nothing (omega arith)

-- Text that splits in three, and a reader that knows two names.
abbrev split : String → List String
split s = "a" ∷ "b" ∷ "a" ∷ []

abbrev core_of : String → Option ℤ
core_of s = if str_eq s "a" then some (pos 4) else some (pos 5)

affinity_is_read :
    read_affinity split core_of 8 flags (replicate 3 (ℤ.negsuc 0)) ≡ ok (pos 4 ∷ pos 5 ∷ pos 4 ∷ [])
unfolding read_affinity cpus pin
affinity_is_read = refl

-- A worker with a request in flight for the first second, then none.
abbrev idle_worker : Worker ℕ
idle_worker = make_worker counting (pos 0) (pos 3) 2 (pos 3) Value.nothing

abbrev observed : ℕ → List (Worker ℕ)
observed t =
    record idle_worker { outstanding_requests = if ltb t 1 then pos 1 else pos 0 }
    ∷ idle_worker
    ∷ []

shut_down_lem_example :
    let result = wait_for_workers observed flags.worker_shutdown_delay 0 0 in
    (shut_down flags observed runner
      ≡ ok (
        record runner {
          scheduler = record runner.scheduler { state = RunState.stopping };
          workers =
              map {A = Worker ℕ} {B = Worker ℕ}
                (λ w. record w { running = false })
                (observed result.0);
        },
        result.0,
      ))
    × IsPatient observed 0 flags.worker_shutdown_delay result
shut_down_lem_example = shut_down_lem observed flags runner

abbrev worker : Worker ℕ
worker = begun (pos 1) counting (pos 0) (pos 3) 2 (pos 3) Value.nothing

worker_runs : worker.running ≡ true
unfolding sender_loop set_off
worker_runs = refl

abbrev turn : Turn String
turn = record { send_time = pos 2; recv_time = pos 2; now = pos 2; ready = none; escaped = none }

abbrev scheduler : Scheduler Value
scheduler = make true 1000 2 8 4

taken-set_max_outstanding_requests_example :
    let t : Scheduler Value = set_max_outstanding_requests (ℤ.negsuc 4) scheduler in
    let e : Event Value = record {
      event_type = EventType.set_max_outstanding;
      extra_data = Value.whole (pos t.max_outstanding_requests);
    } in
    (t.queues ≡ map (λ q. q ++ e ∷ []) scheduler.queues)
    × (taken value_dynamic whole counting turn e worker
        ≡ record worker { max_outstanding_requests = ℤ.negsuc 4 })
taken-set_max_outstanding_requests_example =
    taken-set_max_outstanding_requests value_dynamic whole counting scheduler (ℤ.negsuc 4) turn
      worker (omega arith) worker_runs

abbrev warm : Scheduler Value
warm = elim (set_phase true "warm" scheduler) [ ok t ↦ t | fatal e ↦ scheduler ]

warm_is_set : set_phase true "warm" scheduler ≡ ok warm
unfolding set_phase make
warm_is_set = refl

abbrev target : TargetFlags
target = record { wait_for_target_ready = true; counter_name = ""; counter_threshold = pos 0 }

-- Each worker has two connections, which are ready at the second and third time of asking.
abbrev readiness : ℕ → List Bool
readiness i = false ∷ true ∷ true ∷ []

abbrev pair : List (Worker ℕ)
pair = idle_worker ∷ idle_worker ∷ []

abbrev started : List (Worker ℕ)
started = record idle_worker { running = true } ∷ record idle_worker { running = true } ∷ []

pair_is_started : run_workers target readiness 0 pair ≡ ok (some started)
unfolding run_workers run wait_ready set_off make_worker
pair_is_started = refl
