-- ===== src/Runner.antt =====
-- Treadmill.h: TreadmillRunner, which sets a run up and shuts it down, and readDynamicFromFile() of
-- Util.cpp. The flags that count are natural numbers here: number_of_workers is positive and below
-- 2^31. Files, JSON and the splitting of text are other libraries': they are arguments.
pub mod Limits
pub mod Affinity
pub mod Shutdown
pub mod Settings
pub mod Starting
pub mod Setup
pub mod Saving
pub mod Starvation
pub mod Defaults
pub mod Course
pub mod Ending
pub mod Returning
mod SetupExamples
mod CourseExamples
mod Examples
use treadmill.Prelude.{
  ℕ, zero, suc, ◌+◌, ◌/◌, Bool, true, false, not, ◌&&◌, is_empty, String, Option, none, some, List,
  [], ◌∷◌, length, map, replicate, ltb, ◌==◌, if◌then◌else◌,
}
use treadmill.Prelude.Int.{ℤ, pos, ltb_ℤ, to_uint32}
use treadmill.Result.{Result, ok, fatal, Fault, ◌>>=◌}
use treadmill.Scheduler.{Scheduler, make, stop, join}
use treadmill.Worker.{Workload, Worker, has_more_work, make_worker, stop as stop_worker}
use treadmill.Worker.Handlers.{TargetFlags, run}

pub record RunnerFlags : Type 0 where
  pub wait_for_runner_ready : Bool
  pub request_per_second : ℤ
  pub number_of_workers : ℕ
  pub number_of_connections : ℕ
  pub max_outstanding_requests : ℕ
  pub cpu_affinity : String
  pub worker_shutdown_delay : ℕ
  pub config_in_file : String
  pub config_in_json : String
  pub config_out_file : String

pub record Runner (D W : Type 0) : Type 0 where
  pub workers : List (Worker W)
  pub scheduler : Scheduler D
  pub max_outstanding_requests_per_worker : ℕ
  pub config : D
  pub cpu_affinity_list : List ℤ

-- `object` is the empty folly::dynamic object.
unfoldable pub make_runner : {D W : Type 0} → RunnerFlags → D → Runner D W
unfolding make
make_runner flags object =
    let per_worker = flags.max_outstanding_requests / flags.number_of_workers in
    record {
      workers = [];
      scheduler =
          make flags.wait_for_runner_ready (to_uint32 flags.request_per_second)
            flags.number_of_workers flags.max_outstanding_requests per_worker;
      max_outstanding_requests_per_worker = per_worker;
      config = object;
      cpu_affinity_list = replicate flags.number_of_workers (ℤ.negsuc 0);
    }

module _ {D : Type 0} (parse_json : String → Option D) where
  -- folly::parseJson, which throws on what is no JSON.
  abbrev pub parsed : String → Result D
  parsed text = elim (parse_json text) [ none ↦ fatal Fault.uncaught | some x ↦ ok x ]

  -- readDynamicFromFile(); a file that cannot be read is `none`.
  unfoldable pub read_dynamic : (String → Option String) → String → Result D
  read_dynamic read_file filename = elim (read_file filename) [
    | none ↦ fatal Fault.log_fatal
    | some text ↦ parsed text
  ]

  -- `update` is folly::dynamic::update, which throws unless both are objects.
  unfoldable pub load_config :
      (String → Option String) → (D → D → Option D) → RunnerFlags → D → Result D
  unfolding read_dynamic
  load_config read_file update flags config = do
    base ←
        (if is_empty flags.config_in_file
          then ok config
          else read_dynamic read_file flags.config_in_file)
    (if is_empty flags.config_in_json then ok base else merged base (parsed flags.config_in_json))
    where
      merged : D → Result D → Result D
      merged base extra =
          extra
          >>= (λ x. elim (update base x) [ none ↦ fatal Fault.uncaught | some result ↦ ok result ])

-- The CPU ID of a worker, before those of the workers after it.
unfoldable pub pin : ℕ → Option ℤ → Result (List ℤ) → Result (List ℤ)
pin cores none rest = fatal Fault.uncaught
pin cores (some cpu) rest =
    if not (ltb_ℤ cpu (pos 0)) && ltb_ℤ cpu (pos cores)
    then rest >>= (λ list. ok (cpu ∷ list))
    else fatal Fault.log_fatal

-- The CPU IDs, one for each worker in turn.
unfoldable pub cpus : (String → Option ℤ) → ℕ → List String → Result (List ℤ)
unfolding pin
cpus to_int cores [] = ok []
cpus to_int cores (text ∷ texts) = pin cores (to_int text) (cpus to_int cores texts)

-- cpu_affinity_list after the flag was read. `split` is folly::split at commas, `to_int` is
-- folly::to<int>, which throws at text that is no int.
unfoldable pub read_affinity :
    (String → List String) → (String → Option ℤ) → ℕ → RunnerFlags → List ℤ → Result (List ℤ)
unfolding cpus
read_affinity split to_int cores flags list =
    if is_empty flags.cpu_affinity
    then ok list
    else if length (split flags.cpu_affinity) == flags.number_of_workers
    then cpus to_int cores (split flags.cpu_affinity)
    else fatal Fault.log_fatal

module _ {D W Q : Type 0} (k : Workload D W Q) where
  -- `count` workers from number `i` on; the affinity and the queue are what the thread is given.
  unfoldable pub workers_from : RunnerFlags → Runner D W → (i count : ℕ) → List (Worker W)
  unfolding make_worker
  workers_from flags r i zero = []
  workers_from flags r i (suc count) =
      make_worker k (pos i) (pos flags.number_of_workers) flags.number_of_connections
        (pos r.max_outstanding_requests_per_worker) r.config
      ∷ workers_from flags r (suc i) count

  unfoldable pub initialize_workers : RunnerFlags → Runner D W → Runner D W
  unfolding workers_from
  initialize_workers flags r = record r { workers = workers_from flags r 0 flags.number_of_workers }

module _ {W : Type 0} where
  -- run() of each worker in turn; `none` says that one of them waits for ever.
  unfoldable pub run_workers :
      TargetFlags → (ℕ → List Bool) → ℕ → List (Worker W) → Result (Option (List (Worker W)))
  run_workers flags answers i [] = ok (some [])
  run_workers flags answers i (w ∷ ws) = run flags (answers i) w >>= (λ started. elim started [
    | none ↦ ok none
    | some w' ↦
        run_workers flags answers (suc i) ws
        >>= (λ others. ok (elim others [ none ↦ none | some ws' ↦ some (w' ∷ ws') ]))
  ])

  -- The workers that have more work.
  unfoldable pub remaining : List (Worker W) → ℕ
  unfolding has_more_work
  remaining [] = 0
  remaining (w ∷ ws) = if has_more_work w then suc (remaining ws) else remaining ws

  -- The loop that gives workers time to finish: `observed` are the workers as the loop finds them
  -- in each of its rounds. It gives the seconds slept and what was left at the last look.
  unfoldable pub wait_for_workers : (ℕ → List (Worker W)) → (seconds_to_wait slept left : ℕ) → ℕ × ℕ
  unfolding remaining
  wait_for_workers observed zero slept left = (slept, left)
  wait_for_workers observed (suc seconds) slept left =
      let found = remaining (observed slept) in
      let rest = wait_for_workers observed seconds (suc slept) found in
      if ltb 0 found then rest else (slept, 0)

-- From stop() of the scheduler to the stop of the last worker. After the loop the workers are what
-- it would find next.
unfoldable pub shut_down :
    {D W : Type 0} → RunnerFlags → (ℕ → List (Worker W)) → Runner D W → Result (Runner D W × ℕ)
unfolding stop join wait_for_workers stop_worker
shut_down flags observed r = do
  s ← join (stop r.scheduler)
  let slept = (wait_for_workers observed flags.worker_shutdown_delay 0 0).0
  ok (
    record r {
      scheduler = s;
      workers = map (λ w. (stop_worker {F = ℤ} {Q = ℕ} {R = ℕ} w).0) (observed slept);
    },
    slept,
  )
