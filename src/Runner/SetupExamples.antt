-- ===== src/Runner/SetupExamples.antt =====
-- A run from its flags to its exported configuration, and one with more workers than requests.
use treadmill.Prelude.{
  ℕ, suc, ◌/◌, ◌≡◌, refl, true, false, Bool, String, Option, none, some, List, [], ◌∷◌, length, All,
  get_elem?, arith,
}
use treadmill.Prelude.Int.{ℤ, pos, to_uint32}
use treadmill.Prelude.Dict.{Dict, insert}
use treadmill.Double.{whole}
use treadmill.Event.{Value, value_dynamic, EventType}
use treadmill.Result.{Result, ok}
use treadmill.Files.{complete, content, write_dynamic_to_file, write_string_to_file}
use treadmill.Scheduler.{make}
use treadmill.Worker.{Workload, Worker, make_worker, set_off, sender_loop}
use treadmill.Worker.Handlers.{run}
use treadmill.Worker.Histories.{Happening, receives, history}
use treadmill.Worker.Outputs.{make_config_outputs}
use treadmill.Runner.{
  RunnerFlags, Runner, make_runner, parsed, load_config, initialize_workers, workers_from,
  run_workers, read_affinity,
}
use treadmill.Runner.Defaults.{default_flags, default_target}
use treadmill.Runner.Setup.{Outside, set_up, IsSetOff, set_up_lem}
use treadmill.Runner.Saving.{save_config, load_config-save_config}
use treadmill.Runner.Starvation.{history-starves}

-- A workload whose state is the text of its configuration.
abbrev echo : Workload String String ℕ
echo = record {
  make = λ config. config;
  reset = λ s. s;
  set_phase = λ phase s. phase;
  get_next_request = λ s. (some 1, s);
  make_config_outputs = λ w ws. w;
}

abbrev two : RunnerFlags
two = record default_flags {
  number_of_workers = 2;
  config_in_json = "warm";
  config_out_file = "out.json";
}

abbrev outside : Outside String
outside = record {
  parse_json = some;
  read_file = λ name. none;
  update = λ base extra. some extra;
  split = λ s. s ∷ [];
  to_int = λ s. none;
  cores = 4;
  object = "";
}

abbrev answers : ℕ → List Bool
answers i = []

abbrev blank : Runner String String
blank = make_runner two ""

abbrev reached : Result (Option (Runner String String)) → Runner String String
reached (ok (some r)) = r
reached _ = blank

abbrev started : Runner String String
started = reached (set_up echo outside two default_target answers)

set_up_runs : set_up echo outside two default_target answers ≡ ok (some started)
unfolding set_up make_runner load_config read_affinity initialize_workers run_workers run
    make_worker set_off make to_uint32 workers_from
set_up_runs = refl

set_up_lem_example :
    (load_config some outside.read_file outside.update two "" ≡ ok started.config)
    × (started.scheduler ≡ make false (to_uint32 (pos 1024)) 2 1000 (1000 / 2))
    × (length started.workers ≡ 2)
    × (length started.cpu_affinity_list ≡ 2)
    × All (IsSetOff echo outside started.config) started.workers
set_up_lem_example = set_up_lem echo outside two default_target answers started set_up_runs

abbrev first_of : List (Worker String) → Worker String
first_of [] = make_worker echo (pos 0) (pos 2) 4 (pos 500) ""
first_of (w ∷ ws) = w

abbrev rest_of : List (Worker String) → List (Worker String)
rest_of [] = []
rest_of (w ∷ ws) = ws

abbrev leader : Worker String
leader = first_of started.workers

abbrev others : List (Worker String)
others = rest_of started.workers

abbrev disk : Dict String
disk = ("out.json", "warm") ∷ []

saved :
    (started.workers ≡ leader ∷ others) × (save_config echo some complete two started [] ≡ ok disk)
unfolding save_config write_dynamic_to_file write_string_to_file make_config_outputs insert set_up
    make_runner load_config read_affinity initialize_workers run_workers run make_worker set_off
    make to_uint32 workers_from
saved = (refl, refl)

abbrev again : RunnerFlags
again = record default_flags { config_in_file = "out.json" }

load_config-save_config_example :
    (json : String) × (some (make_config_outputs echo leader (leader ∷ others)) ≡ some json)
    × (load_config some (content true disk) outside.update again "" ≡ parsed some json)
load_config-save_config_example =
    load_config-save_config echo some some outside.update complete two again started leader others
      [] disk "" saved.0 refl refl refl saved.1

-- The default limit of 1000 requests with 1001 workers.
abbrev crowd : RunnerFlags
crowd = record default_flags { number_of_workers = 1001 }

abbrev counting : Workload Value ℕ ℕ
counting = record {
  make = λ config. 0;
  reset = λ n. 0;
  set_phase = λ phase n. n;
  get_next_request = λ n. (some n, suc n);
  make_config_outputs = λ w ws. Value.nothing;
}

abbrev one : Worker ℕ
one = make_worker counting (pos 0) (pos 1001) 4 (pos 0) Value.nothing

abbrev asked : List (Happening Value String)
asked =
    receives
      (record { send_time = pos 5; recv_time = pos 5; now = pos 5; ready = none; escaped = none })
      (record { event_type = EventType.send_request; extra_data = Value.nothing })
    ∷ []

one_there :
    get_elem? (initialize_workers counting crowd (make_runner crowd Value.nothing)).workers 0
    ≡ some one
unfolding initialize_workers workers_from make_runner
one_there = refl

history-starves_example :
    (history {F = ℤ} {Q = ℕ} value_dynamic whole counting asked
      (sender_loop (pos 1) (set_off one))).0.sent
    ≡ 0
history-starves_example =
    history-starves value_dynamic whole counting crowd Value.nothing 0 one (pos 1) asked
      (omega arith) one_there (refl, tt)
