-- ===== src/Runner/Defaults.antt =====
-- Treadmill.cpp: the flags as they are when the command line does not set them.
use treadmill.Prelude.{◌≡◌, false, is_empty, String, List, Bool, arith}
use treadmill.Prelude.Int.{ℤ, pos}
use treadmill.Result.{fatal, Fault}
use treadmill.Worker.{Worker}
use treadmill.Worker.Handlers.{TargetFlags, run}
use treadmill.Worker.Starting.{run_lem}
use treadmill.Runner.{RunnerFlags}

abbrev pub default_flags : RunnerFlags
default_flags = record {
  wait_for_runner_ready = false;
  request_per_second = pos 1024;
  number_of_workers = 1;
  number_of_connections = 4;
  max_outstanding_requests = 1000;
  cpu_affinity = "";
  worker_shutdown_delay = 1;
  config_in_file = "";
  config_in_json = "";
  config_out_file = "";
}

abbrev pub default_target : TargetFlags
default_target = record {
  wait_for_target_ready = false;
  counter_name = "";
  counter_threshold = ℤ.negsuc 0;
}

-- A counter can be named only together with a threshold: with the default one, run() ends the
-- process.
pub default_threshold :
    {W : Type 0} (name : String) (wait : Bool) (answers : List Bool) (w : Worker W)
    → is_empty name ≡ false
    → run (record default_target { counter_name = name; wait_for_target_ready = wait }) answers w
      ≡ fatal Fault.log_fatal
default_threshold name wait answers w named = ground (
  arith,
  run_lem (record default_target { counter_name = name; wait_for_target_ready = wait }) answers w,
  named,
)
