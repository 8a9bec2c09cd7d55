-- ===== src/Control/Resume.antt =====
-- The two ways to resume a run, and the rate that clients see.
use treadmill.Prelude.{◌≡◌, not, ◌&&◌, String, some, arith, if◌then◌else◌}
use treadmill.Prelude.Int.{ℤ, IsInt32, to_int32-to_uint32}
use treadmill.Event.{Dynamic, EventType}
use treadmill.Result.{ok, fatal, Fault}
use treadmill.Scheduler.{
  Scheduler, is_running, is_paused, is_stopping, is_running_now, pause, resume, message_all_workers,
  set_phase, set_rps, get_rps, set_max_outstanding_requests, get_max_outstanding_requests,
}
use treadmill.Control.{
  Control, Flags, watchdog_update, pause_run, resume_run, resume_phase, set_run_rps,
  set_max_outstanding, get_rate, configuration_empty,
}

module _ {D S : Type 0} where
  -- resume refuses exactly when the flag asks for a configuration and there is none; then the
  -- scheduler is left alone. Otherwise its answer is whether the scheduler now runs, which is so
  -- unless it was stopped.
  pub resume_run_lem :
      (flags : Flags) (now : ℤ) (c : Control D S)
      → let refused = flags.require_configuration_on_resume && configuration_empty c in
        ((resume_run flags now c).1 ≡ (not refused && not (is_stopping c.scheduler.state)))
        × ((resume_run flags now c).0.scheduler
            ≡ (if refused then c.scheduler else (resume c.scheduler).0))
        × ((resume_run flags now c).0.configuration ≡ c.configuration)
        × ((resume_run flags now (pause_run c).0).1 ≡ (resume_run flags now c).1)
  unfolding resume_run pause_run configuration_empty watchdog_update resume pause
  resume_run_lem flags now c = (ground arith, ground arith, ground arith, ground arith)

module _ {D S : Type 0} ⦃d : Dynamic D⦄ where
  -- resume2 puts the phase on every queue and then resumes; where a runner is waited for and the
  -- scheduler is not paused, a check ends the process instead. Whether there is a configuration
  -- makes no difference, whatever the flag says.
  pub resume_phase_lem :
      (flags : Flags) (now : ℤ) (phase : String) (c : Control D S)
      → let s' : Scheduler D =
          message_all_workers
            (record { event_type = EventType.set_phase; extra_data = d.of_string phase })
            c.scheduler in
        resume_phase flags now (some phase) c ≡ (
          if flags.wait_for_runner_ready && not (is_paused c.scheduler.state)
          then fatal Fault.check_failed
          else ok (
            record (watchdog_update flags now c) { scheduler = (resume s').0 },
            not (is_stopping c.scheduler.state),
          ))
  unfolding resume_phase set_phase watchdog_update resume message_all_workers
  resume_phase_lem flags now phase c = ground arith

  -- The rate that a client set is the rate that it reads, with the run state.
  pub get_rate_lem :
      (flags : Flags) (t₁ t₂ : ℤ) (rps m : ℤ) (c : Control D S)
      → IsInt32 rps
      → IsInt32 m
      → get_rate (set_max_outstanding flags t₂ m (set_run_rps flags t₁ rps c)) ≡ record {
        scheduler_running = is_running c.scheduler.state;
        rps = rps;
        max_outstanding = m;
      }
  unfolding get_rate set_max_outstanding set_run_rps watchdog_update is_running_now get_rps set_rps
      get_max_outstanding_requests set_max_outstanding_requests
  get_rate_lem flags t₁ t₂ rps m c hr hm =
      ground (arith, to_int32-to_uint32 rps hr, to_int32-to_uint32 m hm)
