-- ===== src/Control/Requests.antt =====
-- TreadmillFB303.h: the requests that clients make, each served by its handler, between the steps of
-- the scheduler's thread and the calls of the runner. What a handler answers is in Control; here is
-- what it leaves behind.
use treadmill.Prelude.{ℕ, String, Option, List, [], ◌∷◌}
use treadmill.Prelude.Int.{ℤ}
use treadmill.Double.{Double}
use treadmill.Event.{Dynamic}
use treadmill.Result.{Result, ok, ◌>>=◌}
use treadmill.Scheduler.Loop.{Pc}
use treadmill.Scheduler.System.{Action, System, act}
use treadmill.Control.{
  Control, Flags, pause_run, resume_run, resume_phase, set_run_rps, set_max_outstanding,
  get_configuration, set_configuration, clear_configuration,
}

pub data Request : Type 0 where
  pauses : Request
  resumes : Request
  resumes_to : Option String → Request
  sets_rps : ℤ → Request
  sets_max_outstanding : ℤ → Request
  reads_rate : Request
  reads_configuration : String → Request
  sets_configuration : String → String → Request
  clears_configuration : Request

pub data Occurrence (F : Type 0) : Type 0 where
  -- A request, with the time at which its handler reads the clock.
  arrives : ℤ → Request → Occurrence F
  -- A step of the scheduler's thread, or a call by the rest of the process.
  acts : Action F → Occurrence F

-- The control service of a process and where the scheduler's thread stands.
pub record Service (D S : Type 0) : Type 0 where
  pub control : Control D S
  pub pc : Pc

abbrev pub system_of : {D S : Type 0} → Service D S → System D
system_of y = record { scheduler = y.control.scheduler; pc = y.pc }

module _ {D S : Type 0} ⦃d : Dynamic D⦄ (try_to_uint32 : String → Option ℕ) (flags : Flags) where
  unfoldable pub handle : ℤ → Request → Control D S → Result (Control D S)
  handle now pauses c = ok (pause_run c).0
  handle now resumes c = ok (resume_run flags now c).0
  handle now (resumes_to phase) c = do (c', running) ← resume_phase flags now phase c; ok c'
  handle now (sets_rps rps) c = ok (set_run_rps flags now rps c)
  handle now (sets_max_outstanding m) c = ok (set_max_outstanding flags now m c)
  handle now reads_rate c = ok c
  handle now (reads_configuration key) c = ok (get_configuration flags now key c).0
  handle now (sets_configuration key value) c =
      ok (set_configuration try_to_uint32 flags now key value c)
  handle now clears_configuration c = ok (clear_configuration flags now c)

  module _ {F : Type 0} ⦃f : Double F⦄ where
    unfoldable pub occur : Occurrence F → Service D S → Result (Service D S)
    unfolding handle
    occur (arrives now r) y = do c ← handle now r y.control; ok (record y { control = c })
    occur (acts a) y = do
      s ← act flags.wait_for_runner_ready a (system_of y)
      ok (record { control = record y.control { scheduler = s.scheduler }; pc = s.pc })

    unfoldable pub occur_all : List (Occurrence F) → Service D S → Result (Service D S)
    occur_all [] y = ok y
    occur_all (o ∷ os) y = occur o y >>= occur_all os
