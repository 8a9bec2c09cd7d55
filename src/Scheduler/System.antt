-- ===== src/Scheduler/System.antt =====
-- Scheduler.cpp: the scheduler's thread and the threads that call its methods, interleaved. An
-- `Action` is a step of the loop or a whole call; a history is a list of them, in any order.
use treadmill.Prelude.{Bool, String, List, [], ◌∷◌, ◌≡◌, inl, inr, subst}
use treadmill.Prelude.Int.{ℤ}
use treadmill.Double.{Double}
use treadmill.Event.{Dynamic}
use treadmill.Result.{Result, ok, fatal, Fault, ◌>>=◌, >>=-eq-ok, Result-cases}
use treadmill.Scheduler.{
  Scheduler, pause, resume, stop, run, set_phase, set_rps, set_max_outstanding_requests,
}
use treadmill.Scheduler.Loop.{Pc, Input, loop_step}

pub data Call : Type 0 where
  pauses : Call
  resumes : Call
  stops : Call
  sets_phase : String → Call
  sets_rps : ℤ → Call
  sets_max_outstanding : ℤ → Call

pub data Action (F : Type 0) : Type 0 where
  starts : Action F
  steps : Input F → Action F
  calls : Call → Action F

pub record System (D : Type 0) : Type 0 where
  pub scheduler : Scheduler D
  pub pc : Pc

-- The scheduler before run() is called.
abbrev pub idle_system : {D : Type 0} → Scheduler D → System D
idle_system s = record { scheduler = s; pc = Pc.idle }

unfoldable pub perform :
    {D : Type 0} ⦃d : Dynamic D⦄ → Bool → Call → Scheduler D → Result (Scheduler D)
unfolding pause resume stop set_phase set_rps set_max_outstanding_requests
perform wait_for_runner_ready pauses s = ok (pause s)
perform wait_for_runner_ready resumes s = ok (resume s).0
perform wait_for_runner_ready stops s = ok (stop s)
perform wait_for_runner_ready (sets_phase p) s = set_phase wait_for_runner_ready p s
perform wait_for_runner_ready (sets_rps r) s = ok (set_rps r s)
perform wait_for_runner_ready (sets_max_outstanding m) s = ok (set_max_outstanding_requests m s)

-- The property of the state that a step reaches, if it reaches one.
abbrev Holds : {D : Type 0} → (Scheduler D → Pc → Type 0) → Result (System D) → Type 0
Holds P (ok y) = P y.scheduler y.pc
Holds P (fatal e) = Unit

-- run() makes the thread; a second thread over a joinable one ends the process.
unfoldable pub start : {D : Type 0} → Pc → Scheduler D → Result (System D)
unfolding run
start Pc.idle s = ok (record { scheduler = run s; pc = Pc.begin })
start _ s = fatal Fault.aborted

module _ {D F : Type 0} ⦃d : Dynamic D⦄ ⦃f : Double F⦄ where
  unfoldable pub act : Bool → Action F → System D → Result (System D)
  unfolding perform start
  act wait_for_runner_ready starts y = start y.pc y.scheduler
  act wait_for_runner_ready (steps i) y =
      let (s, pc) = loop_step i y.scheduler y.pc in ok (record { scheduler = s; pc = pc })
  act wait_for_runner_ready (calls c) y = do
    s ← perform wait_for_runner_ready c y.scheduler
    ok (record y { scheduler = s })

  unfoldable pub run_all : Bool → List (Action F) → System D → Result (System D)
  run_all w [] y = ok y
  run_all w (a ∷ as') y = act w a y >>= run_all w as'

  -- A property of the scheduler and its thread holds after a history if the start of the thread,
  -- each of its steps and each call keep it.
  module _ (w : Bool) (P : Scheduler D → Pc → Type 0)
      (starts_keep : (s : Scheduler D) → P s Pc.idle → P (run s) Pc.begin)
      (steps_keep : (i : Input F) (s : Scheduler D) (pc : Pc)
        → P s pc
        → P (loop_step i s pc).0 (loop_step i s pc).1)
      (calls_keep : (c : Call) (s t : Scheduler D) (pc : Pc)
        → perform w c s ≡ ok t
        → P s pc
        → P t pc) where
    start_keeps : (pc : Pc) (s : Scheduler D) → P s pc → Holds P (start pc s)
    unfolding start
    start_keeps Pc.idle s h = starts_keep s h
    start_keeps _ s h = tt

    act_keeps : (a : Action F) (y : System D) → P y.scheduler y.pc → Holds P (act w a y)
    unfolding act
    act_keeps starts y h = start_keeps y.pc y.scheduler h
    act_keeps (steps i) y h = steps_keep i y.scheduler y.pc h
    act_keeps (calls c) y h = elim (Result-cases (perform w c y.scheduler)) [
      | inl (t, e) ↦ rw e (calls_keep c y.scheduler t y.pc e h)
      | inr (g, e) ↦ rw e tt
    ]

    pub run_all_keeps :
        (as' : List (Action F)) (y z : System D)
        → run_all w as' y ≡ ok z
        → P y.scheduler y.pc
        → P z.scheduler z.pc
    unfolding run_all
    run_all_keeps [] y z e h = subst (Holds P) e h
    run_all_keeps (a ∷ as') y z e h =
        let (x, p, q) = >>=-eq-ok (act w a y) (run_all w as') e in
        run_all_keeps as' x z q (subst (Holds P) p (act_keeps a y h))
