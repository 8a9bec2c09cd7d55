-- ===== src/Scheduler/Lifecycle.antt =====
-- The run states: what pause(), resume() and stop() do, and that STOPPING is final.
use treadmill.Prelude.{◌≡◌, refl, Bool, not, List, [], ◌∷◌, arith, if◌then◌else◌}
use treadmill.Double.{Double}
use treadmill.Event.{Dynamic}
use treadmill.Result.{Fault, ok, fatal, >>=-eq-ok}
use treadmill.Scheduler.{
  Scheduler, RunState, is_running, is_stopping, pause, resume, stop, join, is_running_now,
}
use treadmill.Scheduler.Loop.{Pc, Input, loop_step}
use treadmill.Scheduler.System.{
  Call, pauses, Action, starts, steps, calls, System, perform, start, act, run_all,
}

-- resume() tells whether the scheduler now runs, which is so unless it was stopped. pause() moves
-- only a running scheduler, and each of the two calls undoes the other. join() passes its check
-- exactly on a scheduler that was stopped, which neither call changes.
pub resume-pause :
    {D : Type 0} (s : Scheduler D)
    → ((resume s).1 ≡ is_running_now (resume s).0)
      × ((resume s).1 ≡ not (is_stopping s.state))
      × ((pause s).state ≡ (if is_running s.state then RunState.paused else s.state))
      × (resume (pause s) ≡ resume s)
      × (pause (resume s).0 ≡ pause s)
      × (join (pause (stop s)) ≡ ok (stop s))
      × (join (resume (stop s)).0 ≡ ok (stop s))
      × (join s ≡ (if is_stopping s.state then ok s else fatal Fault.check_failed))
unfolding pause resume stop join is_running_now
resume-pause s = (
  ground arith,
  ground arith,
  ground arith,
  ground arith,
  ground arith,
  ground arith,
  ground arith,
  ground arith,
)

abbrev pub IsStopping : {D : Type 0} → System D → Type 0
IsStopping y = y.scheduler.state ≡ RunState.stopping

module _ {D : Type 0} ⦃d : Dynamic D⦄ where
  perform-IsStopping :
      (w : Bool) (c : Call) (s t : Scheduler D)
      → perform w c s ≡ ok t
      → s.state ≡ RunState.stopping
      → t.state ≡ RunState.stopping
  unfolding perform
  perform-IsStopping w pauses s t e h = ground arith
  perform-IsStopping w _ s t e h = ground arith

  start-IsStopping :
      (pc : Pc) (s : Scheduler D) (y : System D)
      → start pc s ≡ ok y
      → s.state ≡ RunState.stopping
      → IsStopping y
  unfolding start
  start-IsStopping Pc.idle s y e h = ground arith
  start-IsStopping _ s y e h = cc

module _ {D F : Type 0} ⦃d : Dynamic D⦄ ⦃f : Double F⦄ where
  pub loop_step-state :
      (i : Input F) (s : Scheduler D) (pc : Pc) → (loop_step i s pc).0.state ≡ s.state
  unfolding loop_step
  loop_step-state i s Pc.idle = refl
  loop_step-state i s _ = refl

  pub act-IsStopping :
      (w : Bool) (a : Action F) (y z : System D) → act w a y ≡ ok z → IsStopping y → IsStopping z
  unfolding act
  act-IsStopping w starts y z e h = start-IsStopping y.pc y.scheduler z e h
  act-IsStopping w (steps i) y z e h = ground (arith, loop_step-state i y.scheduler y.pc)
  act-IsStopping w (calls c) y z e h =
      let (t, p, q) =
        >>=-eq-ok (perform w c y.scheduler) (λ s. ok (record y { scheduler = s })) e in
      ground (arith, perform-IsStopping w c y.scheduler t p h)

  -- Whatever the threads do after stop(), the scheduler stays in the state STOPPING.
  pub run_all-IsStopping :
      (w : Bool) (as' : List (Action F)) (y z : System D)
      → run_all w as' y ≡ ok z
      → y.scheduler.state ≡ RunState.stopping
      → z.scheduler.state ≡ RunState.stopping
  unfolding run_all
  run_all-IsStopping w [] y z e h = ground arith
  run_all-IsStopping w (a ∷ as') y z e h =
      let (x, p, q) = >>=-eq-ok (act w a y) (run_all w as') e in
      run_all-IsStopping w as' x z q (act-IsStopping w a y x p h)
