-- ===== src/Scheduler/Going.antt =====
-- How the end of a run begins: with stop(), and with nothing else that is done to the scheduler.
use treadmill.Prelude.{◌≡◌, subst, Bool, true, false, arith}
use treadmill.Double.{Double}
use treadmill.Event.{Dynamic}
use treadmill.Result.{ok, ok-injective, >>=-eq-ok}
use treadmill.Scheduler.{Scheduler, is_stopping}
use treadmill.Scheduler.Loop.{Pc, Input, loop_step}
use treadmill.Scheduler.System.{Call, Action, starts, steps, calls, System, act, perform, start}

-- The call of stop(), which is the rest of the process's.
abbrev pub is_stop_call : Call → Bool
is_stop_call Call.stops = true
is_stop_call _ = false

abbrev pub is_stop_action : {F : Type 0} → Action F → Bool
is_stop_action (calls c) = is_stop_call c
is_stop_action _ = false

-- Past the end of the loop.
abbrev pub is_over : Pc → Bool
is_over Pc.finish = true
is_over Pc.fulfil = true
is_over Pc.done = true
is_over _ = false

-- The loop has not come to its end and will not by itself.
pub record IsGoing {D : Type 0} (promise : Bool) (y : System D) : Type 0 where
  pub state : is_stopping y.scheduler.state ≡ false
  pub pc : is_over y.pc ≡ false
  pub promised : y.scheduler.promise ≡ promise

module _ {D : Type 0} ⦃d : Dynamic D⦄ (promise : Bool) where
  perform-IsGoing :
      (w : Bool) (c : Call) (s t : Scheduler D) (pc : Pc)
      → is_stop_call c ≡ false
      → perform w c s ≡ ok t
      → IsGoing promise (record { scheduler = s; pc = pc })
      → IsGoing promise (record { scheduler = t; pc = pc })
  unfolding perform
  perform-IsGoing w Call.pauses s t pc n e g = ground arith
  perform-IsGoing w _ s t pc n e g = ground arith

  start-IsGoing :
      (pc : Pc) (s : Scheduler D) (z : System D)
      → start pc s ≡ ok z
      → IsGoing promise (record { scheduler = s; pc = pc })
      → IsGoing promise z
  unfolding start
  start-IsGoing Pc.idle s z e g = ground arith
  start-IsGoing _ s z e g = cc

module _ {D F : Type 0} ⦃d : Dynamic D⦄ ⦃f : Double F⦄ (promise : Bool) where
  loop_step-IsGoing :
      (i : Input F) (s : Scheduler D) (pc : Pc)
      → IsGoing promise (record { scheduler = s; pc = pc })
      → IsGoing promise (record { scheduler = (loop_step i s pc).0; pc = (loop_step i s pc).1 })
  unfolding loop_step
  loop_step-IsGoing i s Pc.idle g = ground arith
  loop_step-IsGoing i s _ g = ground arith

  pub act-IsGoing :
      (w : Bool) (a : Action F) (y z : System D)
      → is_stop_action a ≡ false
      → act w a y ≡ ok z
      → IsGoing promise y
      → IsGoing promise z
  unfolding act
  act-IsGoing w starts y z n e g = start-IsGoing promise y.pc y.scheduler z e g
  act-IsGoing w (steps i) y z n e g =
      subst (IsGoing promise) (ok-injective e) (loop_step-IsGoing i y.scheduler y.pc g)
  act-IsGoing w (calls c) y z n e g =
      let (t, p, q) = >>=-eq-ok (perform w c y.scheduler) _ e in
      subst (IsGoing promise) (ok-injective q)
        (perform-IsGoing promise w c y.scheduler t y.pc n p g)
