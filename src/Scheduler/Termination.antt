-- ===== src/Scheduler/Termination.antt =====
-- After stop() the scheduler's thread ends, whatever the other threads do meanwhile.
use treadmill.Prelude.{ℕ, ◌+◌, ◌-◌, ◌≤◌, ◌≡◌, refl, Bool, true, List, [], ◌∷◌, arith, if◌then◌else◌}
use treadmill.Prelude.Int.{ℤ, max_ℤ}
use treadmill.Double.{Double}
use treadmill.Event.{Dynamic}
use treadmill.Result.{ok, fatal, >>=-eq-ok}
use treadmill.Scheduler.{Scheduler, RunState}
use treadmill.Scheduler.Loop.{Pc, Input, loop_step, wait_ns}
use treadmill.Scheduler.System.{
  Call, pauses, Action, starts, steps, calls, System, idle_system, perform, start, act, run_all,
  run_all_keeps,
}
use treadmill.Scheduler.Lifecycle.{IsStopping, act-IsStopping}

-- At most how many steps of the thread, waiting aside, are left once the state is STOPPING.
abbrev pub rank : Pc → ℕ
rank Pc.done = 0
rank Pc.fulfil = 1
rank Pc.finish = 2
rank Pc.test_stopping = 3
rank Pc.test_paused = 4
rank (Pc.pausing _) = 5
rank Pc.pause_start = 6
rank (Pc.test_running _) = 5
rank (Pc.reload_rps _) = 6
rank (Pc.test_rps _) = 7
rank (Pc.put _) = 8
rank (Pc.waiting _ _) = 9
rank (Pc.wait_start _) = 10
rank (Pc.send _) = 11
rank Pc.begin = 6
rank Pc.idle = 7

rank-le : (pc : Pc) → rank pc ≤ 11
rank-le Pc.idle = omega arith
rank-le _ = omega arith

-- 1 for a step of the thread, 0 for a round of waitNs() that finds its time not yet up, and for a
-- step of a thread that has not started.
abbrev pub step_moves : {F : Type 0} → Input F → Pc → ℕ
step_moves i (Pc.waiting start l) = if wait_ns start (max_ℤ l.budget (ℤ.pos 0)) i.now then 0 else 1
step_moves i (Pc.pausing start) = if wait_ns start (ℤ.pos 1000) i.now then 0 else 1
step_moves i Pc.idle = 0
step_moves i _ = 1

abbrev pub moves : {F : Type 0} → Action F → Pc → ℕ
moves (steps i) pc = step_moves i pc
moves starts pc = 0
moves (calls c) pc = 0

start-rank :
    {D : Type 0} (pc : Pc) (s : Scheduler D) (z : System D)
    → start pc s ≡ ok z
    → rank z.pc ≤ rank pc
unfolding start
start-rank Pc.idle s z e = ground arith
start-rank _ s z e = cc

-- The promise has its value when the thread has ended.
abbrev IsKept : {D : Type 0} → Scheduler D → Pc → Type 0
IsKept s Pc.done = s.promise ≡ true
IsKept s _ = Unit

rank-zero :
    {D : Type 0} (s : Scheduler D) (pc : Pc)
    → rank pc ≡ 0
    → IsKept s pc
    → (pc ≡ Pc.done) × (s.promise ≡ true)
rank-zero s Pc.done e h = (refl, h)
rank-zero s _ e h = absurd (omega arith)

module _ {D : Type 0} ⦃d : Dynamic D⦄ where
  perform-IsKept :
      (w : Bool) (c : Call) (s t : Scheduler D) (pc : Pc)
      → perform w c s ≡ ok t
      → IsKept s pc
      → IsKept t pc
  unfolding perform
  perform-IsKept w pauses s t Pc.done e h = ground arith
  perform-IsKept w _ s t Pc.done e h = ground arith
  perform-IsKept w _ s t _ e h = ground arith

module _ {D F : Type 0} ⦃d : Dynamic D⦄ ⦃f : Double F⦄ where
  -- The moves of the thread in a history.
  abbrev pub progress : Bool → List (Action F) → System D → ℕ
  progress w [] y = 0
  progress w (a ∷ as') y = elim (act w a y) [ ok x ↦ moves a y.pc + progress w as' x | fatal e ↦ 0 ]

  loop_step-rank :
      (i : Input F) (s : Scheduler D) (pc : Pc)
      → s.state ≡ RunState.stopping
      → rank (loop_step i s pc).1 ≤ rank pc - step_moves i pc
  unfolding loop_step
  loop_step-rank i s Pc.idle h = omega arith
  loop_step-rank i s _ h = ground arith

  act-rank :
      (w : Bool) (a : Action F) (y z : System D)
      → act w a y ≡ ok z
      → IsStopping y
      → rank z.pc ≤ rank y.pc - moves a y.pc
  unfolding act
  act-rank w starts y z e h = omega (arith, start-rank y.pc y.scheduler z e)
  act-rank w (steps i) y z e h = ground (arith, loop_step-rank i y.scheduler y.pc)
  act-rank w (calls c) y z e h =
      let (t, p, q) =
        >>=-eq-ok (perform w c y.scheduler) (λ s. ok (record y { scheduler = s })) e in
      ground arith

  run_all-rank :
      (w : Bool) (as' : List (Action F)) (y z : System D)
      → run_all w as' y ≡ ok z
      → IsStopping y
      → rank z.pc ≤ rank y.pc - progress w as' y
  unfolding run_all
  run_all-rank w [] y z e h = ground arith
  run_all-rank w (a ∷ as') y z e h =
      let (x, p, q) = >>=-eq-ok (act w a y) (run_all w as') e in
      ground (arith, act-rank w a y x p h, run_all-rank w as' x z q (act-IsStopping w a y x p h))

  loop_step-IsKept :
      (i : Input F) (s : Scheduler D) (pc : Pc)
      → IsKept s pc
      → IsKept (loop_step i s pc).0 (loop_step i s pc).1
  unfolding loop_step
  loop_step-IsKept i s Pc.idle h = tt
  loop_step-IsKept i s _ h = ground arith

  -- Once STOPPING is set, the thread of a scheduler has ended, with its promise fulfilled, when it
  -- has been given 11 steps, not counting the rounds of a wait whose time is not up: in any
  -- interleaving with calls by other threads, wherever the thread stood, if it had been started by
  -- then.
  pub stop_terminates :
      (w : Bool) (s : Scheduler D) (before after : List (Action F)) (y z : System D)
      → run_all w before (idle_system s) ≡ ok y
      → run_all w after y ≡ ok z
      → y.scheduler.state ≡ RunState.stopping
      → 11 ≤ progress w after y
      → (z.pc ≡ Pc.done) × (z.scheduler.promise ≡ true)
  stop_terminates w s before after y z e g h enough =
      rank-zero z.scheduler z.pc (omega (arith, run_all-rank w after y z g h, rank-le y.pc))
        (keeps after y z g (keeps before (idle_system s) y e tt))
    where
      keeps :
          (as' : List (Action F)) (y z : System D)
          → run_all w as' y ≡ ok z
          → IsKept y.scheduler y.pc
          → IsKept z.scheduler z.pc
      keeps = run_all_keeps w IsKept (λ s h. tt) loop_step-IsKept (perform-IsKept w)
