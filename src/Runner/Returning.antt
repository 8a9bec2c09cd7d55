-- ===== src/Runner/Returning.antt =====
-- Treadmill.h: run() comes to its end.
use treadmill.Prelude.{
  ◌≤◌, ◌≡◌, refl, ap, ◌∙◌, Bool, true, none, some, List, [], ◌∷◌, ◌++◌, map, arith, if◌then◌else◌,
}
use treadmill.Double.{Double}
use treadmill.Event.{Dynamic}
use treadmill.Result.{ok, ◌>>=◌}
use treadmill.Scheduler.{Scheduler, RunState, stop, join}
use treadmill.Scheduler.Loop.{Pc}
use treadmill.Scheduler.System.{starts, calls, stops, act, perform}
use treadmill.Scheduler.Termination.{progress, stop_terminates}
use treadmill.Worker.{Workload, Worker, sender_loop}
use treadmill.Assembly.{Assembly, Move, acts, move, move_all, assemble}
use treadmill.Assembly.Threads.{move_all-Reaches}
use treadmill.Assembly.Early.{HasStopped, move_all-HasStopped}
use treadmill.Assembly.Stopped.{actions_of, run_all-actions_of, halt_from-ok}
use treadmill.Assembly.Halted.{halt_from}
use treadmill.Runner.{RunnerFlags, Runner}
use treadmill.Runner.Setup.{Outside}
use treadmill.Runner.Course.{Course, at_start, run_course, move_all-append, is_done}

joins : {D : Type 0} (s : Scheduler D) → s.state ≡ RunState.stopping → join s ≡ ok s
unfolding join
joins s h = ground arith

-- What stop() makes of the state.
abbrev pub stopped : {D W : Type 0} → Assembly D W → Assembly D W
stopped y = record y { system = record y.system { scheduler = stop y.system.scheduler } }

module _ {D W Q : Type 0} (F R : Type 0) ⦃d : Dynamic D⦄ ⦃f : Double F⦄ (k : Workload D W Q) where
  stops-stopped :
      (b : Bool) (y : Assembly D W)
      → move {F = F} {R = R} k b (acts (calls stops)) y ≡ ok (stopped y)
  unfolding move act perform
  stops-stopped b y = refl

  pub finish :
      (o : Outside D) (flags : RunnerFlags) (c : Course F R) (r : Runner D W) (u z : Assembly D W)
      → let b = flags.wait_for_runner_ready in
        move_all k b
            ((acts starts ∷ c.running_time) ++ (acts (calls stops) ∷ c.joining))
            (at_start k o c r)
          ≡ ok u
        → join u.system.scheduler ≡ ok u.system.scheduler
        → u.system.pc ≡ Pc.done
        → move_all k b (c.waiting ++ halt_from 0 flags.number_of_workers) u ≡ ok z
        → run_course k o flags c r ≡ ok (some z)
  unfolding run_course
  finish o flags c r u z e joined done left =
      let b = flags.wait_for_runner_ready in
      let ready : is_done u.system.pc ≡ true = ap is_done done in
      let ending = λ (y : Assembly D W).
        if is_done y.system.pc
        then move_all k b (c.waiting ++ halt_from 0 flags.number_of_workers) y
          >>= (λ x. ok (some x))
        else ok none in
      ap (λ m. m >>= (λ y. join y.system.scheduler >>= (λ s. ending y))) e
      ∙ ap (λ m. m >>= (λ s. ending u)) joined
      ∙ rw (ready, left) refl

module _ {D F W Q R : Type 0} ⦃d : Dynamic D⦄ ⦃f : Double F⦄ (k : Workload D W Q)
    (o : Outside D) where
  -- What stop() is followed by while join() waits.
  pub ends_at_join :
      (b : Bool) (s : Scheduler D) (ws : List (Worker W)) (vs joining : List (Move F R))
      (y u : Assembly D W)
      → move_all k b vs (assemble s ws) ≡ ok y
      → move_all k b joining (stopped y) ≡ ok u
      → 11 ≤ progress b (actions_of joining) (stopped y).system
      → (u.system.pc ≡ Pc.done)
        × (join u.system.scheduler ≡ ok u.system.scheduler)
        × (move_all k b (acts (calls stops) ∷ joining) y ≡ ok u)
  unfolding move_all stop
  ends_at_join b s ws vs joining y u e₁ e₂ enough =
      let stop_move : List (Move F R) = acts (calls stops) ∷ [] in
      let state : HasStopped (stopped y) = refl in
      let halted = ap (λ m. m >>= move_all {F = F} {R = R} k b []) (stops-stopped F R k b y) in
      let (before, r₀) =
        move_all-Reaches k b (vs ++ stop_move) (assemble s ws) (stopped y)
          (move_all-append k o b vs stop_move (assemble s ws) y (stopped y) e₁ halted) in
      let (ended, kept) =
        stop_terminates b s before (actions_of joining) (stopped y).system u.system r₀
          (run_all-actions_of k b joining (stopped y) u state e₂) state enough in
      (
        ended,
        joins u.system.scheduler (move_all-HasStopped k b joining (stopped y) u e₂ state),
        ap (λ m. m >>= move_all k b joining) (stops-stopped F R k b y) ∙ e₂,
      )

  -- If none of the calls of clients fails a check, and the scheduler's thread gets 11 steps while
  -- join() waits for it, not counting the rounds of a wait whose time is not up, then run() comes
  -- to its end, whatever else happens.
  pub run_course-returns :
      (flags : RunnerFlags) (c : Course F R) (r : Runner D W) (y u v : Assembly D W)
      → move_all k flags.wait_for_runner_ready (acts starts ∷ c.running_time) (at_start k o c r)
        ≡ ok y
      → move_all k flags.wait_for_runner_ready c.joining (stopped y) ≡ ok u
      → move_all k flags.wait_for_runner_ready c.waiting u ≡ ok v
      → 11 ≤ progress flags.wait_for_runner_ready (actions_of c.joining) (stopped y).system
      → (z : Assembly D W) × (run_course k o flags c r ≡ ok (some z))
  run_course-returns flags c r y u v e₁ e₂ e₃ enough =
      let b = flags.wait_for_runner_ready in
      let (ended, joined, to_u) =
        ends_at_join b r.scheduler (map (sender_loop c.now) r.workers)
          (acts starts ∷ c.running_time) c.joining y u e₁ e₂ enough in
      let (z, e₄) = halt_from-ok F R k b 0 flags.number_of_workers v in
      (
        z,
        finish F R k o flags c r u z
            (move_all-append k o b (acts starts ∷ c.running_time) (acts (calls stops) ∷ c.joining)
              (at_start k o c r) y u e₁ to_u)
            joined ended
            (move_all-append k o b c.waiting (halt_from 0 flags.number_of_workers) u v z e₃ e₄),
      )
