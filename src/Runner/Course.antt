-- ===== src/Runner/Course.antt =====
-- Treadmill.h: run() from the flags to the stop of the last worker, with all threads that take
-- part. What the threads, the clients and the targets do is a list of moves for each part of the
-- run.
use treadmill.Prelude.{
  ℕ, ◌≡◌, refl, sym, ap, ◌∙◌, subst, Bool, Bool-cases, true, false, inl, inr, Option, none, some,
  List, [], ◌∷◌, ◌++◌, map, arith, if◌then◌else◌,
}
use mathlib.Core.Option.{some-injective, none-ne-some}
use treadmill.Prelude.Int.{ℤ}
use treadmill.Double.{Double}
use treadmill.Event.{Dynamic}
use treadmill.Result.{Result, ok, ok-injective, ◌>>=◌, >>=-eq-ok}
use treadmill.Scheduler.{join}
use treadmill.Scheduler.Loop.{Pc}
use treadmill.Scheduler.System.{starts, calls, stops}
use treadmill.Worker.{Workload, sender_loop}
use treadmill.Worker.Handlers.{TargetFlags}
use treadmill.Assembly.{Assembly, Move, acts, move, move_all, assemble}
use treadmill.Assembly.Halted.{halt_from}
use treadmill.Assembly.Finished.{move_all-done}
use treadmill.Runner.{RunnerFlags, Runner}
use treadmill.Runner.Setup.{Outside, set_up}

pub record Course (F R : Type 0) : Type 0 where
  -- When the workers' threads begin to consume.
  pub now : ℤ
  -- Until the scheduler's promise is kept or the runtime is over.
  pub running_time : List (Move F R)
  -- While join() waits for the scheduler's thread.
  pub joining : List (Move F R)
  -- While the workers are given time.
  pub waiting : List (Move F R)

abbrev pub is_done : Pc → Bool
is_done Pc.done = true
is_done _ = false

pub is_done-eq : (pc : Pc) → is_done pc ≡ true → pc ≡ Pc.done
is_done-eq pc e = ground arith

module _ {D F W Q R : Type 0} ⦃d : Dynamic D⦄ ⦃f : Double F⦄ (k : Workload D W Q)
    (o : Outside D) where
  -- The moves until join() returns, and the runner at their start.
  abbrev pub until_joined : Course F R → List (Move F R)
  until_joined c = acts starts ∷ c.running_time ++ acts (calls stops) ∷ c.joining

  abbrev pub at_start : Course F R → Runner D W → Assembly D W
  at_start c r = assemble r.scheduler (map (sender_loop c.now) r.workers)

  -- From scheduler->run() to the last stop(); `none` says that join() waits for ever.
  unfoldable pub run_course : RunnerFlags → Course F R → Runner D W → Result (Option (Assembly D W))
  unfolding join
  run_course flags c r = do
    y ← move_all k flags.wait_for_runner_ready (until_joined c) (at_start c r)
    s ← join y.system.scheduler
    let z =
        move_all k flags.wait_for_runner_ready (c.waiting ++ halt_from 0 flags.number_of_workers) y
    (if is_done y.system.pc then z >>= (λ x. ok (some x)) else ok none)

  abbrev pub from_started :
      RunnerFlags → Course F R → Option (Runner D W) → Result (Option (Assembly D W))
  from_started flags c none = ok none
  from_started flags c (some r) = run_course flags c r

  unfoldable pub run_test :
      RunnerFlags → TargetFlags → (ℕ → List Bool) → Course F R → Result (Option (Assembly D W))
  run_test flags target answers c = do
    started ← set_up k o flags target answers
    from_started flags c started

  pub move_all-append :
      (b : Bool) (vs ws : List (Move F R)) (x y z : Assembly D W)
      → move_all k b vs x ≡ ok y
      → move_all k b ws y ≡ ok z
      → move_all k b (vs ++ ws) x ≡ ok z
  unfolding move_all
  move_all-append b [] ws x y z e h = subst (λ u. move_all k b ws u ≡ ok z) (sym (ok-injective e)) h
  move_all-append b (v ∷ vs) ws x y z e h =
      let (u, p, q) = >>=-eq-ok (move k b v x) (move_all k b vs) e in
      ap (λ m. m >>= move_all k b (vs ++ ws)) p ∙ move_all-append b vs ws u y z q h

  -- A run that came to its end is one sequence of moves, with the stops at its end.
  pub record IsFinished (flags : RunnerFlags) (c : Course F R) (r : Runner D W) (z : Assembly D W)
      : Type 0 where
    pub before : Assembly D W
    pub halting :
        move_all {F = F} {R = R} k flags.wait_for_runner_ready
          (halt_from 0 flags.number_of_workers)
          before
        ≡ ok z
    pub whole : List (Move F R)
    pub done : before.system.pc ≡ Pc.done
    pub moved : move_all k flags.wait_for_runner_ready whole (at_start c r) ≡ ok z

  split_moves :
      (b : Bool) (vs ws : List (Move F R)) (x z : Assembly D W)
      → move_all k b (vs ++ ws) x ≡ ok z
      → (y : Assembly D W) × (move_all k b vs x ≡ ok y) × (move_all k b ws y ≡ ok z)
  unfolding move_all
  split_moves b [] ws x z e = (x, refl, e)
  split_moves b (v ∷ vs) ws x z e =
      let (u, p, q) = >>=-eq-ok (move k b v x) (move_all k b (vs ++ ws)) e in
      let (y, p', q') = split_moves b vs ws u z q in (y, ap (λ m. m >>= move_all k b vs) p ∙ p', q')

  pub run_course-IsFinished :
      (flags : RunnerFlags) (c : Course F R) (r : Runner D W) (z : Assembly D W)
      → run_course flags c r ≡ ok (some z)
      → IsFinished flags c r z
  unfolding run_course
  run_course-IsFinished flags c r z e =
      let b = flags.wait_for_runner_ready in
      let stops' : List (Move F R) = halt_from 0 flags.number_of_workers in
      let (y, p, e₁) = >>=-eq-ok (move_all k b (until_joined c) (at_start c r)) _ e in
      let (s, q, e₂) = >>=-eq-ok (join y.system.scheduler) _ e₁ in
      elim (Bool-cases (is_done y.system.pc)) [
        | inr n ↦ absurd (none-ne-some z (ok-injective (ground (arith, e₂, n))))
        | inl n ↦
            let left : (move_all k b (c.waiting ++ stops') y >>= (λ x. ok (some x))) ≡ ok (some z) =
              ground (arith, e₂, n) in
            let (x, m, e₃) = >>=-eq-ok (move_all k b (c.waiting ++ stops') y) _ left in
            let to_z : move_all k b (c.waiting ++ stops') y ≡ ok z =
              m ∙ ap ok (some-injective x z (ok-injective e₃)) in
            let (v, p', q') = split_moves b c.waiting stops' y z to_z in
            record {
              before = v;
              halting = q';
              done = move_all-done k b c.waiting y v p' (is_done-eq y.system.pc n);
              whole = until_joined c ++ (c.waiting ++ stops');
              moved =
                  move_all-append b (until_joined c) (c.waiting ++ stops') (at_start c r) y z p
                    to_z;
            }
      ]
