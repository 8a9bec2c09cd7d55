-- ===== src/Runner/Ending.antt =====
-- Treadmill.h: what holds when run() has come to the end of its loops over the workers.
use treadmill.Prelude.{
  ℕ, ◌≤◌, ◌≡◌, sym, ap, ◌∙◌, Bool, false, some, List, ◌++◌, map, length, length-map, All, All-map,
  get_elem?, get_elem?-lt, Option-cases, inl, inr, arith,
}
use mathlib.Core.Option.{none-ne-some}
use treadmill.Double.{Double}
use treadmill.Prelude.Int.{ℤ}
use treadmill.Event.{Dynamic, Event}
use treadmill.Result.{ok, ok-injective, >>=-eq-ok}
use treadmill.Scheduler.Loop.{Pc}
use treadmill.Scheduler.RoundRobin.{queue}
use treadmill.Worker.{Workload, Worker, sender_loop}
use treadmill.Worker.Handlers.{TargetFlags}
use treadmill.Assembly.{Consumer, Assembly}
use treadmill.Assembly.Halted.{halt_from, halt_from-HaltedBelow, move_all-length}
use treadmill.Assembly.Order.{requests, move_all-IsServed}
use treadmill.Assembly.Finished.{move_all-done}
use treadmill.Runner.{RunnerFlags, Runner}
use treadmill.Runner.Setup.{Outside, set_up, IsSetOff, set_up_lem}
use treadmill.Runner.Course.{
  Course, from_started, at_start, run_course, run_test, run_course-IsFinished,
}

sender_loop-sent : {W : Type 0} (now : ℤ) (w : Worker W) → w.sent ≡ 0 → (sender_loop now w).sent ≡ 0
unfolding sender_loop
sender_loop-sent now w e = e

module _ {D F W Q R : Type 0} ⦃d : Dynamic D⦄ ⦃f : Double F⦄ (k : Workload D W Q)
    (o : Outside D) where
  run_test-some :
      (flags : RunnerFlags) (target : TargetFlags) (answers : ℕ → List Bool) (c : Course F R)
      (z : Assembly D W)
      → run_test k o flags target answers c ≡ ok (some z)
      → (r : Runner D W) × (set_up k o flags target answers ≡ ok (some r))
        × (run_course k o flags c r ≡ ok (some z))
  unfolding run_test
  run_test-some flags target answers c z e =
      let (started, p, e₁) = >>=-eq-ok (set_up k o flags target answers) _ e in
      elim (Option-cases started) [
        | inl n ↦
            absurd (none-ne-some z (ok-injective (ap (from_started k o flags c) (sym n) ∙ e₁)))
        | inr (r, n) ↦ (r, p ∙ ap ok n, ap (from_started k o flags c) (sym n) ∙ e₁)
      ]

  -- A run that comes to its end, whatever its threads, clients and targets do: there are as many
  -- workers as the flag says; the scheduler's thread has ended; and of each worker: it does not
  -- run; what it has taken are the first messages of its queue, in order; and it has sent at most
  -- one request for each message of its queue that asks for one.
  pub run_test_lem :
      (flags : RunnerFlags) (target : TargetFlags) (answers : ℕ → List Bool) (c : Course F R)
      (z : Assembly D W) (i : ℕ) (x : Consumer D W)
      → run_test k o flags target answers c ≡ ok (some z)
      → get_elem? z.consumers i ≡ some x
      → (length z.consumers ≡ flags.number_of_workers)
        × (z.system.pc ≡ Pc.done)
        × (x.worker.running ≡ false)
        × ((rest : List (Event D)) × (queue z.system.scheduler i ≡ x.consumed ++ rest))
        × (x.worker.sent ≤ requests (queue z.system.scheduler i))
  run_test_lem flags target answers c z i x e there =
      let (r, up, p) = run_test-some flags target answers c z e in
      let (loaded, scheduler, workers, pinned, each) = set_up_lem k o flags target answers r up in
      let h = run_course-IsFinished k o flags c r z p in
      let b = flags.wait_for_runner_ready in
      let ws : List (Worker W) = map (sender_loop c.now) r.workers in
      let unsent : All (λ w. w.sent ≡ 0) ws =
        All-map (IsSetOff k o r.config) (λ w. w.sent ≡ 0) (sender_loop c.now) r.workers
          (λ w g. sender_loop-sent c.now w g.unsent) each in
      let (order, sent, asked, at_rest) =
        move_all-IsServed R k b r.scheduler ws h.whole z i x unsent h.moved there in
      let size : length z.consumers ≡ flags.number_of_workers =
        move_all-length R k b h.whole (at_start k o c r) z h.moved
        ∙ length-map ws _
        ∙ length-map r.workers (sender_loop c.now)
        ∙ workers in
      let stopped =
        halt_from-HaltedBelow F R k b 0 flags.number_of_workers h.before z h.halting
          (λ j y g lt. absurd (omega (arith, lt))) in
      (
        size,
        move_all-done k b (halt_from 0 flags.number_of_workers) h.before z h.halting h.done,
        stopped i x there (omega (arith, size, get_elem?-lt z.consumers i x there)),
        order,
        omega (arith, sent, asked),
      )
