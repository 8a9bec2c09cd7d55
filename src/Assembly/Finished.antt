-- ===== src/Assembly/Finished.antt =====
-- The end of a run: the scheduler's thread has ended, and a worker has taken all of its queue.
use treadmill.Prelude.{
  ℕ, zero, suc, ◌<◌, ◌≡◌, ◌≢◌, refl, ap, ◌∙◌, subst, Bool, true, false, ◌||◌, some, List, [], ◌∷◌,
  get_elem?, get_or, length, All, arith,
}
use treadmill.Double.{Double}
use treadmill.Event.{Dynamic, Event, EventType}
use treadmill.Result.{ok}
use treadmill.Scheduler.{Scheduler, make}
use treadmill.Scheduler.Loop.{Pc, Input, loop_step}
use treadmill.Scheduler.RoundRobin.{queue}
use treadmill.Scheduler.Protocol.{
  Stage, fresh, closed, advance, stage_from, stage, FollowsProtocol, run_all-FollowsProtocol,
}
use treadmill.Scheduler.System.{run_all_keeps}
use treadmill.Worker.{Workload, Worker}
use treadmill.Assembly.{Consumer, Assembly, Move, move_all, assemble}
use treadmill.Assembly.Turns.{is_stop}
use treadmill.Assembly.Order.{has_stop, move_all-IsServed}
use treadmill.Assembly.Threads.{move_all-Reaches}

-- Only a STOP closes a queue.
abbrev is_closed : Stage → Bool
is_closed closed = true
is_closed _ = false

is_closed-advance :
    (g : Stage) (t : EventType) → is_closed (advance g t) ≡ true → (is_closed g || is_stop t) ≡ true
is_closed-advance g t h = ground arith

module _ {D : Type 0} where
  closed-has_stop :
      (g : Stage) (q : List (Event D))
      → is_closed (stage_from g q) ≡ true
      → (is_closed g || has_stop q) ≡ true
  closed-has_stop g [] h = ground arith
  closed-has_stop g (e ∷ q) h =
      let rest = closed-has_stop (advance g e.event_type) q h in
      ground (arith, rest, is_closed-advance g e.event_type)

  get_or-All :
      (P : List (Event D) → Type 0) (qs : List (List (Event D))) (i : ℕ)
      → i < length qs
      → All P qs
      → P (get_or qs i [])
  get_or-All P [] i lt h = elim lt [ ]
  get_or-All P (q ∷ qs) zero lt h = h.0
  get_or-All P (q ∷ qs) (suc i) lt h = get_or-All P qs i (omega arith) h.1

pc_idle : Pc.idle ≢ Pc.done
pc_idle e = cc

module _ {D F : Type 0} ⦃d : Dynamic D⦄ ⦃f : Double F⦄ where
  loop_step-done :
      (i : Input F) (s : Scheduler D) (pc : Pc) → pc ≡ Pc.done → (loop_step i s pc).1 ≡ Pc.done
  unfolding loop_step
  loop_step-done i s pc g = rw g refl

module _ {D F W Q R : Type 0} ⦃d : Dynamic D⦄ ⦃f : Double F⦄ (k : Workload D W Q) where
  -- Once the scheduler's thread has ended, a worker that has taken every message of its queue does
  -- not run any more.
  pub done-halts :
      (b : Bool) (rps n m l : ℕ) (ws : List (Worker W)) (vs : List (Move F R)) (z : Assembly D W)
      (i : ℕ) (c : Consumer D W)
      → All (λ w. w.sent ≡ 0) ws
      → move_all {Q = Q} k b vs (assemble (make b rps n m l) ws) ≡ ok z
      → z.system.pc ≡ Pc.done
      → get_elem? z.consumers i ≡ some c
      → i < length z.system.scheduler.queues
      → c.consumed ≡ queue z.system.scheduler i
      → c.worker.running ≡ false
  done-halts b rps n m l ws vs z i c none_sent e done g lt all =
      let y = assemble (make b rps n m l) ws in
      let (as', r) = move_all-Reaches k b vs y z e in
      let protocol : FollowsProtocol z.system.scheduler Pc.done =
        subst (FollowsProtocol z.system.scheduler) done
          (run_all-FollowsProtocol b rps n m l as' z.system r) in
      let shut : stage (queue z.system.scheduler i) ≡ closed =
        get_or-All (λ q. stage q ≡ closed) z.system.scheduler.queues i lt protocol in
      let stop : has_stop c.consumed ≡ true =
        ap has_stop all ∙ closed-has_stop fresh (queue z.system.scheduler i) (ap is_closed shut) in
      let (order, sent, asked, at_rest) =
        move_all-IsServed R k b (make b rps n m l) ws vs z i c none_sent e g in
      ground (arith, stop, at_rest)

  -- A thread that has ended stays so.
  pub move_all-done :
      (b : Bool) (vs : List (Move F R)) (y z : Assembly D W)
      → move_all {Q = Q} k b vs y ≡ ok z
      → y.system.pc ≡ Pc.done
      → z.system.pc ≡ Pc.done
  move_all-done b vs y z e h =
      let (as', r) = move_all-Reaches k b vs y z e in
      run_all_keeps b (λ s pc. pc ≡ Pc.done) (λ s g. absurd (pc_idle g))
        (λ i s pc g. loop_step-done i s pc g) (λ c s t pc p g. g) as' y.system z.system r h
