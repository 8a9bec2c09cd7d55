-- ===== src/Assembly.antt =====
-- Treadmill.h, Scheduler.cpp and Worker.h together: the scheduler with its thread, and the workers,
-- each of which consumes its queue of the scheduler and may stop the scheduler early. The queue is
-- folly::NotificationQueue, which gives its one consumer the messages in the order in which they
-- were put, while it consumes. A history is a list of moves, in any order.
pub mod Served
pub mod Turns
pub mod Order
pub mod Early
pub mod Late
pub mod Cause
pub mod Threads
pub mod Halted
pub mod Stopped
pub mod Finished
mod Examples
use treadmill.Prelude.{
  ℕ, suc, Bool, true, false, ◌||◌, String, Option, none, some, List, [], ◌∷◌, ◌++◌, map, get_elem?,
  set, if◌then◌else◌,
}
use treadmill.Prelude.Int.{ℤ}
use treadmill.Double.{Double}
use treadmill.Event.{Dynamic, Event}
use treadmill.Result.{Result, ok, fatal, ◌>>=◌}
use treadmill.Scheduler.{Scheduler, stop}
use treadmill.Scheduler.RoundRobin.{queue}
use treadmill.Scheduler.System.{Action, System, act, idle_system}
use treadmill.Worker.{
  Workload, Worker, Try, Effect, terminates_early, on_reply, on_uncaught, stop as stop_worker,
}
use treadmill.Worker.Handlers.{Turn, message_available}

-- A worker, with the messages that it has taken from its queue so far.
pub record Consumer (D W : Type 0) : Type 0 where
  pub worker : Worker W
  pub consumed : List (Event D)

pub record Assembly (D W : Type 0) : Type 0 where
  pub system : System D
  pub consumers : List (Consumer D W)

pub data Move (F R : Type 0) : Type 0 where
  -- A step of the scheduler's thread or a call of a client.
  acts : Action F → Move F R
  -- Worker number i takes its next message, if there is one and it still consumes.
  takes : ℕ → Turn R → Move F R
  -- At worker number i, a reply, an exception at the end of a future, or stop().
  replies : ℕ → ℕ → ℤ → Try R → Move F R
  escapes : ℕ → String → Move F R
  halts : ℕ → Move F R

-- The first message of a queue that is not among those consumed.
abbrev pub next_message : {D : Type 0} → List (Event D) → List (Event D) → Option (Event D)
next_message [] [] = none
next_message [] (e ∷ q) = some e
next_message (x ∷ consumed) [] = none
next_message (x ∷ consumed) (e ∷ q) = next_message consumed q

module _ {D F W Q R : Type 0} ⦃d : Dynamic D⦄ ⦃f : Double F⦄ (k : Workload D W Q) where
  -- The worker takes the message `e`.
  unfoldable pub take_message : Turn R → Event D → Consumer D W → Consumer D W × List (Effect F Q R)
  take_message i e c =
      let (w, es) = message_available f k d i e c.worker in
      (record { worker = w; consumed = c.consumed ++ e ∷ [] }, es)

  -- What a move does to the consumer at whose worker it happens.
  unfoldable pub serve :
      Move F R → List (Event D) → Consumer D W → Consumer D W × List (Effect F Q R)
  unfolding take_message
  serve (acts a) q c = (c, [])
  serve (takes i t) q c = elim (if c.worker.consuming then next_message c.consumed q else none) [
    | none ↦ (c, [])
    | some e ↦ take_message t e c
  ]
  serve (replies i n recv_time t) q c =
      let (w, es) = on_reply f n recv_time t c.worker in (record c { worker = w }, es)
  serve (escapes i x) q c = (record c { worker = on_uncaught x c.worker }, [])
  serve (halts i) q c = let (w, es) = stop_worker c.worker in (record c { worker = w }, es)

abbrev pub is_early : {F Q R : Type 0} → List (Effect F Q R) → Bool
is_early [] = false
is_early (terminates_early ∷ es) = true
is_early (_ ∷ es) = is_early es

-- terminate_early_fn of the runner: scheduler->stop().
unfoldable pub settle : {D F Q R : Type 0} → List (Effect F Q R) → Scheduler D → Scheduler D
unfolding stop
settle es s = if is_early es then stop s else s

module _ {D F W Q R : Type 0} ⦃d : Dynamic D⦄ ⦃f : Double F⦄ (k : Workload D W Q) where
  -- A move at worker number i.
  unfoldable pub serve_at : ℕ → Move F R → Assembly D W → Assembly D W
  unfolding serve settle
  serve_at i v y = elim (get_elem? y.consumers i) [
    | none ↦ y
    | some c ↦
        let (c', es) = serve k v (queue y.system.scheduler i) c in
        record {
          system = record y.system { scheduler = settle es y.system.scheduler };
          consumers = set y.consumers i c';
        }
  ]

  unfoldable pub move : Bool → Move F R → Assembly D W → Result (Assembly D W)
  unfolding serve_at
  move b (acts a) y = act b a y.system >>= (λ s. ok (record y { system = s }))
  move b (takes i t) y = ok (serve_at i (takes i t) y)
  move b (replies i n recv_time t) y = ok (serve_at i (replies i n recv_time t) y)
  move b (escapes i x) y = ok (serve_at i (escapes i x) y)
  move b (halts i) y = ok (serve_at i (halts i) y)

  unfoldable pub move_all : Bool → List (Move F R) → Assembly D W → Result (Assembly D W)
  move_all b [] y = ok y
  move_all b (v ∷ vs) y = move b v y >>= move_all b vs

-- A scheduler before its run, with workers that have taken nothing yet.
abbrev pub assemble : {D W : Type 0} → Scheduler D → List (Worker W) → Assembly D W
assemble s ws = record {
  system = idle_system s;
  consumers = map (λ w. record { worker = w; consumed = [] }) ws;
}
