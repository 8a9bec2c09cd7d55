-- ===== src/Worker/Histories.antt =====
-- Worker.h: the handlers of a worker in any order that the event base and other threads may choose.
use treadmill.Prelude.{ℕ, String, List, [], ◌∷◌}
use treadmill.Prelude.Int.{ℤ}
use treadmill.Double.{Double}
use treadmill.Event.{Dynamic, Event}
use treadmill.Worker.{Workload, Worker, Try, Effect, on_reply, on_uncaught, stop}
use treadmill.Worker.Handlers.{Turn, message_available, ◌>>◌}

pub data Happening (D R : Type 0) : Type 0 where
  -- A message from the queue.
  receives : Turn R → Event D → Happening D R
  -- The future of a request completes.
  replies : ℕ → ℤ → Try R → Happening D R
  -- An exception reaches the end of a workload's future.
  escapes : String → Happening D R
  -- The runner calls stop().
  is_stopped : Happening D R

module _ {D F W Q R : Type 0} (d : Dynamic D) (f : Double F) (k : Workload D W Q) where
  unfoldable pub happen : Happening D R → Worker W → Worker W × List (Effect F Q R)
  happen (receives i e) w = message_available f k d i e w
  happen (replies n recv_time t) w = on_reply f n recv_time t w
  happen (escapes c) w = (on_uncaught c w, [])
  happen is_stopped w = stop w

  unfoldable pub history : List (Happening D R) → Worker W → Worker W × List (Effect F Q R)
  history [] w = (w, [])
  history (h ∷ hs) w = happen h w >> history hs
