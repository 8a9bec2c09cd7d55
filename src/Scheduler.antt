-- ===== src/Scheduler.antt =====
-- Scheduler.h and Scheduler.cpp: the state of the scheduler and the methods that other threads
-- call. A queue is the list of the messages put on it so far, oldest first; what the consumer has
-- taken is not removed. The uint32_t fields are numbers below 2^32, an int32_t argument is a ℤ.
pub mod Loop
pub mod System
pub mod Lifecycle
pub mod Calls
pub mod Termination
pub mod Protocol
pub mod RoundRobin
pub mod Budget
pub mod Messages
pub mod Growth
pub mod Reach
pub mod Going
pub mod Pace
pub mod Pacing
mod Examples
mod PacingExamples
use treadmill.Prelude.{
  ℕ, ◌%◌, ◌^◌, Bool, true, false, String, Option, none, some, List, [], ◌∷◌, ◌++◌, map, replicate,
  if◌then◌else◌,
}
use treadmill.Prelude.Int.{ℤ, to_uint32, to_int32}
use treadmill.Result.{Result, ok, check, ◌>>=◌, ◌>>◌}
use treadmill.Event.{Dynamic, Event, EventType, bare}

pub data RunState : Type 0 where
  running : RunState
  paused : RunState
  stopping : RunState

pub record Scheduler (D : Type 0) : Type 0 where
  pub logging_threshold : ℕ
  pub next : ℕ
  pub rps : ℕ
  pub max_outstanding_requests : ℕ
  pub logged : List ℕ
  pub queues : List (List (Event D))
  pub state : RunState
  -- thread_ has been made
  pub thread : Bool
  -- promise_ has its value
  pub promise : Bool

abbrev pub is_running : RunState → Bool
is_running RunState.running = true
is_running _ = false

abbrev pub is_paused : RunState → Bool
is_paused RunState.paused = true
is_paused _ = false

abbrev pub is_stopping : RunState → Bool
is_stopping RunState.stopping = true
is_stopping _ = false

-- compare_exchange_strong: the store happens only if the state is the expected one.
abbrev compare_exchange : RunState → RunState → Bool → RunState
compare_exchange current desired expected = if expected then desired else current

-- The constructor with four arguments; `wait_for_runner_ready` is the flag.
unfoldable pub make : {D : Type 0} → Bool → ℕ → ℕ → ℕ → ℕ → Scheduler D
make wait_for_runner_ready rps number_of_workers max_outstanding_requests logging_threshold =
    record {
      logging_threshold = logging_threshold;
      next = 0;
      rps = rps;
      max_outstanding_requests = max_outstanding_requests;
      logged = replicate number_of_workers 1;
      queues = replicate number_of_workers [];
      state = if wait_for_runner_ready then RunState.paused else RunState.running;
      thread = false;
      promise = false;
    }

-- The constructor with three arguments.
unfoldable pub make_unlimited : {D : Type 0} → Bool → ℕ → ℕ → ℕ → Scheduler D
make_unlimited wait_for_runner_ready rps number_of_workers logging_threshold = record {
  logging_threshold = logging_threshold;
  next = 0;
  rps = rps;
  max_outstanding_requests = 0;
  logged = replicate number_of_workers 1;
  queues = replicate number_of_workers [];
  state = if wait_for_runner_ready then RunState.paused else RunState.running;
  thread = false;
  promise = false;
}

module _ {D : Type 0} where
  unfoldable pub pause : Scheduler D → Scheduler D
  pause s = record s { state = compare_exchange s.state RunState.paused (is_running s.state) }

  -- The Bool says if the scheduler is now running.
  unfoldable pub resume : Scheduler D → Scheduler D × Bool
  resume s =
      let s' : Scheduler D = record s {
        state = compare_exchange s.state RunState.running (is_paused s.state);
      } in
      (s', is_running s'.state)

  unfoldable pub is_running_now : Scheduler D → Bool
  is_running_now s = is_running s.state

  unfoldable pub stop : Scheduler D → Scheduler D
  stop s = record s { state = RunState.stopping }

  -- run() makes the thread; the loop itself is in Scheduler/Loop.
  unfoldable pub run : Scheduler D → Scheduler D
  run s = record s { thread = true }

  -- join() waits for the thread, which is for the caller; what it checks is here.
  unfoldable pub join : Scheduler D → Result (Scheduler D)
  join s = do check (is_stopping s.state); ok s

  -- putMessage(event) on each queue.
  unfoldable pub message_all_workers : Event D → Scheduler D → Scheduler D
  message_all_workers e s = record s { queues = map (λ q. q ++ e ∷ []) s.queues }

  unfoldable pub get_max_outstanding_requests : Scheduler D → ℤ
  get_max_outstanding_requests s = to_int32 (ℤ.pos s.max_outstanding_requests)

  unfoldable pub get_rps : Scheduler D → ℤ
  get_rps s = to_int32 (ℤ.pos s.rps)

  unfoldable pub set_rps : ℤ → Scheduler D → Scheduler D
  set_rps rps s = record s { rps = to_uint32 rps }

module _ {D : Type 0} ⦃d : Dynamic D⦄ where
  unfoldable pub set_phase : Bool → String → Scheduler D → Result (Scheduler D)
  unfolding message_all_workers
  set_phase wait_for_runner_ready phase_name s = do
    (if wait_for_runner_ready then check (is_paused s.state) else ok tt)
    ok (
        message_all_workers
          (record { event_type = EventType.set_phase; extra_data = d.of_string phase_name }) s)

  -- The uint32_t field, not the argument, is what the message carries.
  unfoldable pub set_max_outstanding_requests : ℤ → Scheduler D → Scheduler D
  unfolding message_all_workers
  set_max_outstanding_requests max_outstanding_requests s =
      let s' : Scheduler D = record s {
        max_outstanding_requests = to_uint32 max_outstanding_requests;
      } in
      message_all_workers
        (record {
          event_type = EventType.set_max_outstanding;
          extra_data = d.of_int (ℤ.pos s'.max_outstanding_requests);
        })
        s'
