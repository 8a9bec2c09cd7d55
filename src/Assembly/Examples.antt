-- ===== src/Assembly/Examples.antt =====
-- A scheduler with one worker whose workload has one request, and the theorems at its runs.
use treadmill.Prelude.{
  ℕ, zero, suc, ◌*◌, ◌≤◌, ◌<◌, length, ◌≡◌, refl, false, ◌&&◌, Option, none, some, List, [], ◌∷◌,
  ◌++◌, get_elem?, get_or, arith, String,
}
use treadmill.Prelude.Int.{ℤ, pos, ◌+ℤ◌, ◌-ℤ◌, ◌*ℤ◌, to_int32, to_uint32}
use treadmill.Double.{whole}
use treadmill.Event.{Event, Value, value_dynamic}
use treadmill.Result.{Result, ok, fatal}
use treadmill.Scheduler.{RunState, make, join}
use treadmill.Scheduler.Loop.{Pc, loop_step, interval_of, random_exponential_interval}
use treadmill.Scheduler.RoundRobin.{queue}
use treadmill.Scheduler.System.{starts, steps, calls, stops, act}
use treadmill.Worker.{
  Workload, Worker, begun, make_worker, set_off, sender_loop, report, estimate, flush_exceptions,
  dispatch,
}
use treadmill.Worker.Handlers.{Turn, message_available, on_event, send_request, send_next}
use treadmill.Assembly.{Consumer, Assembly, Move, acts, takes, move, move_all, assemble}
use treadmill.Assembly.Order.{requests, has_stop, move_all-IsServed}
use treadmill.Assembly.Early.{RunsOut, move_all-RunsOut}
use treadmill.Scheduler.Going.{IsGoing}
use treadmill.Prelude.{◌⊎◌}
use treadmill.Assembly.Cause.{Cause, move_all-Cause}
use treadmill.Assembly.Finished.{done-halts}

abbrev next_of : ℕ → Option ℕ × ℕ
next_of zero = (none, 0)
next_of (suc n) = (some n, n)

abbrev finite : Workload Value ℕ ℕ
finite = record {
  make = λ config. 1;
  reset = λ n. 1;
  set_phase = λ phase n. n;
  get_next_request = next_of;
  make_config_outputs = λ w ws. Value.nothing;
}

abbrev worker : Worker ℕ
worker = begun (pos 1) finite (pos 0) (pos 1) 2 (pos 4) Value.nothing

abbrev now : ℤ → Turn String
now t = record { send_time = t; recv_time = t; now = t; ready = none; escaped = none }

-- Steps of the thread, one each microsecond.
abbrev ticks : ℕ → ℕ → List (Move ℤ String)
ticks t zero = []
ticks t (suc n) =
    acts (steps (record { now = pos (t * 1000); draw = pos 1; size = 0 })) ∷ ticks (suc t) n

abbrev take_one : Move ℤ String
take_one = takes 0 (now (pos 5))

-- Two requests are on the queue, of which the worker has taken the first.
abbrev opening : List (Move ℤ String)
opening = acts starts ∷ ticks 1 15 ++ take_one ∷ take_one ∷ []

abbrev initial : Assembly Value ℕ
initial = assemble (make false 1000 1 8 4) (worker ∷ [])

abbrev after : Result (Assembly Value ℕ) → Assembly Value ℕ
after (ok y) = y
after (fatal e) = initial

abbrev opened : Assembly Value ℕ
opened = after (move_all finite false opening initial)

-- It has none for the second, and the scheduler comes to its end.
abbrev rest : List (Move ℤ String)
rest = ticks 30 9

abbrev ended : Assembly Value ℕ
ended = after (move_all finite false (take_one ∷ rest) opened)

-- A client stops the scheduler instead, and the worker takes everything.
abbrev stopping : List (Move ℤ String)
stopping =
    acts starts ∷ ticks 1 8
    ++ take_one ∷ take_one ∷ acts (calls stops) ∷ ticks 30 12
    ++ take_one ∷ take_one ∷ []

abbrev busy : Assembly Value ℕ
busy = assemble (make false 1000 1 8 4) (record worker { workload = 5 } ∷ [])

abbrev finished : Assembly Value ℕ
finished = after (move_all finite false stopping busy)

abbrev at_end : Consumer Value ℕ
at_end = get_or finished.consumers 0 (record { worker = worker; consumed = [] })

abbrev at_work : Consumer Value ℕ
at_work = get_or opened.consumers 0 (record { worker = worker; consumed = [] })

-- What the run comes to: one request of two has been taken, and the worker runs out at the second.
opening_runs :
    (move_all finite false opening initial ≡ ok opened)
    × (get_elem? opened.consumers 0 ≡ some at_work)
    × (at_work.worker.sent ≡ 1)
unfolding move_all move act make loop_step interval_of random_exponential_interval ◌-ℤ◌ ◌+ℤ◌ ◌*ℤ◌
    to_int32 to_uint32 message_available on_event send_request send_next make_worker set_off
    sender_loop report estimate flush_exceptions dispatch
opening_runs = (refl, refl, refl)

rest_runs : move_all finite false (take_one ∷ rest) opened ≡ ok ended
unfolding move_all move act make loop_step interval_of random_exponential_interval ◌-ℤ◌ ◌+ℤ◌ ◌*ℤ◌
    to_int32 to_uint32 message_available on_event send_request send_next make_worker set_off
    sender_loop report estimate flush_exceptions dispatch
rest_runs = refl

at_work-RunsOut : RunsOut finite (queue opened.system.scheduler 0) at_work
unfolding move_all move act make loop_step interval_of random_exponential_interval ◌-ℤ◌ ◌+ℤ◌ ◌*ℤ◌
    to_int32 to_uint32 message_available on_event send_request send_next make_worker set_off
    sender_loop report estimate flush_exceptions dispatch
at_work-RunsOut = record {
  extra_data = Value.nothing;
  workload = 0;
  consuming = refl;
  running = refl;
  below = refl;
  asked = refl;
  no_more = refl;
}

stopping_runs :
    (move_all finite false stopping busy ≡ ok finished)
    × (get_elem? finished.consumers 0 ≡ some at_end)
    × (finished.system.pc ≡ Pc.done)
    × (at_end.consumed ≡ queue finished.system.scheduler 0)
    × (0 < length finished.system.scheduler.queues)
unfolding move_all move act make loop_step interval_of random_exponential_interval ◌-ℤ◌ ◌+ℤ◌ ◌*ℤ◌
    to_int32 to_uint32 message_available on_event send_request send_next make_worker set_off
    sender_loop report estimate flush_exceptions dispatch
stopping_runs = (refl, refl, refl, refl, omega arith)

worker-sent : worker.sent ≡ 0
unfolding make_worker set_off sender_loop
worker-sent = refl

move_all-IsServed_example :
    ((more : List (Event Value)) × (queue opened.system.scheduler 0 ≡ at_work.consumed ++ more))
    × (at_work.worker.sent ≤ requests at_work.consumed)
    × (requests at_work.consumed ≤ requests (queue opened.system.scheduler 0))
    × ((has_stop at_work.consumed && at_work.worker.running) ≡ false)
move_all-IsServed_example =
    move_all-IsServed String finite false (make false 1000 1 8 4) (worker ∷ []) opening opened 0
      at_work (worker-sent, tt) opening_runs.0 opening_runs.1

move_all-RunsOut_example :
    (ended.system.scheduler.state ≡ RunState.stopping)
    × (join ended.system.scheduler ≡ ok ended.system.scheduler)
move_all-RunsOut_example =
    move_all-RunsOut finite false 0 (now (pos 5)) rest opened ended at_work opening_runs.1
      at_work-RunsOut rest_runs

done-halts_example : at_end.worker.running ≡ false
done-halts_example =
    done-halts finite false 1000 1 8 4 (record worker { workload = 5 } ∷ []) stopping finished 0
      at_end (worker-sent, tt) stopping_runs.0 stopping_runs.2 stopping_runs.1 stopping_runs.4
      stopping_runs.3

opened-IsGoing : IsGoing false opened.system
unfolding move_all move act make loop_step interval_of random_exponential_interval ◌-ℤ◌ ◌+ℤ◌ ◌*ℤ◌
    to_int32 to_uint32 message_available on_event send_request send_next make_worker set_off
    sender_loop report estimate flush_exceptions dispatch
opened-IsGoing = record { state = refl; pc = refl; promised = refl }

move_all-Cause_example : IsGoing false ended.system ⊎ Cause finite false (take_one ∷ rest) opened
move_all-Cause_example =
    move_all-Cause finite false false (take_one ∷ rest) opened ended refl rest_runs opened-IsGoing
