-- ===== src/Memcached/Examples.antt =====
-- The workload by itself, and workers that have it.
use treadmill.Prelude.{◌≡◌, refl, arith, List, [], ◌∷◌, ℕ, none, some, map, ◌++◌}
use treadmill.Prelude.Int.{pos, ◌-ℤ◌, ℤ, ◌+ℤ◌, ◌*ℤ◌}
use treadmill.Memcached.{
  reading, mc_get, mc_set, to_string, fresh_workload, reset, set_phase, make_request,
  get_next_request, send_request, MemcachedWorkload, MemcachedRequest, memcached_workload,
}
use treadmill.Memcached.Warmup.{use_workload, use_all, Contains, write, read}
use treadmill.Memcached.Ordered.{history-writes}
use treadmill.Event.{EventType, Value, value_dynamic}
use treadmill.Double.{whole}
use treadmill.Worker.{
  Worker, Effect, Workload, begun, make_worker, set_off, sender_loop, on_reply, complete, report,
  estimate, flush_exceptions, dispatch, find, remove, Try,
}
use treadmill.Worker.Handlers.{Turn, message_available, on_event, send_next}
use treadmill.Worker.Histories.{Happening, receives, replies, history, happen}
use treadmill.Worker.Uses.{Use, asks, resets, enters, requests_of, onto, use_all-history}
use treadmill.Io.{ns_look_up}
use treadmill.Result.{ok, fatal, Fault}
use treadmill.Statistics.{CounterStatistic, new_counter, increase}
use treadmill.Reports.{record_effects, count_of_class}
use treadmill.Worker.Accounting.{waiting}
use treadmill.Memcached.Connection.{
  connect, add_request, McHappening, gets, ends, halts, happening, count-happening,
}
use treadmill.Worker.Handlers as Handlers
use treadmill.Worker.Uses as Uses

to_string_prints : (to_string 0 ≡ "0") × (to_string 2047 ≡ "2047")
unfolding to_string
to_string_prints = (refl, refl)

abbrev uses : List Use
uses = asks ∷ resets ∷ asks ∷ enters "b" ∷ asks ∷ asks ∷ asks ∷ []

uses_run : (use_all (pos 3) uses (fresh_workload, [])).0.state ≡ reading
unfolding use_all use_workload get_next_request make_request reset set_phase ◌-ℤ◌
uses_run = refl

abbrev two_keys : Workload Value MemcachedWorkload MemcachedRequest
two_keys = memcached_workload Value.nothing (pos 2)

abbrev message : EventType → Happening Value ℕ
message e =
    receives
      (record { send_time = pos 5; recv_time = pos 5; now = pos 5; ready = none; escaped = none })
      (record { event_type = e; extra_data = Value.nothing })

-- A reset among the writes, and a reply among the messages; then two reads.
abbrev day : List (Happening Value ℕ)
day =
    message EventType.reset
    ∷ message EventType.send_request
    ∷ message EventType.reset
    ∷ message EventType.send_request
    ∷ replies 0 (pos 9) (Try.value 7)
    ∷ message EventType.send_request
    ∷ message EventType.send_request
    ∷ message EventType.send_request
    ∷ []

abbrev fresh : Worker MemcachedWorkload
fresh = begun (pos 1) two_keys (pos 0) (pos 1) 1 (pos 8) Value.nothing

abbrev worked : Worker MemcachedWorkload × List (Effect ℤ MemcachedRequest ℕ)
worked = history value_dynamic whole two_keys day fresh

day_sends : requests_of worked.1 ≡ (write 0 ∷ write 0 ∷ write 1 ∷ read 0 ∷ []) ++ (read 1 ∷ [])
unfolding history happen message_available on_event Handlers.send_request send_next make_worker
    set_off sender_loop on_reply complete find remove report estimate flush_exceptions dispatch ◌-ℤ◌
    ◌+ℤ◌ ◌*ℤ◌ memcached_workload get_next_request make_request reset set_phase
day_sends = refl

history-writes_example : Contains (write 1) (write 0 ∷ write 0 ∷ write 1 ∷ read 0 ∷ [])
history-writes_example =
    history-writes value_dynamic whole Value.nothing 2 day (pos 1) (pos 0) (pos 1) 1 (pos 8)
      Value.nothing (write 0 ∷ write 0 ∷ write 1 ∷ read 0 ∷ []) [] (read 1) 1 (omega arith)
      day_sends refl (omega arith)

use_all-history_example :
    (us : List Use) × (Uses.use_all two_keys us (fresh.workload, [])
      ≡ (worked.0.workload, onto (requests_of worked.1) []))
use_all-history_example = use_all-history ℤ ℕ two_keys value_dynamic whole day fresh

-- A request, and the client's answer to it, the number of an error.
abbrev refused_day : List (McHappening Value ℕ)
refused_day =
    gets (pos 5) (pos 5) (pos 5)
      (record { event_type = EventType.send_request; extra_data = Value.nothing })
    ∷ ends 0 (pos 9) 61
    ∷ halts
    ∷ []

abbrev used_counter : CounterStatistic
used_counter = increase (pos 3) "timeout" new_counter

count-happening_example :
    let m = history value_dynamic whole two_keys (map happening refused_day) fresh in
    (count_of_class "timeout" (record_effects m.1 used_counter)
      ≡ count_of_class "timeout" used_counter)
    × (waiting "timeout" m.0 ≡ 0)
count-happening_example =
    count-happening "timeout" value_dynamic whole Value.nothing (pos 2) refused_day (pos 1) (pos 0)
      (pos 1) 1 (pos 8) Value.nothing used_counter refl

-- Two tasks wait, in the order of their requests.
connected_twice :
    (connect {A = ℕ} (λ n. some 7) (λ a. "10.0.0.7") (pos 11211)
      ≡ ok (record { host = "10.0.0.7"; port = pos 11211; tasks = [] }))
    × (connect {A = ℕ} (λ n. none) (λ a. "") (pos 11211) ≡ fatal Fault.log_fatal)
    × ((add_request 1
          (read 0)
          (add_request 0 (write 0) (record { host = ""; port = pos 1; tasks = [] }))).tasks
        ≡ (0, mc_set "0" "0") ∷ (1, mc_get "0") ∷ [])
unfolding connect add_request send_request ns_look_up to_string
connected_twice = (refl, refl, refl)
