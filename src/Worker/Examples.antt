-- ===== src/Worker/Examples.antt =====
-- A worker with two connections, and the theorems about workers at its histories.
use treadmill.Prelude.{
  ℕ, suc, ◌+◌, ◌≡◌, refl, true, false, none, some, List, [], ◌∷◌, arith, String,
}
use treadmill.Prelude.Int.{ℤ, pos, ◌+ℤ◌, ◌-ℤ◌, ◌≤ℤ◌, max_ℤ}
use treadmill.Prelude.Dict.{bump}
use treadmill.Double.{whole}
use treadmill.Event.{Value, value_dynamic, EventType}
use treadmill.Worker.{
  Workload, Worker, Try, Effect, begun, set_off, sender_loop, make_worker, find, remove, complete,
  on_reply, estimate, flush_exceptions, report, dispatch, stop,
}
use treadmill.Worker.Handlers.{
  Turn, TargetFlags, send_next, send_request, on_event, message_available,
}
use treadmill.Worker.Histories.{Happening, receives, replies, happen, history}
use treadmill.Worker.Sound.{IsSound, history-begun-IsSound}
use treadmill.Worker.Limit.{happen-limit}
use treadmill.Worker.Accounting.{reported, failed, waiting, reported-failed}
use treadmill.Worker.Deals.{sent_by, deal}
use treadmill.Worker.Connections.{sent_by-deal}
use treadmill.Worker.Stopping.{stopped-history}

-- A workload that counts its requests.
abbrev counting : Workload Value ℕ ℕ
counting = record {
  make = λ config. 0;
  reset = λ n. 0;
  set_phase = λ phase n. n;
  get_next_request = λ n. (some n, suc n);
  make_config_outputs = λ w ws. Value.nothing;
}

abbrev turn_at : ℤ → Turn String
turn_at t = record { send_time = t; recv_time = t; now = t; ready = none; escaped = none }

abbrev message : EventType → Happening Value String
message e = receives (turn_at (pos 5)) (record { event_type = e; extra_data = Value.whole (pos 3) })

-- Three requests, two of them answered, one with an exception, which the third request reports.
abbrev day : List (Happening Value String)
day =
    message EventType.reset
    ∷ message EventType.send_request
    ∷ message EventType.send_request
    ∷ replies 0 (pos 9) (Try.exception "timeout")
    ∷ replies 1 (pos 9) (Try.value "fine")
    ∷ message EventType.send_request
    ∷ []

abbrev fresh : Worker ℕ
fresh = begun (pos 1) counting (pos 0) (pos 2) 2 (pos 4) Value.nothing

abbrev worked : Worker ℕ × List (Effect ℤ ℕ String)
worked = history value_dynamic whole counting day fresh

abbrev halted : Worker ℕ
halted = (stop {F = ℤ} {Q = ℕ} {R = String} worked.0).0

-- What day does: three requests are sent, and one failure is reported.
day_runs :
    (sent_by worked.1 ≡ (0, 0) ∷ (1, 1) ∷ (0, 2) ∷ [])
    × (worked.0.outstanding_requests ≡ pos 1)
    × (reported "timeout" worked.1 ≡ 1)
    × (failed "timeout" worked.1 ≡ 1)
unfolding history happen message_available on_event send_request send_next make_worker set_off
    sender_loop on_reply complete find remove report estimate flush_exceptions dispatch bump ◌-ℤ◌
    ◌+ℤ◌
day_runs = (refl, refl, refl, refl)

history-begun-IsSound_example : IsSound worked.0
history-begun-IsSound_example =
    history-begun-IsSound ℤ ℕ String value_dynamic whole counting day (pos 1) (pos 0) (pos 2) 2
      (pos 4) Value.nothing (omega arith)

happen-limit_example :
    (happen value_dynamic whole counting
      (message EventType.send_request)
      worked.0).0.outstanding_requests
    ≤ℤ max_ℤ worked.0.outstanding_requests worked.0.max_outstanding_requests
happen-limit_example =
    happen-limit ℤ ℕ String value_dynamic whole counting (message EventType.send_request) worked.0

reported-failed_example :
    reported "timeout" worked.1 + waiting "timeout" worked.0 ≡ failed "timeout" worked.1
reported-failed_example =
    reported-failed "timeout" value_dynamic whole counting day (pos 1) (pos 0) (pos 2) 2 (pos 4)
      Value.nothing

sent_by-deal_example : sent_by worked.1 ≡ deal 2 0 worked.0.sent
sent_by-deal_example =
    sent_by-deal value_dynamic whole counting day (pos 1) (pos 0) (pos 2) 2 (pos 4) Value.nothing
      (omega arith)

halted_stopped : halted.running ≡ false
unfolding stop
halted_stopped = refl

-- The last reply fails after the worker was stopped.
abbrev night : List (Happening Value String)
night = replies 2 (pos 9) (Try.exception "reset") ∷ message EventType.send_request ∷ []

stopped-history_example :
    let m = history {F = ℤ} value_dynamic whole counting night halted in
    (m.0.running ≡ false)
    × (m.0.sent ≡ halted.sent)
    × (reported "reset" m.1 ≡ 0)
    × (waiting "reset" m.0 ≡ waiting "reset" halted + failed "reset" m.1)
stopped-history_example =
    stopped-history "reset" value_dynamic whole counting night halted halted_stopped

abbrev flags : TargetFlags
flags = record { wait_for_target_ready = true; counter_name = ""; counter_threshold = pos 0 }
