-- ===== src/Reports/Examples.antt =====
-- A worker whose first request fails and is reported.
use treadmill.Prelude.{ℕ, suc, ◌+◌, ◌≡◌, refl, true, none, some, length, String, List, [], ◌∷◌}
use treadmill.Prelude.Int.{ℤ, pos, ◌+ℤ◌, ◌-ℤ◌}
use treadmill.Prelude.Dict.{bump}
use treadmill.Double.{whole}
use treadmill.Event.{Value, value_dynamic, EventType}
use treadmill.Statistics.{
  CounterStatistic, new_counter, increase, Histogram, new_manager, get_continuous_stat,
}
use treadmill.Statistics.Sharing.{Use, asks, asks_continuous, use_all}
use treadmill.Statistics.Printing.{print, logged_count}
use treadmill.Statistics.Logged.{size_at}
use treadmill.Statistics.Observed.{observe_all}
use treadmill.Worker.{
  Workload, Worker, Try, Effect, begun, make_worker, set_off, sender_loop, on_reply, complete, find,
  remove, report, estimate, flush_exceptions, dispatch,
}
use treadmill.Worker.Handlers.{message_available, on_event, send_request, send_next}
use treadmill.Worker.Histories.{Happening, receives, replies, happen, history}
use treadmill.Worker.Accounting.{failed, waiting}
use treadmill.Worker.Latencies.{answered}
use treadmill.Reports.{record_effects, count_of_class, count-history}
use treadmill.Reports.Latency.{samples_of, logged_count-answered}

abbrev counting : Workload Value ℕ ℕ
counting = record {
  make = λ config. 0;
  reset = λ n. 0;
  set_phase = λ phase n. n;
  get_next_request = λ n. (some n, suc n);
  make_config_outputs = λ w ws. Value.nothing;
}

abbrev asked : ℤ → Happening Value String
asked t =
    receives (record { send_time = t; recv_time = t; now = t; ready = none; escaped = none })
      (record { event_type = EventType.send_request; extra_data = Value.nothing })

abbrev day : List (Happening Value String)
day = asked (pos 5) ∷ replies 0 (pos 9) (Try.exception "timeout") ∷ asked (pos 12) ∷ []

abbrev worked : Worker ℕ × List (Effect ℤ ℕ String)
worked =
    history value_dynamic whole counting day
      (begun (pos 1) counting (pos 0) (pos 2) 2 (pos 4) Value.nothing)

-- A counter that another worker has already used.
abbrev shared : CounterStatistic
shared = increase (pos 3) "timeout" new_counter

count-history_example :
    count_of_class "timeout" (record_effects worked.1 shared) +ℤ pos (waiting "timeout" worked.0)
    ≡ count_of_class "timeout" shared +ℤ pos (failed "timeout" worked.1)
count-history_example =
    count-history "timeout" refl value_dynamic whole counting day (pos 1) (pos 0) (pos 2) 2 (pos 4)
      Value.nothing shared

abbrev all_values : Histogram whole (List ℤ)
all_values = record {
  fresh = [];
  add_value = λ v h. v ∷ h;
  flush = λ h. h;
  estimate_quantiles = λ qs h. record { count = pos (length h); sum = pos 0; quantiles = [] };
  size = λ h. length h;
  size-fresh = refl;
  size-add_value = λ v h. refl;
  size-flush = λ h. refl;
  count-flush = λ qs h. refl;
}

abbrev uses : List (Use ℤ)
uses = asks_continuous "throughput" ∷ asks "exceptions" ∷ []

abbrev worker : Worker ℕ
worker = begun (pos 1) counting (pos 0) (pos 2) 2 (pos 4) Value.nothing

still_runs : (worked.0.running ≡ true) × (answered worked.1 ≡ 1)
unfolding history happen message_available on_event send_request send_next make_worker set_off
    sender_loop on_reply complete find remove report estimate flush_exceptions dispatch bump ◌-ℤ◌
    ◌+ℤ◌
still_runs = (refl, refl)

logged_count-answered_example :
    let m₁ =
      (get_continuous_stat all_values "request_latency" (use_all all_values uses new_manager)).1 in
    let p =
      (get_continuous_stat all_values "request_latency" (use_all all_values uses new_manager)).0 in
    logged_count "request_latency"
      (print whole all_values (observe_all whole all_values (samples_of worked.1) m₁)).0
    ≡ some (pos (size_at whole all_values m₁.histo_map p + answered worked.1))
logged_count-answered_example =
    logged_count-answered whole all_values value_dynamic counting uses day worker still_runs.0
