-- ===== src/Sleep/Examples.antt =====
-- A request that slept for 1.7 seconds, and a connection whose second request fails.
use treadmill.Prelude.{◌≡◌, refl, some, ℕ, ◌+◌, String, length, List, [], ◌∷◌, arith}
use treadmill.Prelude.Int.{ℤ, pos, int_laws, ◌+ℤ◌, ◌-ℤ◌, ◌*ℤ◌}
use treadmill.Double.{whole}
use treadmill.Worker.{Try, value, exception}
use treadmill.Sleep.{Time, micros, IsTimersub, make_reply, reply_time, go_sleep, on_answer}
use treadmill.Result.{ok}
use treadmill.Io.{ns_look_up}
use treadmill.Statistics.{
  Histogram, StatisticsManager, new_manager, get_continuous_stat, add_value_at,
}
use treadmill.Statistics.Registries.{find_or_make, update_at}
use treadmill.Statistics.Sharing.{Use, asks_continuous, adds_value, use_one, use_all}
use treadmill.Statistics.Logged.{size_at}
use treadmill.Statistics.Printing.{print, logged_count}
use treadmill.Sleep.Connection.{
  SleepConnection, sleep_time_stat, connect, take_answers, logged_count-take_answers,
}
use treadmill.Sleep.Replies.{reply_time-go_sleep}

-- The difference, all of it in the microseconds.
abbrev difference : Time → Time → Time
difference end start = record { tv_sec = pos 0; tv_usec = micros end -ℤ micros start }

zero_left : (z : ℤ) → pos 0 +ℤ z ≡ z
zero_left z = omega int_laws

difference_is : IsTimersub difference
unfolding ◌*ℤ◌
difference_is end start = zero_left (micros end -ℤ micros start)

abbrev start : Time
start = record { tv_sec = pos 10; tv_usec = pos 900_000 }

abbrev end : Time
end = record { tv_sec = pos 12; tv_usec = pos 600_000 }

reply_time-go_sleep_example :
    let sent = go_sleep whole difference start end in
    (sent ≡ micros end -ℤ micros start)
    × (on_answer whole (value sent) ≡ (value (make_reply whole sent), sent ∷ []))
    × (reply_time whole (make_reply whole sent) ≡ sent)
unfolding ◌+ℤ◌ ◌-ℤ◌ ◌*ℤ◌
reply_time-go_sleep_example =
    reply_time-go_sleep whole difference start end difference_is (omega arith) (omega arith)
      (omega arith) (omega arith)

abbrev all_values : Histogram whole (List ℤ)
all_values = record {
  fresh = [];
  add_value = λ v h. v ∷ h;
  flush = λ h. h;
  estimate_quantiles = λ qs h. record { count = pos (length h); sum = pos 0; quantiles = [] };
  size = λ h. length h;
  size-fresh = refl;
  size-add_value = λ v h. refl;
  size-flush = λ h. refl;
  count-flush = λ qs h. refl;
}

-- Another connection has counted a time already.
abbrev uses : List (Use ℤ)
uses = asks_continuous sleep_time_stat ∷ adds_value 0 (pos 4) ∷ []

abbrev manager : StatisticsManager (List ℤ)
manager = use_all all_values uses new_manager

abbrev made : SleepConnection
made = record { host = "10.0.0.7"; port = pos 9090; histo = 0 }

abbrev answers : List (Try ℤ)
answers = value (pos 1_700_000) ∷ exception "timeout" ∷ []

connected :
    connect whole all_values {A = ℕ} (λ n. some 7) (λ a. "10.0.0.7") (pos 9090) manager
    ≡ ok (made, manager)
unfolding connect ns_look_up get_continuous_stat find_or_make use_all use_one add_value_at update_at
    treadmill.Prelude.Dict.lookup treadmill.Prelude.Dict.insert
connected = refl

logged_count-take_answers_example :
    logged_count sleep_time_stat
      (print whole all_values (take_answers whole all_values made answers manager)).0
    ≡ some (pos (size_at whole all_values manager.histo_map 0 + 1))
logged_count-take_answers_example =
    logged_count-take_answers whole all_values uses (λ n. some 7) (λ a. "10.0.0.7") (pos 9090) made
      manager answers connected
