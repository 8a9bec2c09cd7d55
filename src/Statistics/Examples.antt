-- ===== src/Statistics/Examples.antt =====
-- Two counters that several clients share.
use text.Mathlib.Text.{◌==◌ as str_eq}
use treadmill.Prelude.{
  ◌≡◌, refl, List, [], ◌∷◌, ◌==◌, get_or, ℕ, ◌+◌, String, some, length, if◌then◌else◌,
}
use treadmill.Prelude.Int.{ℤ, pos, ◌+ℤ◌}
use treadmill.Prelude.Dict.{lookup, insert}
use treadmill.Double.{whole}
use treadmill.Statistics.Registries.{find_or_make, update_at}
use treadmill.Statistics.{
  CounterStatistic, new_counter, find_or_construct, increase, get_count, get_subkey_count,
  Histogram, StatisticsManager, new_manager, get_counter_stat, increase_at, get_continuous_stat,
  add_value_at,
}
use treadmill.Statistics.Sharing.{
  Use, asks, increases, asks_continuous, adds_value, use_all, get_counter_stat-increase_at,
}
use treadmill.Statistics.Printing.{
  print_statistic, print_counters, print_histogram, print_histograms, print, logged_count,
}
use treadmill.Statistics.Logged.{size_at}
use treadmill.Statistics.Observed.{observe_all, number_of, logged_count-print}

abbrev timeouts : CounterStatistic
timeouts = increase (pos 2) "timeout" new_counter

timeouts_count : (get_count timeouts ≡ pos 2) × ((get_subkey_count "timeout" timeouts).1 ≡ pos 2)
unfolding get_count get_subkey_count increase find_or_construct insert lookup ◌+ℤ◌
timeouts_count = (refl, refl)

-- A list of its values in place of an estimator, which meets the laws.
abbrev all_values : Histogram whole (List ℤ)
all_values = record {
  fresh = [];
  add_value = λ v h. v ∷ h;
  flush = λ h. h;
  estimate_quantiles = λ qs h. record { count = pos (length h); sum = pos 0; quantiles = [] };
  size = λ h. length h;
  size-fresh = refl;
  size-add_value = λ v h. refl;
  size-flush = λ h. refl;
  count-flush = λ qs h. refl;
}

abbrev uses : List (Use ℤ)
uses =
    asks "exceptions"
    ∷ asks_continuous "request_latency"
    ∷ increases 0 (pos 1) "timeout"
    ∷ adds_value 0 (pos 7)
    ∷ asks "exceptions"
    ∷ []

get_counter_stat-increase_at_example :
    let m = use_all all_values uses new_manager in
    let p = (get_counter_stat "exceptions" m).0 in
    let m₁ = (get_counter_stat "exceptions" m).1 in
    let q = (get_counter_stat "uncaught_exceptions" m₁).0 in
    let m₂ = (get_counter_stat "uncaught_exceptions" m₁).1 in
    (get_counter_stat "exceptions" m₂ ≡ (p, m₂))
    × ((p == q) ≡ str_eq "exceptions" "uncaught_exceptions")
    × (get_or (increase_at p (pos 4) "reset" m₂).count_map.store q new_counter ≡ (
        if str_eq "exceptions" "uncaught_exceptions"
        then increase (pos 4) "reset" (get_or m₂.count_map.store q new_counter)
        else get_or m₂.count_map.store q new_counter))
get_counter_stat-increase_at_example =
    get_counter_stat-increase_at all_values uses "exceptions" "uncaught_exceptions" (pos 4) "reset"

abbrev samples : List (String × ℤ)
samples = ("request_latency", pos 3) ∷ ("throughput", pos 9) ∷ ("request_latency", pos 5) ∷ []

abbrev asked : ℕ × StatisticsManager (List ℤ)
asked = get_continuous_stat all_values "request_latency" (use_all all_values uses new_manager)

abbrev observed : StatisticsManager (List ℤ)
observed = observe_all whole all_values samples asked.1

observed_count : logged_count "request_latency" (print whole all_values observed).0 ≡ some (pos 3)
unfolding print observe_all use_all get_continuous_stat print_histograms print_counters
    print_statistic print_histogram lookup insert get_counter_stat increase_at add_value_at
    find_or_make update_at increase find_or_construct ◌+ℤ◌
observed_count = refl

logged_count-print_example :
    (logged_count "request_latency" (print whole all_values observed).0
      ≡ some (
          pos (
            size_at whole all_values asked.1.histo_map asked.0
            + number_of whole all_values "request_latency" samples)))
    × (logged_count "request_latency" (print whole all_values (print whole all_values observed).1).0
        ≡ logged_count "request_latency" (print whole all_values observed).0)
logged_count-print_example = logged_count-print whole all_values uses "request_latency" samples
