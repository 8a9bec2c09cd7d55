-- ===== src/Statistics/Printing.antt =====
-- StatisticsManager::print() and CounterStatistic::printStatistic(). A line of the log is a value
-- of `LogLine`; how a number is written out is for the libraries. An unordered map is gone through
-- in the order in which its dictionary has the entries.
use text.Mathlib.Text.{◌==◌ as str_eq}
use treadmill.Prelude.{
  ℕ, String, Option, none, some, List, [], ◌∷◌, ◌++◌, map, get_or, if◌then◌else◌,
}
use treadmill.Prelude.Int.{ℤ, pos}
use treadmill.Prelude.Dict.{Dict}
use treadmill.Double.{Double}
use treadmill.Statistics.Registries.{Registry, update_at}
use treadmill.Statistics.{CounterStatistic, new_counter, Histogram, StatisticsManager}

pub data LogLine (F : Type 0) : Type 0 where
  heading : LogLine F
  blank : LogLine F
  title : String → LogLine F
  total_count : ℤ → LogLine F
  subkey_count : String → ℤ → LogLine F
  histogram_count : F → LogLine F
  average : F → LogLine F
  -- The percentile and its value.
  quantile : F → F → LogLine F

module _ {F : Type 0} where
  unfoldable pub print_statistic : CounterStatistic → List (LogLine F)
  print_statistic c = total_count c.count ∷ map (λ p. subkey_count p.0 p.1) c.subkey_count

  unfoldable pub print_counters : Dict ℕ → List CounterStatistic → List (LogLine F)
  unfolding print_statistic
  print_counters [] store = []
  print_counters ((k, p) ∷ names) store =
      title k ∷ print_statistic (get_or store p new_counter) ++ print_counters names store

  -- kQuantiles
  abbrev pub k_quantiles : Double F → List F
  k_quantiles f =
      map (λ n. f.decimal n 2) (1 ∷ 5 ∷ 10 ∷ 15 ∷ 20 ∷ 50 ∷ 80 ∷ 85 ∷ 90 ∷ 95 ∷ 99 ∷ [])
      ++ f.decimal 999 3 ∷ f.of_int (pos 1) ∷ []

module _ {F H : Type 0} (f : Double F) (e : Histogram f H) where
  -- The body of the loop over the histograms, after the flush: est.sum / std::max(1.0, est.count).
  unfoldable pub print_histogram : H → List (LogLine F)
  print_histogram h =
      let est = e.estimate_quantiles (k_quantiles f) h in
      let one = f.of_int (pos 1) in
      histogram_count est.count
      ∷ average (f.div est.sum (if f.less one est.count then est.count else one))
      ∷ map (λ q. quantile (f.mul q.0 (f.of_int (pos 100))) q.1) est.quantiles

  unfoldable pub print_histograms : Dict ℕ → Registry H → List (LogLine F) × Registry H
  unfolding print_histogram update_at
  print_histograms [] r = ([], r)
  print_histograms ((k, p) ∷ names) r =
      let r' = update_at p e.flush r in
      let (lines, r'') = print_histograms names r' in
      (title k ∷ print_histogram (get_or r'.store p e.fresh) ++ lines, r'')

  unfoldable pub print : StatisticsManager H → List (LogLine F) × StatisticsManager H
  unfolding print_counters print_histograms
  print m =
      let (lines, r) = print_histograms m.histo_map.names m.histo_map in
      (
        heading ∷ blank ∷ print_counters m.count_map.names m.count_map.store ++ lines,
        record m { histo_map = r },
      )

module _ {F : Type 0} where
  -- The count that is printed for the histogram of a name.
  abbrev pub logged_count : String → List (LogLine F) → Option F
  logged_count k [] = none
  logged_count k (title j ∷ histogram_count c ∷ lines) =
      if str_eq j k then some c else logged_count k lines
  logged_count k (_ ∷ lines) = logged_count k lines
