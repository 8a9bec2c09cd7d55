-- ===== src/Reports/Latency.antt =====
-- Worker.h and StatisticsManager.cpp together: the latencies that a worker reports, and the count
-- that print() writes for them.
use treadmill.Prelude.{◌+◌, ◌≡◌, refl, ap, ◌∙◌, true, String, some, List, [], ◌∷◌, arith}
use treadmill.Prelude.Int.{pos}
use treadmill.Double.{Double}
use treadmill.Event.{Dynamic}
use treadmill.Statistics.{Histogram, new_manager, get_continuous_stat}
use treadmill.Statistics.Sharing.{Use, use_all}
use treadmill.Statistics.Printing.{print, logged_count}
use treadmill.Statistics.Logged.{size_at}
use treadmill.Statistics.Observed.{observe_all, number_of, logged_count-print}
use treadmill.Worker.{Workload, Worker, Effect, adds_latency, adds_throughput, adds_outstanding}
use treadmill.Worker.Histories.{Happening, history}
use treadmill.Worker.Latencies.{latencies, answered, latencies-answered}

-- The statistics' names of StatisticsManager.h.
abbrev pub request_latency : String
request_latency = "request_latency"

abbrev pub throughput : String
throughput = "throughput"

abbrev pub outstanding_requests : String
outstanding_requests = "outstanding_requests"

-- What effects add to histograms, and to which: addValue() of the worker's three statistics.
abbrev pub samples_of : {F Q R : Type 0} → List (Effect F Q R) → List (String × F)
samples_of [] = []
samples_of (adds_latency x ∷ es) = (request_latency, x) ∷ samples_of es
samples_of (adds_throughput x ∷ es) = (throughput, x) ∷ samples_of es
samples_of (adds_outstanding x ∷ es) = (outstanding_requests, x) ∷ samples_of es
samples_of (_ ∷ es) = samples_of es

module _ {F H : Type 0} (f : Double F) (e : Histogram f H) where
  number_of-samples_of :
      {Q R : Type 0} (es : List (Effect F Q R))
      → number_of f e request_latency (samples_of es) ≡ latencies es
  number_of-samples_of [] = refl
  number_of-samples_of (adds_latency x ∷ es) = omega (arith, number_of-samples_of es)
  number_of-samples_of (adds_throughput x ∷ es) = omega (arith, number_of-samples_of es)
  number_of-samples_of (adds_outstanding x ∷ es) = omega (arith, number_of-samples_of es)
  number_of-samples_of (_ ∷ es) = number_of-samples_of es

  -- However the manager was used before: if a worker has got the statistic of latencies, and
  -- whatever has happened to it since it still runs, print() writes as the count of latencies those
  -- that were there and one for each request that was answered, by a value or by an exception.
  pub logged_count-answered :
      {D W Q R : Type 0} (d : Dynamic D) (k : Workload D W Q) (us : List (Use F))
      (hs : List (Happening D R)) (w : Worker W)
      → (history d f k hs w).0.running ≡ true
      → let es = (history d f k hs w).1 in
        let m₁ = (get_continuous_stat e request_latency (use_all e us new_manager)).1 in
        let p = (get_continuous_stat e request_latency (use_all e us new_manager)).0 in
        logged_count request_latency (print f e (observe_all f e (samples_of es) m₁)).0
        ≡ some (f.of_int (pos (size_at f e m₁.histo_map p + answered es)))
  logged_count-answered d k us hs w runs =
      let es = (history d f k hs w).1 in
      let m₁ = (get_continuous_stat e request_latency (use_all e us new_manager)).1 in
      let p = (get_continuous_stat e request_latency (use_all e us new_manager)).0 in
      (logged_count-print f e us request_latency (samples_of es)).0
      ∙ ap (λ n. some (f.of_int (pos (size_at f e m₁.histo_map p + n))))
          (number_of-samples_of es ∙ latencies-answered d f k hs w runs)
