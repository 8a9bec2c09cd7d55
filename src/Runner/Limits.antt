-- ===== src/Runner/Limits.antt =====
-- The workers of a run, and how the limit on outstanding requests is shared among them.
use treadmill.Prelude.{
  ℕ, zero, suc, ◌+◌, ◌*◌, ◌/◌, ◌≤◌, ◌<◌, ◌≡◌, refl, ap, List, [], ◌∷◌, map, arith, All,
}
use native.Mathlib.Nat.{mul-div-le, div-add-mod, mod-lt}
use treadmill.Prelude.Int.{ℤ, pos, pos_part}
use treadmill.Worker.{Workload, Worker, make_worker}
use treadmill.Runner.{RunnerFlags, Runner, make_runner, workers_from, initialize_workers}

-- The sum of the workers' limits.
abbrev pub total_limit : {W : Type 0} → List (Worker W) → ℕ
total_limit [] = 0
total_limit (w ∷ ws) = pos_part w.max_outstanding_requests + total_limit ws

-- `count` numbers from `first` on.
abbrev pub numbers : ℕ → ℕ → List ℤ
numbers first zero = []
numbers first (suc count) = pos first ∷ numbers (suc first) count

close : (m n : ℕ) → 0 < n → m < n * (m / n) + n
close m n some' = omega (arith, div-add-mod m n, mod-lt m some')

module _ {D W Q : Type 0} (k : Workload D W Q) (flags : RunnerFlags) where
  workers_from-numbers :
      (r : Runner D W) (i count : ℕ)
      → map (λ w. w.worker_id) (workers_from k flags r i count) ≡ numbers i count
  unfolding workers_from make_worker
  workers_from-numbers r i zero = refl
  workers_from-numbers r i (suc count) = ap (◌∷◌ (pos i)) (workers_from-numbers r (suc i) count)

  workers_from-All :
      (r : Runner D W) (i count : ℕ)
      → All
          (λ w. w.max_outstanding_requests ≡ pos r.max_outstanding_requests_per_worker)
          (workers_from k flags r i count)
  unfolding workers_from make_worker
  workers_from-All r i zero = tt
  workers_from-All r i (suc count) = (refl, workers_from-All r (suc i) count)

  total_limit-workers_from :
      (r : Runner D W) (i count : ℕ)
      → total_limit (workers_from k flags r i count) ≡ count * r.max_outstanding_requests_per_worker
  unfolding workers_from make_worker
  total_limit-workers_from r i zero = omega arith
  total_limit-workers_from r i (suc count) = grind (arith, total_limit-workers_from r (suc i) count)

  -- A new runner has one worker for each number from 0 to number_of_workers - 1, all with the same
  -- limit; together these allow at most the requests of the flag max_outstanding_requests, and what
  -- the division by the number of workers loses is less than one request per worker.
  pub initialize_workers-total_limit :
      (object : D)
      → 0 < flags.number_of_workers
      → let r : Runner D W = initialize_workers k flags (make_runner flags object) in
        (map (λ w. w.worker_id) r.workers ≡ numbers 0 flags.number_of_workers)
        × All
            (λ w. w.max_outstanding_requests ≡ pos r.max_outstanding_requests_per_worker)
            r.workers
        × (total_limit r.workers ≤ flags.max_outstanding_requests)
        × (flags.max_outstanding_requests < total_limit r.workers + flags.number_of_workers)
  unfolding initialize_workers make_runner
  initialize_workers-total_limit object some' =
      let r : Runner D W = make_runner flags object in
      let sum = total_limit-workers_from r 0 flags.number_of_workers in
      (
        workers_from-numbers r 0 flags.number_of_workers,
        workers_from-All r 0 flags.number_of_workers,
        rw sum (mul-div-le flags.max_outstanding_requests flags.number_of_workers),
        rw sum (close flags.max_outstanding_requests flags.number_of_workers some'),
      )
