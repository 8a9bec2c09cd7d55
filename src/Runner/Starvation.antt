-- ===== src/Runner/Starvation.antt =====
-- Treadmill.h: the limit of the flag max_outstanding_requests is divided by the number of workers.
use treadmill.Prelude.{
  ℕ, zero, suc, ◌/◌, ◌<◌, ◌≡◌, refl, true, some, List, All, get_elem?, get_elem?-All,
}
use native.Mathlib.Nat.{div-eq_of_lt}
use treadmill.Prelude.Int.{ℤ}
use treadmill.Double.{Double}
use treadmill.Event.{Dynamic}
use treadmill.Worker.{Workload, Worker, make_worker, set_off, sender_loop}
use treadmill.Worker.Histories.{Happening, history}
use treadmill.Worker.Starved.{keeps_limit, IsStarved, history-IsStarved}
use treadmill.Runner.{RunnerFlags, Runner, make_runner, workers_from, initialize_workers}

module _ {D W Q : Type 0} (k : Workload D W Q) (flags : RunnerFlags) where
  workers_from-IsStarved :
      (now : ℤ) (r : Runner D W) (i count : ℕ)
      → r.max_outstanding_requests_per_worker ≡ 0
      → All (λ w. IsStarved (sender_loop now (set_off w))) (workers_from k flags r i count)
  unfolding workers_from make_worker set_off sender_loop
  workers_from-IsStarved now r i zero e = tt
  workers_from-IsStarved now r i (suc count) e = (
    record { sent = refl; outstanding = refl; in_flight = refl; limit = rw e refl },
    workers_from-IsStarved now r (suc i) count e,
  )

module _ {D F W Q R : Type 0} (d : Dynamic D) (f : Double F) (k : Workload D W Q)
    (flags : RunnerFlags) where
  -- With more workers than the flag max_outstanding_requests says requests, no worker ever sends a
  -- request, whatever reaches it, unless a client sets a new limit.
  pub history-starves :
      (object : D) (i : ℕ) (w : Worker W) (now : ℤ) (hs : List (Happening D R))
      → flags.max_outstanding_requests < flags.number_of_workers
      → get_elem? (initialize_workers k flags (make_runner flags object)).workers i ≡ some w
      → All (λ h. keeps_limit h ≡ true) hs
      → (history d f k hs (sender_loop now (set_off w))).0.sent ≡ 0
  unfolding make_runner initialize_workers
  history-starves object i w now hs lt e n =
      let r : Runner D W = make_runner flags object in
      let none' : flags.max_outstanding_requests / flags.number_of_workers ≡ 0 = div-eq_of_lt lt in
      let all = workers_from-IsStarved k flags now r 0 flags.number_of_workers none' in
      let h =
        get_elem?-All (λ w. IsStarved (sender_loop now (set_off w)))
          (workers_from k flags r 0 flags.number_of_workers) i w all e in
      (history-IsStarved d f k hs (sender_loop now (set_off w)) n h).sent
