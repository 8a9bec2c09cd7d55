-- ===== src/Worker/Outputs.antt =====
-- Worker.h: the constructor that is given a workload, and makeConfigOutputs().
use treadmill.Prelude.{ℕ, List, map}
use treadmill.Prelude.Int.{ℤ}
use treadmill.Worker.{Workload, Worker, make_worker}

module _ {D W Q : Type 0} (k : Workload D W Q) where
  -- The workload that the first constructor makes from the configuration is replaced.
  unfoldable pub make_worker_with : ℤ → ℤ → ℕ → ℤ → D → W → Worker W
  unfolding make_worker
  make_worker_with worker_id number_of_workers number_of_connections max_outstanding_requests config
        workload =
      record (make_worker k worker_id number_of_workers number_of_connections
        max_outstanding_requests config) { workload = workload }

  -- The workload of this worker combines those of all workers.
  unfoldable pub make_config_outputs : Worker W → List (Worker W) → D
  make_config_outputs w worker_refs =
      k.make_config_outputs w.workload (map (λ v. v.workload) worker_refs)
