-- ===== src/Runner/Setup.antt =====
-- Treadmill.h: run() up to the start of the scheduler, from the flags to workers that run. The part
-- that starts the control server, if server_port is positive, is left out: see Control.
use treadmill.Prelude.{
  ℕ, zero, suc, ◌/◌, ◌≡◌, refl, ap, ◌∙◌, subst, sym, Bool, true, String, Option, Option-cases, inl,
  inr, none, some, List, length, map, All, length-map,
}
use treadmill.Prelude.Int.{ℤ, to_uint32}
use treadmill.Result.{Result, ok, ok-injective, >>=-eq-ok, ◌>>=◌}
use treadmill.Scheduler.{make}
use treadmill.Worker.{Workload, Worker, make_worker, set_off}
use treadmill.Worker.Handlers.{TargetFlags}
use treadmill.Runner.{
  RunnerFlags, Runner, make_runner, load_config, read_affinity, workers_from, initialize_workers,
  run_workers,
}
use treadmill.Runner.Affinity.{read_affinity-All}
use mathlib.Core.Option.{some-injective, none-ne-some}
use treadmill.Runner.Starting.{run_workers-map}

-- What the libraries and the operating system contribute: folly::parseJson, the files,
-- folly::dynamic::update, folly::split, folly::to<int> and the number of cores.
pub record Outside (D : Type 0) : Type 0 where
  pub parse_json : String → Option D
  pub read_file : String → Option String
  pub update : D → D → Option D
  pub split : String → List String
  pub to_int : String → Option ℤ
  pub cores : ℕ
  pub object : D

module _ {D W Q : Type 0} (k : Workload D W Q) (o : Outside D) where
  -- The runner with its workers started, if all of them are.
  abbrev with_workers : Runner D W → Option (List (Worker W)) → Option (Runner D W)
  with_workers r none = none
  with_workers r (some ws) = some (record r { workers = ws })

  -- `none` says that a worker waits for its target for ever.
  unfoldable pub set_up : RunnerFlags → TargetFlags → (ℕ → List Bool) → Result (Option (Runner D W))
  set_up flags target answers = do
    config ←
        load_config o.parse_json o.read_file o.update flags
          (make_runner {W = W} flags o.object).config
    list ←
        read_affinity o.split o.to_int o.cores flags
          (make_runner {W = W} flags o.object).cpu_affinity_list
    let r =
        initialize_workers k flags
          (record (make_runner flags o.object) { config = config; cpu_affinity_list = list })
    started ← run_workers target answers 0 r.workers
    ok (with_workers r started)

  -- A worker as run() leaves it, which has sent nothing, with the workload that is made from
  -- `config`.
  pub record IsSetOff (config : D) (w : Worker W) : Type 0 where
    pub running : w.running ≡ true
    pub unsent : w.sent ≡ 0
    pub workload : w.workload ≡ k.make config

  workers_from-IsSetOff :
      (flags : RunnerFlags) (r : Runner D W) (i count : ℕ)
      → All (IsSetOff r.config) (map set_off (workers_from k flags r i count))
  unfolding workers_from make_worker set_off
  workers_from-IsSetOff flags r i zero = tt
  workers_from-IsSetOff flags r i (suc count) = (
    record { running = refl; unsent = refl; workload = refl },
    workers_from-IsSetOff flags r (suc i) count,
  )

  length-workers_from :
      (flags : RunnerFlags) (r : Runner D W) (i count : ℕ)
      → length (workers_from k flags r i count) ≡ count
  unfolding workers_from
  length-workers_from flags r i zero = refl
  length-workers_from flags r i (suc count) = ap suc (length-workers_from flags r (suc i) count)

  -- What the setting up with these flags is to give.
  record IsSetUp (flags : RunnerFlags) (r : Runner D W) : Type 0 where
    loaded : load_config o.parse_json o.read_file o.update flags o.object ≡ ok r.config
    scheduler :
        r.scheduler
        ≡ make flags.wait_for_runner_ready
            (to_uint32 flags.request_per_second)
            flags.number_of_workers
            flags.max_outstanding_requests
            (flags.max_outstanding_requests / flags.number_of_workers)
    workers : length r.workers ≡ flags.number_of_workers
    pinned : length r.cpu_affinity_list ≡ flags.number_of_workers
    each : All (IsSetOff r.config) r.workers

  set_up-IsSetUp :
      (flags : RunnerFlags) (target : TargetFlags) (answers : ℕ → List Bool) (r : Runner D W)
      → set_up flags target answers ≡ ok (some r)
      → IsSetUp flags r
  unfolding set_up make_runner initialize_workers
  set_up-IsSetUp flags target answers r e =
      let (config, p, e₁) =
        >>=-eq-ok (load_config o.parse_json o.read_file o.update flags o.object) _ e in
      let (list, q, e₂) = >>=-eq-ok (read_affinity o.split o.to_int o.cores flags _) _ e₁ in
      let (started, s, e₃) = >>=-eq-ok (run_workers target answers 0 _) _ e₂ in
      let r₁ : Runner D W =
        initialize_workers k flags
          (record (make_runner flags o.object) { config = config; cpu_affinity_list = list }) in
      elim (Option-cases started) [
        | inl n ↦ absurd (none-ne-some r (ap (with_workers r₁) (sym n) ∙ ok-injective e₃))
        | inr (ws, n) ↦
            let same : record r₁ { workers = ws } ≡ r =
              some-injective (record r₁ { workers = ws }) r
                (ap (with_workers r₁) (sym n) ∙ ok-injective e₃) in
            let all : map set_off r₁.workers ≡ ws =
              sym (run_workers-map target answers 0 r₁.workers ws (s ∙ ap ok n)) in
            subst (IsSetUp flags) same (record {
              loaded = p;
              scheduler = refl;
              workers =
                  ap length (sym all)
                  ∙ length-map r₁.workers set_off
                  ∙ length-workers_from flags r₁ 0 flags.number_of_workers;
              pinned = (read_affinity-All o.split o.to_int o.cores flags list q).0;
              each =
                  subst (All (IsSetOff config)) all
                    (workers_from-IsSetOff flags r₁ 0 flags.number_of_workers);
            })
      ]

  -- What is there once the setting up has come to its end: a new scheduler, as many workers as the
  -- flag says and as many CPU IDs; the configuration is what was loaded; and every worker runs, has
  -- sent nothing, and has its workload made from that configuration.
  pub set_up_lem :
      (flags : RunnerFlags) (target : TargetFlags) (answers : ℕ → List Bool) (r : Runner D W)
      → set_up flags target answers ≡ ok (some r)
      → (load_config o.parse_json o.read_file o.update flags o.object ≡ ok r.config)
        × (r.scheduler
            ≡ make flags.wait_for_runner_ready
                (to_uint32 flags.request_per_second)
                flags.number_of_workers
                flags.max_outstanding_requests
                (flags.max_outstanding_requests / flags.number_of_workers))
        × (length r.workers ≡ flags.number_of_workers)
        × (length r.cpu_affinity_list ≡ flags.number_of_workers)
        × All (IsSetOff r.config) r.workers
  set_up_lem flags target answers r e =
      let h = set_up-IsSetUp flags target answers r e in
      (h.loaded, h.scheduler, h.workers, h.pinned, h.each)
