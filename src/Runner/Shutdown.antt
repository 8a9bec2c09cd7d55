-- ===== src/Runner/Shutdown.antt =====
-- The end of a run: the wait for the workers is bounded, and everything is stopped.
use treadmill.Prelude.{
  ap, ◌⊎◌, inl, inr, ℕ, zero, suc, ◌+◌, ◌≤◌, ◌<◌, ◌≡◌, refl, false, List, map, arith, ltb, if-cases,
}
use treadmill.Result.{ok}
use treadmill.Scheduler.{RunState, stop, join}
use treadmill.Worker.{Worker, stop as stop_worker}
use treadmill.Runner.{RunnerFlags, Runner, remaining, wait_for_workers, shut_down}

-- In each of the `rounds` seconds from `from` on some worker has more work.
abbrev pub AllBusy : {W : Type 0} → (ℕ → List (Worker W)) → (from rounds : ℕ) → Type 0
AllBusy observed from zero = Unit
AllBusy observed from (suc rounds) =
    0 < remaining (observed from) × AllBusy observed (suc from) rounds

-- What the wait promises: it takes at most the seconds it is given; it goes on while some worker
-- has more work; and it ends either because the seconds are over or because no worker has.
pub record IsPatient {W : Type 0} (observed : ℕ → List (Worker W)) (from seconds : ℕ)
    (result : ℕ × ℕ) : Type 0 where
  pub rounds : ℕ
  pub slept : result.0 ≡ from + rounds
  pub bounded : rounds ≤ seconds
  pub busy : AllBusy observed from rounds
  pub ended : (rounds ≡ seconds) ⊎ ((result.1 ≡ 0) × (remaining (observed result.0) ≡ 0))

module _ {W : Type 0} (observed : ℕ → List (Worker W)) where
  wait-IsPatient :
      (seconds slept left : ℕ)
      → IsPatient observed slept seconds (wait_for_workers observed seconds slept left)
  unfolding wait_for_workers
  wait-IsPatient zero slept left = record {
    rounds = 0;
    slept = omega arith;
    bounded = omega arith;
    busy = tt;
    ended = inl refl;
  }
  wait-IsPatient (suc seconds) slept left =
      let found = remaining (observed slept) in
      let v = wait-IsPatient seconds (suc slept) found in
      if-cases (IsPatient observed slept (suc seconds)) (ltb 0 found)
        (λ e. record {
          rounds = suc v.rounds;
          slept = omega (arith, v.slept);
          bounded = omega (arith, v.bounded);
          busy = (ground arith, v.busy);
          ended = elim v.ended [ inl h ↦ inl (ap suc h) | inr h ↦ inr h ];
        })
        (λ e. record {
          rounds = 0;
          slept = omega arith;
          bounded = omega arith;
          busy = tt;
          ended = inr (refl, ground arith);
        })

  -- The shutdown never fails, join() passing its check because stop() came first. It leaves the
  -- scheduler stopping and every worker not running. The wait before that ends within
  -- worker_shutdown_delay seconds, early only if no worker has more work, and in each second
  -- that it waits some worker has.
  pub shut_down_lem :
      {D : Type 0} (flags : RunnerFlags) (r : Runner D W)
      → let result = wait_for_workers observed flags.worker_shutdown_delay 0 0 in
        (shut_down flags observed r
          ≡ ok (
            record r {
              scheduler = record r.scheduler { state = RunState.stopping };
              workers =
                  map {A = Worker W} {B = Worker W}
                    (λ w. record w { running = false })
                    (observed result.0);
            },
            result.0,
          ))
        × IsPatient observed 0 flags.worker_shutdown_delay result
  unfolding shut_down stop join stop_worker
  shut_down_lem flags r = (refl, wait-IsPatient flags.worker_shutdown_delay 0 0)
