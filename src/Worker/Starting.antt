-- ===== src/Worker/Starting.antt =====
-- run(): what it refuses, and that it starts the worker once every connection was ready.
use treadmill.Prelude.{
  ℕ, zero, suc, ◌≡◌, Bool, true, false, not, ◌&&◌, ◌||◌, is_empty, Option, none, some, List, [],
  ◌∷◌, arith, if◌then◌else◌, ltb,
}
use treadmill.Prelude.Int.{ℤ, ltb_ℤ}
use treadmill.Result.{ok, fatal, Fault}
use treadmill.Worker.{Worker, set_off}
use treadmill.Worker.Handlers.{TargetFlags, wait_ready, run}

-- How often isReady() said yes.
abbrev pub ready_count : List Bool → ℕ
ready_count [] = 0
ready_count (true ∷ answers) = suc (ready_count answers)
ready_count (false ∷ answers) = ready_count answers

abbrev is_some : {A : Type 0} → Option A → Bool
is_some none = false
is_some (some a) = true

wait_ready-enough :
    (answers : List Bool) (n : ℕ)
    → is_some (wait_ready answers n) ≡ not (ltb (ready_count answers) n)
unfolding wait_ready
wait_ready-enough answers zero = ground arith
wait_ready-enough [] (suc n) = ground arith
wait_ready-enough (true ∷ answers) (suc n) = ground (arith, wait_ready-enough answers n)
wait_ready-enough (false ∷ answers) (suc n) = wait_ready-enough answers (suc n)

-- A counter name without waiting for the target, or with a negative threshold, ends the process.
-- Otherwise the worker is started: at once where the target is not waited for, else when isReady()
-- has said yes once for each connection, whatever it said before; until then run() does not return.
pub run_lem :
    {W : Type 0} (flags : TargetFlags) (answers : List Bool) (w : Worker W)
    → run flags answers w ≡ (
        if not (is_empty flags.counter_name)
          && (not flags.wait_for_target_ready || ltb_ℤ flags.counter_threshold (ℤ.pos 0))
        then fatal Fault.log_fatal
        else ok (
            if flags.wait_for_target_ready && ltb (ready_count answers) w.number_of_connections
            then none
            else some (set_off w)))
unfolding run
run_lem flags answers w = ground (arith, wait_ready-enough answers w.number_of_connections)
