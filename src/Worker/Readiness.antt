-- ===== src/Worker/Readiness.antt =====
-- Connection.h: isReady(), and Worker.h: run(), which waits for it. The counter of the target is
-- read over the network: its values are an argument.
use treadmill.Prelude.{
  ℕ, suc, ◌≡◌, refl, ap, Bool, Bool-cases, inl, inr, true, false, not, ◌&&◌, is_empty, none, some,
  List, [], ◌∷◌, map, arith, if◌then◌else◌, ltb,
}
use treadmill.Prelude.Int.{ℤ, ltb_ℤ}
use treadmill.Result.{ok}
use treadmill.Worker.{Worker, set_off}
use treadmill.Worker.Handlers.{TargetFlags, run}
use treadmill.Worker.Starting.{ready_count, run_lem}

-- isReady(), with the value that the target has for the counter.
unfoldable pub is_ready : TargetFlags → ℤ → Bool
is_ready flags value =
    if not (is_empty flags.counter_name) && ltb_ℤ value flags.counter_threshold then false else true

-- The values that are at least the threshold.
abbrev pub count_reached : ℤ → List ℤ → ℕ
count_reached threshold [] = 0
count_reached threshold (v ∷ values) =
    if ltb_ℤ v threshold
    then count_reached threshold values
    else suc (count_reached threshold values)

ready_count-is_ready :
    (flags : TargetFlags) (values : List ℤ)
    → is_empty flags.counter_name ≡ false
    → ready_count (map (is_ready flags) values) ≡ count_reached flags.counter_threshold values
unfolding is_ready
ready_count-is_ready flags [] named = refl
ready_count-is_ready flags (v ∷ values) named =
    elim (Bool-cases (ltb_ℤ v flags.counter_threshold)) [
      | inl e ↦ rw (named, e) (ready_count-is_ready flags values named)
      | inr e ↦ rw (named, e) (ap suc (ready_count-is_ready flags values named))
    ]

-- A worker that is told to wait for a counter with a threshold that is not negative starts, in the
-- end, exactly if the counter was read with the threshold or more once for each connection; until
-- then run() does not return.
pub run-is_ready :
    {W : Type 0} (flags : TargetFlags) (values : List ℤ) (w : Worker W)
    → is_empty flags.counter_name ≡ false
    → flags.wait_for_target_ready ≡ true
    → ltb_ℤ flags.counter_threshold (ℤ.pos 0) ≡ false
    → run flags (map (is_ready flags) values) w
      ≡ ok (
          if ltb (count_reached flags.counter_threshold values) w.number_of_connections
          then none
          else some (set_off w))
run-is_ready flags values w named waits valid = ground (
  arith,
  run_lem flags (map (is_ready flags) values) w,
  ready_count-is_ready flags values named,
  named,
  waits,
  valid,
)
