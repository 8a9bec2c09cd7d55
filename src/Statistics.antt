-- ===== src/Statistics.antt =====
-- CounterStatistic.h and StatisticsManager.cpp. A counter or a histogram is shared by all that hold
-- its shared_ptr: they live in a store, and a pointer is a place in it. Counts are int64_t, numbers
-- here, since the code never comes near their bounds. The map of subkeys is the library's
-- AtomicUnorderedInsertMap, a dictionary; its capacity is not modelled.
pub mod Registries
pub mod Counts
pub mod Sharing
pub mod Printing
pub mod Logged
pub mod Observed
mod Examples
use text.Mathlib.Text.{◌==◌ as str_eq}
use treadmill.Prelude.{
  ℕ, suc, ◌≡◌, ◌+◌, Bool, true, false, is_empty, String, Option, none, some, List, [], ◌∷◌, ◌++◌,
  length, modify, get_or, if◌then◌else◌,
}
use treadmill.Prelude.Int.{ℤ, pos, ◌+ℤ◌}
use treadmill.Prelude.Dict.{Dict, lookup, insert}
use treadmill.Double.{Double}
use treadmill.Statistics.Registries.{Registry, new_registry, find_or_make, update_at}

pub record CounterStatistic : Type 0 where
  pub count : ℤ
  pub subkey_count : Dict ℤ

abbrev pub new_counter : CounterStatistic
new_counter = record { count = pos 0; subkey_count = [] }

-- findOrConstruct, with a new entry at 0.
unfoldable pub find_or_construct : String → Dict ℤ → ℤ × Dict ℤ
find_or_construct subkey m = elim (lookup subkey m) [
  | none ↦ (pos 0, insert subkey (pos 0) m)
  | some n ↦ (n, m)
]

-- Here one step; the code's count_ is a plain int64_t, its counts by subkey are atomic.
unfoldable pub increase : ℤ → String → CounterStatistic → CounterStatistic
unfolding find_or_construct
increase n subkey c =
    let (old, m) = find_or_construct subkey c.subkey_count in
    record {
      count = c.count +ℤ n;
      subkey_count = if is_empty subkey then c.subkey_count else insert subkey (old +ℤ n) m;
    }

unfoldable pub get_count : CounterStatistic → ℤ
get_count c = c.count

-- getCount(subkey), which makes a missing entry.
unfoldable pub get_subkey_count : String → CounterStatistic → CounterStatistic × ℤ
unfolding find_or_construct
get_subkey_count subkey c =
    let (n, m) = find_or_construct subkey c.subkey_count in (record c { subkey_count = m }, n)

-- folly::SimpleQuantileEstimator, which is the library's: what the code uses of it. `size` is the
-- number of values that it was given, which flush() makes visible to estimateQuantiles().
pub record Estimates (F : Type 0) : Type 0 where
  pub count : F
  pub sum : F
  pub quantiles : List (F × F)

pub record Histogram {F : Type 0} (f : Double F) (H : Type 0) : Type 0 where
  pub fresh : H
  pub add_value : F → H → H
  pub flush : H → H
  pub estimate_quantiles : List F → H → Estimates F
  pub size : H → ℕ
  pub size-fresh : size fresh ≡ 0
  pub size-add_value : (v : F) (h : H) → size (add_value v h) ≡ suc (size h)
  pub size-flush : (h : H) → size (flush h) ≡ size h
  pub count-flush :
      (qs : List F) (h : H) → (estimate_quantiles qs (flush h)).count ≡ f.of_int (pos (size h))

pub record StatisticsManager (H : Type 0) : Type 0 where
  pub histo_map : Registry H
  pub count_map : Registry CounterStatistic

abbrev pub new_manager : {H : Type 0} → StatisticsManager H
new_manager = record { histo_map = new_registry; count_map = new_registry }

module _ {H : Type 0} where
  -- getCounterStat(): the pointer, and the manager after it.
  unfoldable pub get_counter_stat : String → StatisticsManager H → ℕ × StatisticsManager H
  unfolding find_or_make
  get_counter_stat name m =
      let (p, r) = find_or_make new_counter name m.count_map in (p, record m { count_map = r })

  -- A call of increase() through a pointer.
  unfoldable pub increase_at : ℕ → ℤ → String → StatisticsManager H → StatisticsManager H
  unfolding update_at
  increase_at p n subkey m = record m { count_map = update_at p (increase n subkey) m.count_map }

  module _ {F : Type 0} {f : Double F} (e : Histogram f H) where
    unfoldable pub get_continuous_stat : String → StatisticsManager H → ℕ × StatisticsManager H
    unfolding find_or_make
    get_continuous_stat name m =
        let (p, r) = find_or_make e.fresh name m.histo_map in (p, record m { histo_map = r })

    -- A call of addValue() through a pointer.
    unfoldable pub add_value_at : ℕ → F → StatisticsManager H → StatisticsManager H
    unfolding update_at
    add_value_at p v m = record m { histo_map = update_at p (e.add_value v) m.histo_map }
