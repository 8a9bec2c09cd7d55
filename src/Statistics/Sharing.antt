-- ===== src/Statistics/Sharing.antt =====
-- StatisticsManager.cpp: who shares a counter or a histogram: those that asked for it by the same
-- name, and no others.
use text.Mathlib.Text.{◌==◌ as str_eq}
use treadmill.Prelude.{ℕ, ◌≡◌, ap, String, List, [], ◌∷◌, if◌then◌else◌, get_or, ◌==◌}
use treadmill.Prelude.Int.{ℤ}
use treadmill.Double.{Double}
use treadmill.Statistics.Registries.{
  Registry, IsShared, find_or_make-IsShared, update_at-IsShared, find_or_make-update_at,
  new_registry-IsShared,
}
use treadmill.Statistics.{
  CounterStatistic, new_counter, increase, Histogram, StatisticsManager, new_manager,
  get_counter_stat, increase_at, get_continuous_stat, add_value_at,
}

-- What those that hold the manager do.
pub data Use (F : Type 0) : Type 0 where
  asks : String → Use F
  increases : ℕ → ℤ → String → Use F
  asks_continuous : String → Use F
  adds_value : ℕ → F → Use F

module _ {F H : Type 0} {f : Double F} (e : Histogram f H) where
  unfoldable pub use_one : Use F → StatisticsManager H → StatisticsManager H
  use_one (asks name) m = (get_counter_stat name m).1
  use_one (increases p n subkey) m = increase_at p n subkey m
  use_one (asks_continuous name) m = (get_continuous_stat e name m).1
  use_one (adds_value p v) m = add_value_at e p v m

  unfoldable pub use_all : List (Use F) → StatisticsManager H → StatisticsManager H
  unfolding use_one
  use_all [] m = m
  use_all (u ∷ us) m = use_all us (use_one u m)

  -- Counters and histograms each have their own map.
  pub record EachIsShared (m : StatisticsManager H) : Type 0 where
    pub counters : IsShared m.count_map
    pub histograms : IsShared m.histo_map

  use_one-EachIsShared :
      (u : Use F) (m : StatisticsManager H) → EachIsShared m → EachIsShared (use_one u m)
  unfolding use_one get_counter_stat increase_at get_continuous_stat add_value_at
  use_one-EachIsShared (asks name) m v = record {
    counters = find_or_make-IsShared new_counter name m.count_map v.counters;
    histograms = v.histograms;
  }
  use_one-EachIsShared (increases p n subkey) m v = record {
    counters = update_at-IsShared new_counter p (increase n subkey) m.count_map v.counters;
    histograms = v.histograms;
  }
  use_one-EachIsShared (asks_continuous name) m v = record {
    counters = v.counters;
    histograms = find_or_make-IsShared e.fresh name m.histo_map v.histograms;
  }
  use_one-EachIsShared (adds_value p x) m v = record {
    counters = v.counters;
    histograms = update_at-IsShared e.fresh p (e.add_value x) m.histo_map v.histograms;
  }

  use_all-EachIsShared :
      (us : List (Use F)) (m : StatisticsManager H) → EachIsShared m → EachIsShared (use_all us m)
  unfolding use_all
  use_all-EachIsShared [] m v = v
  use_all-EachIsShared (u ∷ us) m v =
      use_all-EachIsShared us (use_one u m) (use_one-EachIsShared u m v)

  pub new-EachIsShared : (us : List (Use F)) → EachIsShared (use_all us new_manager)
  new-EachIsShared us =
      use_all-EachIsShared us new_manager
        (record { counters = new_registry-IsShared _; histograms = new_registry-IsShared H })

  -- However the manager was used before: who asks by a name again gets the same counter; two names
  -- have the same counter just when they are equal; and an increase through the counter of one name
  -- is seen by those that hold it under that name, and changes no other counter.
  pub get_counter_stat-increase_at :
      (us : List (Use F)) (name other : String) (n : ℤ) (subkey : String)
      → let m = use_all us new_manager in
        let p = (get_counter_stat name m).0 in
        let m₁ = (get_counter_stat name m).1 in
        let q = (get_counter_stat other m₁).0 in
        let m₂ = (get_counter_stat other m₁).1 in
        (get_counter_stat name m₂ ≡ (p, m₂))
        × ((p == q) ≡ str_eq name other)
        × (get_or (increase_at p n subkey m₂).count_map.store q new_counter ≡ (
            if str_eq name other
            then increase n subkey (get_or m₂.count_map.store q new_counter)
            else get_or m₂.count_map.store q new_counter))
  unfolding increase_at get_counter_stat
  get_counter_stat-increase_at us name other n subkey =
      let m = use_all us new_manager in
      let (again, same, seen) =
        find_or_make-update_at new_counter name other (increase n subkey) m.count_map
          (new-EachIsShared us).counters in
      (
        ap
            (λ (x : ℕ × Registry CounterStatistic). (
              x.0,
              record (get_counter_stat other (get_counter_stat name m).1).1 { count_map = x.1 },
            ))
            again,
        same,
        seen,
      )
