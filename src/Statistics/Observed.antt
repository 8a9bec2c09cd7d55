-- ===== src/Statistics/Observed.antt =====
-- StatisticsManager.cpp: the count that print() writes for a histogram is that of the values added
-- to it.
use text.Mathlib.Text.{◌==◌ as str_eq}
use treadmill.Prelude.{
  ℕ, ◌+◌, ◌≡◌, ap, ◌∙◌, Bool, true, false, String, some, List, [], ◌∷◌, get_or, arith,
  if◌then◌else◌,
}
use treadmill.Prelude.Int.{pos}
use treadmill.Prelude.Dict.{lookup}
use treadmill.Double.{Double}
use treadmill.Statistics.Registries.{
  find_or_make, update_at, IsShared, find_or_make-IsShared, update_at-IsShared, has-find_or_make,
  keeps-find_or_make, same_pointer, shares_value, get_or-find_or_make,
}
use treadmill.Statistics.{
  Histogram, StatisticsManager, new_manager, get_continuous_stat, add_value_at,
}
use treadmill.Statistics.Sharing.{Use, use_all, new-EachIsShared}
use treadmill.Statistics.Logged.{size_at, logged-print, print_twice}
use treadmill.Statistics.Printing.{print, logged_count}

module _ {F H : Type 0} (f : Double F) (e : Histogram f H) where
  -- The calls getContinuousStat(name)->addValue(value), in order.
  unfoldable pub observe_all : List (String × F) → StatisticsManager H → StatisticsManager H
  unfolding get_continuous_stat add_value_at
  observe_all [] m = m
  observe_all ((name, value) ∷ samples) m =
      let (p, m₁) = get_continuous_stat e name m in observe_all samples (add_value_at e p value m₁)

  -- The values observed under a name.
  abbrev pub number_of : String → List (String × F) → ℕ
  number_of k [] = 0
  number_of k ((j, v) ∷ samples) = (if str_eq j k then 1 else 0) + number_of k samples

  record Observed (k : String) (p : ℕ) (n : ℕ) (m m' : StatisticsManager H) : Type 0 where
    shared : IsShared m'.histo_map
    there : lookup k m'.histo_map.names ≡ some p
    grown : size_at f e m'.histo_map p ≡ size_at f e m.histo_map p + n

  size-added :
      (b : Bool) (v : F) (h : H)
      → e.size (if b then e.add_value v h else h) ≡ e.size h + (if b then 1 else 0)
  size-added true v h = omega (arith, e.size-add_value v h)
  size-added false v h = omega arith

  observe-Observed :
      (k j : String) (v : F) (p : ℕ) (m : StatisticsManager H)
      → IsShared m.histo_map
      → lookup k m.histo_map.names ≡ some p
      → let (q, m₁) = get_continuous_stat e j m in
        Observed k p (if str_eq j k then 1 else 0) m (add_value_at e q v m₁)
  unfolding get_continuous_stat add_value_at update_at
  observe-Observed k j v p m s h =
      let q = (find_or_make e.fresh j m.histo_map).0 in
      let r = (find_or_make e.fresh j m.histo_map).1 in
      let rs = find_or_make-IsShared e.fresh j m.histo_map s in
      let still = keeps-find_or_make e.fresh j k p m.histo_map h in
      let same = same_pointer e.fresh j k q p r rs (has-find_or_make e.fresh j m.histo_map) still in
      record {
        shared = update_at-IsShared e.fresh q (e.add_value v) r rs;
        there = still;
        grown =
            ap e.size
              (shares_value e.fresh (e.add_value v) j k q p r.store same (rs.there k p still))
            ∙ size-added (str_eq j k) v (get_or r.store p e.fresh)
            ∙ ap (λ x. e.size x + (if str_eq j k then 1 else 0))
                (get_or-find_or_make e.fresh j p m.histo_map (s.there k p h));
      }

  observe_all-Observed :
      (k : String) (p : ℕ) (samples : List (String × F)) (m : StatisticsManager H)
      → IsShared m.histo_map
      → lookup k m.histo_map.names ≡ some p
      → Observed k p (number_of k samples) m (observe_all samples m)
  unfolding observe_all
  observe_all-Observed k p [] m s h = record { shared = s; there = h; grown = omega arith }
  observe_all-Observed k p ((j, v) ∷ samples) m s h =
      let first = observe-Observed k j v p m s h in
      let rest = observe_all-Observed k p samples _ first.shared first.there in
      record {
        shared = rest.shared;
        there = rest.there;
        grown = omega (arith, first.grown, rest.grown);
      }

  -- However the manager was used before: once a client has asked for the histogram of a name, and
  -- any values have been observed under any names, print() writes as its count the values that it
  -- had and those observed under its name since; and a second print() writes the same.
  pub logged_count-print :
      (us : List (Use F)) (k : String) (samples : List (String × F))
      → let m = use_all e us new_manager in
        let p = (get_continuous_stat e k m).0 in
        let m₁ = (get_continuous_stat e k m).1 in
        let z = observe_all samples m₁ in
        (logged_count k (print f e z).0
          ≡ some (f.of_int (pos (size_at f e m₁.histo_map p + number_of k samples))))
        × (logged_count k (print f e (print f e z).1).0 ≡ logged_count k (print f e z).0)
  unfolding get_continuous_stat
  logged_count-print us k samples =
      let m = use_all e us new_manager in
      let v = (new-EachIsShared e us).histograms in
      let p = (find_or_make e.fresh k m.histo_map).0 in
      let m₁ : StatisticsManager H = (get_continuous_stat e k m).1 in
      let seen =
        observe_all-Observed k p samples m₁ (find_or_make-IsShared e.fresh k m.histo_map v)
          (has-find_or_make e.fresh k m.histo_map) in
      let inside = seen.shared.there k p seen.there in
      let z = observe_all samples m₁ in
      (
        logged-print f e k z p seen.there inside ∙ ap (λ n. some (f.of_int (pos n))) seen.grown,
        print_twice f e k z p seen.there inside,
      )
