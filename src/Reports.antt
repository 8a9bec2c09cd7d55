-- ===== src/Reports.antt =====
-- Worker.h and CounterStatistic.h together: the exceptions that workers report are counted by the
-- counter that they share, under the class of the exception.
pub mod Latency
mod Examples
use treadmill.Prelude.{
  ℕ, ◌+◌, ◌≡◌, refl, ap, ◌∙◌, Bool, Bool-cases, true, false, not, ◌&&◌, is_empty, String, List, [],
  ◌∷◌, inl, inr, arith, if◌then◌else◌,
}
use text.Mathlib.Text.{◌==◌ as str_eq}
use text.Mathlib.TextEquality.{eq_iff}
use native.Mathlib.Nat.{zero-add}
use treadmill.Prelude.Int.{ℤ, pos, ◌+ℤ◌, int_laws}
use treadmill.Double.{Double}
use treadmill.Event.{Dynamic}
use treadmill.Statistics.{CounterStatistic, increase, get_count, get_subkey_count}
use treadmill.Statistics.Counts.{get_subkey_count-increase}
use treadmill.Worker.{Workload, Worker, Effect, increases_exceptions, begun}
use treadmill.Worker.Histories.{Happening, history}
use treadmill.Worker.Accounting.{reported, failed, waiting, reported-failed}

-- What effects do to the statistic of exceptions: exceptions_statistic_->increase(n, c).
abbrev pub record_effects :
    {F Q R : Type 0} → List (Effect F Q R) → CounterStatistic → CounterStatistic
record_effects [] s = s
record_effects (increases_exceptions n c ∷ es) s = record_effects es (increase (pos n) c s)
record_effects (_ ∷ es) s = record_effects es s

-- The count under a class.
abbrev pub count_of_class : String → CounterStatistic → ℤ
count_of_class c s = (get_subkey_count c s).1

pub add_pos : (z : ℤ) (m n : ℕ) → z +ℤ pos m +ℤ pos n ≡ z +ℤ pos (m + n)
add_pos z m n = omega int_laws

module _ {F Q R : Type 0} (c : String) (named : is_empty c ≡ false) where
  pub count-record_effects :
      (es : List (Effect F Q R)) (s : CounterStatistic)
      → count_of_class c (record_effects es s) ≡ count_of_class c s +ℤ pos (reported c es)
  count-record_effects [] s = omega int_laws
  count-record_effects (increases_exceptions n k ∷ es) s =
      let s' = increase (pos n) k s in
      let ih = count-record_effects es s' in
      let now = (get_subkey_count-increase (pos n) k c s).1 in
      elim (Bool-cases (str_eq k c)) [
        | inl e ↦
            let filled : is_empty k ≡ false = ap is_empty ((eq_iff k c).0 e) ∙ named in
            let step : count_of_class c s' ≡ count_of_class c s +ℤ pos n = rw (filled, e) at now in
            rw e (
              ih
              ∙ ap (λ (z : ℤ). z +ℤ pos (reported c es)) step
              ∙ add_pos (count_of_class c s) n (reported c es))
        | inr e ↦
            let step : count_of_class c s' ≡ count_of_class c s = ground (arith, now, e) in
            rw (e, zero-add) (ih ∙ ap (λ (z : ℤ). z +ℤ pos (reported c es)) step)
      ]
  count-record_effects (_ ∷ es) s = count-record_effects es s

  -- A worker that was started reports to a counter. After any history, the count under a class of
  -- exceptions has grown by the number of replies that failed with it, but for those that the
  -- worker has still to report.
  pub count-history :
      {D W : Type 0} (d : Dynamic D) (f : Double F) (k : Workload D W Q) (hs : List (Happening D R))
      (now id workers : ℤ) (connections : ℕ) (limit : ℤ) (config : D) (s : CounterStatistic)
      → let m = history d f k hs (begun now k id workers connections limit config) in
        count_of_class c (record_effects m.1 s) +ℤ pos (waiting c m.0)
        ≡ count_of_class c s +ℤ pos (failed c m.1)
  count-history d f k hs now id workers connections limit config s =
      let m = history d f k hs (begun now k id workers connections limit config) in
      ap (λ (z : ℤ). z +ℤ pos (waiting c m.0)) (count-record_effects m.1 s)
      ∙ add_pos (count_of_class c s) (reported c m.1) (waiting c m.0)
      ∙ ap (λ (n : ℕ). count_of_class c s +ℤ pos n)
          (reported-failed c d f k hs now id workers connections limit config)
