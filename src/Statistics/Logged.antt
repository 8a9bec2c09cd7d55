-- ===== src/Statistics/Logged.antt =====
-- StatisticsManager.cpp: what print() writes as the count of a histogram.
use text.Mathlib.Text.{◌==◌ as str_eq}
use treadmill.Prelude.{
  ℕ, zero, suc, ◌<◌, ◌≡◌, refl, ap, sym, ◌∙◌, Bool-cases, inl, inr, String, some, List, [], ◌∷◌,
  ◌++◌, map, length, get_or, modify, length-modify, get_or-modify_self, arith,
}
use mathlib.Core.List.{append_assoc}
use treadmill.Prelude.Int.{ℤ, pos}
use treadmill.Prelude.Dict.{Dict, lookup}
use treadmill.Double.{Double}
use treadmill.Statistics.Registries.{Registry, update_at}
use treadmill.Statistics.{CounterStatistic, new_counter, Histogram, StatisticsManager}
use treadmill.Statistics.Printing.{
  LogLine, subkey_count, quantile, print_statistic, print_counters, print_histogram,
  print_histograms, print, logged_count, k_quantiles,
}

module _ {F : Type 0} (k : String) where
  after_subkeys :
      (m : Dict ℤ) (lines : List (LogLine F))
      → logged_count k (map (λ p. subkey_count p.0 p.1) m ++ lines) ≡ logged_count k lines
  after_subkeys [] lines = refl
  after_subkeys (p ∷ m) lines = after_subkeys m lines

  after_quantiles :
      (f : Double F) (qs : List (F × F)) (lines : List (LogLine F))
      → logged_count k (map (λ q. quantile (f.mul q.0 (f.of_int (pos 100))) q.1) qs ++ lines)
        ≡ logged_count k lines
  after_quantiles f [] lines = refl
  after_quantiles f (q ∷ qs) lines = after_quantiles f qs lines

  after_counters :
      (names : Dict ℕ) (store : List CounterStatistic) (lines : List (LogLine F))
      → logged_count k (print_counters names store ++ lines) ≡ logged_count k lines
  unfolding print_counters print_statistic
  after_counters [] store lines = refl
  after_counters ((j, p) ∷ names) store lines =
      rw
        (append_assoc (map (λ p. subkey_count p.0 p.1) (get_or store p new_counter).subkey_count)
          (print_counters names store) lines)
        (after_subkeys (get_or store p new_counter).subkey_count
            (print_counters names store ++ lines)
          ∙ after_counters names store lines)

module _ {F H : Type 0} (f : Double F) (e : Histogram f H) where
  -- The number of values that the histogram at a place has.
  abbrev pub size_at : Registry H → ℕ → ℕ
  size_at r p = e.size (get_or r.store p e.fresh)

  size-modify :
      (store : List H) (p q : ℕ)
      → e.size (get_or (modify store q e.flush) p e.fresh) ≡ e.size (get_or store p e.fresh)
  size-modify [] p q = refl
  size-modify (h ∷ store) zero zero = e.size-flush h
  size-modify (h ∷ store) (suc p) zero = refl
  size-modify (h ∷ store) zero (suc q) = refl
  size-modify (h ∷ store) (suc p) (suc q) = size-modify store p q

  size_at-flush : (r : Registry H) (p q : ℕ) → size_at (update_at q e.flush r) p ≡ size_at r p
  unfolding update_at
  size_at-flush r p q = size-modify r.store p q

  logged-print_histograms :
      (k : String) (names : Dict ℕ) (r : Registry H) (p : ℕ)
      → lookup k names ≡ some p
      → p < length r.store
      → logged_count k (print_histograms f e names r).0 ≡ some (f.of_int (pos (size_at r p)))
  unfolding print_histograms print_histogram update_at lookup
  logged-print_histograms k [] r p h lt = cc
  logged-print_histograms k ((j, q) ∷ names) r p h lt = elim (Bool-cases (str_eq j k)) [
    | inl y ↦
        let same : q ≡ p = ground (arith, h, y) in
        rw y (
          ap some (
            ap (λ x. (e.estimate_quantiles (k_quantiles f) x).count)
              (get_or-modify_self r.store q e.flush e.fresh (rw same lt))
            ∙ e.count-flush (k_quantiles f) (get_or r.store q e.fresh)
            ∙ ap (λ n. f.of_int (pos (size_at r n))) same))
    | inr y ↦
        let r' : Registry H = update_at q e.flush r in
        let est = e.estimate_quantiles (k_quantiles f) (get_or r'.store q e.fresh) in
        let elsewhere : lookup k names ≡ some p = ground (arith, h, y) in
        rw y (
          after_quantiles k f est.quantiles (print_histograms f e names r').0
          ∙ logged-print_histograms k names r' p elsewhere (rw (length-modify r.store q e.flush) lt)
          ∙ ap (λ n. some (f.of_int (pos n))) (size_at-flush r p q))
  ]

  pub logged-print :
      (k : String) (z : StatisticsManager H) (p : ℕ)
      → lookup k z.histo_map.names ≡ some p
      → p < length z.histo_map.store
      → logged_count k (print f e z).0 ≡ some (f.of_int (pos (size_at z.histo_map p)))
  unfolding print
  logged-print k z p h lt =
      after_counters k z.count_map.names z.count_map.store _
      ∙ logged-print_histograms k z.histo_map.names z.histo_map p h lt

  -- What print() leaves: the flushes change no size.
  record IsFlushed (r r' : Registry H) : Type 0 where
    names : r'.names ≡ r.names
    places : length r'.store ≡ length r.store
    sizes : (p : ℕ) → size_at r' p ≡ size_at r p

  print_histograms-IsFlushed :
      (names : Dict ℕ) (r : Registry H) → IsFlushed r (print_histograms f e names r).1
  unfolding print_histograms update_at
  print_histograms-IsFlushed [] r = record { names = refl; places = refl; sizes = λ p. refl }
  print_histograms-IsFlushed ((k, q) ∷ names) r =
      let rest = print_histograms-IsFlushed names (update_at q e.flush r) in
      record {
        names = rest.names;
        places = rest.places ∙ length-modify r.store q e.flush;
        sizes = λ p. rest.sizes p ∙ size_at-flush r p q;
      }

  pub print_twice :
      (k : String) (z : StatisticsManager H) (p : ℕ)
      → lookup k z.histo_map.names ≡ some p
      → p < length z.histo_map.store
      → logged_count k (print f e (print f e z).1).0 ≡ logged_count k (print f e z).0
  unfolding print
  print_twice k z p h lt =
      let flushed = print_histograms-IsFlushed z.histo_map.names z.histo_map in
      logged-print k (print f e z).1 p (ap (λ (m : Dict ℕ). lookup k m) flushed.names ∙ h)
        (rw flushed.places lt)
      ∙ ap (λ n. some (f.of_int (pos n))) (flushed.sizes p)
      ∙ sym (logged-print k z p h lt)
