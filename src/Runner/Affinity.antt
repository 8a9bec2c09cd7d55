-- ===== src/Runner/Affinity.antt =====
-- The CPUs that the workers are pinned to.
use treadmill.Prelude.{
  ℕ, zero, suc, ◌≡◌, refl, ap, Bool-cases, is_empty, String, Option, none, some, List, [], ◌∷◌,
  length, inl, inr, arith, All, ◌⊎◌, replicate, if◌then◌else◌, map, length-replicate, length-map,
  sym, ◌∙◌,
}
use treadmill.Prelude.Int.{ℤ, pos, ◌≤ℤ◌, ◌<ℤ◌}
use treadmill.Result.{Result, ok, fatal}
use treadmill.Runner.{RunnerFlags, pin, cpus, read_affinity}

-- A core of the machine, or -1 for a worker that is not pinned.
abbrev pub IsCore : ℕ → ℤ → Type 0
IsCore cores cpu = (cpu ≡ ℤ.negsuc 0) ⊎ (pos 0 ≤ℤ cpu × (cpu <ℤ pos cores))

module _ (split : String → List String) (to_int : String → Option ℤ) (cores : ℕ) where
  pin-eq-ok :
      (found : Option ℤ) (rest : Result (List ℤ)) (list : List ℤ)
      → pin cores found rest ≡ ok list
      → (cpu : ℤ) × (others : List ℤ) × (found ≡ some cpu)
        × (rest ≡ ok others)
        × IsCore cores cpu
        × (cpu ∷ others ≡ list)
  unfolding pin
  pin-eq-ok none rest list e = cc
  pin-eq-ok (some cpu) (fatal fault) list e = ground arith
  pin-eq-ok (some cpu) (ok others) list e =
      (cpu, others, refl, refl, inr (ground arith, ground arith), ground arith)

  cpus-All :
      (texts : List String) (list : List ℤ)
      → cpus to_int cores texts ≡ ok list
      → (map to_int texts ≡ map some list) × All (IsCore cores) list
  unfolding cpus
  cpus-All [] [] e = (refl, tt)
  cpus-All [] (c ∷ cs) e = cc
  cpus-All (text ∷ texts) list e =
      let (cpu, others, found, rest, core, eq) =
        pin-eq-ok (to_int text) (cpus to_int cores texts) list e in
      let (ids, all) = cpus-All texts others rest in rw (← eq) (rw (found, ids) refl, (core, all))

  unpinned-All : (n : ℕ) → All (IsCore cores) (replicate n (ℤ.negsuc 0))
  unpinned-All zero = tt
  unpinned-All (suc n) = (inl refl, unpinned-All n)

  -- If the flag is read without an error, the list has one CPU for each worker, each of them -1 or
  -- a core of the machine; and where a flag is given, worker i is pinned to the ID that stands at
  -- place i of it, where none is given no worker is pinned.
  pub read_affinity-All :
      (flags : RunnerFlags) (list : List ℤ)
      → read_affinity split to_int cores flags (replicate flags.number_of_workers (ℤ.negsuc 0))
        ≡ ok list
      → (length list ≡ flags.number_of_workers)
        × All (IsCore cores) list
        × (map some list ≡ (
            if is_empty flags.cpu_affinity
            then map some (replicate flags.number_of_workers (ℤ.negsuc 0))
            else map to_int (split flags.cpu_affinity)))
  unfolding read_affinity
  read_affinity-All flags list e = elim (Bool-cases (is_empty flags.cpu_affinity)) [
    | inl none_given ↦
        let same : replicate flags.number_of_workers (ℤ.negsuc 0) ≡ list =
          ground (arith, e, none_given) in
        rw none_given (
          rw (← same) (
            length-replicate flags.number_of_workers (ℤ.negsuc 0),
            unpinned-All flags.number_of_workers,
            refl,
          ))
    | inr given ↦
        let texts = split flags.cpu_affinity in
        let enough : length texts ≡ flags.number_of_workers = ground (arith, e, given) in
        let read : cpus to_int cores texts ≡ ok list = ground (arith, e, given) in
        let (ids, all) = cpus-All texts list read in
        rw given (
          sym (length-map list some) ∙ ap length (sym ids) ∙ length-map texts to_int ∙ enough,
          all,
          sym ids,
        )
  ]
