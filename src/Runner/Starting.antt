-- ===== src/Runner/Starting.antt =====
-- The start of the workers.
use treadmill.Prelude.{ℕ, suc, ◌≡◌, sym, ◌∙◌, Bool, Option, none, some, List, [], ◌∷◌, map, arith}
use treadmill.Result.{Result, ok, >>=-eq-ok, ◌>>=◌}
use treadmill.Worker.{Worker, set_off}
use treadmill.Worker.Handlers.{TargetFlags, run}
use treadmill.Worker.Starting.{run_lem}
use treadmill.Runner.{run_workers}

module _ {W : Type 0} (flags : TargetFlags) where
  run-set_off :
      (answers : List Bool) (w w' : Worker W) → run flags answers w ≡ ok (some w') → set_off w ≡ w'
  run-set_off answers w w' e = ground (arith, sym (run_lem flags answers w) ∙ e)

  -- If every call of run() returns, every worker has been started, in its place, and is otherwise
  -- as it was: none is left out.
  pub run_workers-map :
      (answers : ℕ → List Bool) (i : ℕ) (ws started : List (Worker W))
      → run_workers flags answers i ws ≡ ok (some started)
      → started ≡ map set_off ws
  unfolding run_workers
  run_workers-map answers i [] started e = ground arith
  run_workers-map answers i (w ∷ ws) started e =
      let (o, p, q) = >>=-eq-ok (run flags (answers i) w) _ e in
      first (λ ws' h. run_workers-map answers (suc i) ws ws' h) o p q
    where
      Rest : Type 0
      Rest =
          (ws' : List (Worker W))
          → run_workers flags answers (suc i) ws ≡ ok (some ws')
          → ws' ≡ map set_off ws

      last :
          Rest
          → (w' : Worker W) (others : Option (List (Worker W)))
          → run_workers flags answers (suc i) ws ≡ ok others
          → Result.ok (elim others [ none ↦ none | some ws' ↦ some (w' ∷ ws') ]) ≡ ok (some started)
          → set_off w ≡ w'
          → started ≡ map set_off (w ∷ ws)
      last ih w' none p q h = cc
      last ih w' (some ws') p q h = let rest = ih ws' p in ground (arith, q, h, rest)

      first :
          Rest
          → (o : Option (Worker W)) → run flags (answers i) w ≡ ok o
          → elim o [
            | none ↦ ok none
            | some w' ↦
                run_workers flags answers (suc i) ws
                >>= (λ others. ok (elim others [ none ↦ none | some ws' ↦ some (w' ∷ ws') ]))
          ]
            ≡ ok (some started)
          → started ≡ map set_off (w ∷ ws)
      first ih none p q = cc
      first ih (some w') p q =
          let (others, p', q') = >>=-eq-ok (run_workers flags answers (suc i) ws) _ q in
          last ih w' others p' q' (run-set_off (answers i) w w' p)
