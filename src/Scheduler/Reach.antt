-- ===== src/Scheduler/Reach.antt =====
-- What histories of the scheduler's thread and its callers lead to.
use treadmill.Prelude.{◌≡◌, refl, sym, ap, ◌∙◌, subst, Bool, List, [], ◌∷◌}
use treadmill.Double.{Double}
use treadmill.Event.{Dynamic}
use treadmill.Result.{ok, ok-injective, ◌>>=◌, >>=-eq-ok}
use treadmill.Scheduler.System.{Action, System, act, run_all}

-- A history of the scheduler alone leads from the one to the other.
abbrev pub Reaches :
    {D : Type 0} (F : Type 0) ⦃d : Dynamic D⦄ ⦃f : Double F⦄ → Bool → System D → System D → Type 0
Reaches F b y z = (as' : List (Action F)) × (run_all b as' y ≡ ok z)

module _ {D F : Type 0} ⦃d : Dynamic D⦄ ⦃f : Double F⦄ where
  pub Reaches-refl : (b : Bool) (y : System D) → Reaches F b y y
  unfolding run_all
  Reaches-refl b y = ([], refl)

  pub Reaches-step : (b : Bool) (a : Action F) (y z : System D) → act b a y ≡ ok z → Reaches F b y z
  unfolding run_all
  Reaches-step b a y z e = (a ∷ [], rw e refl)

  pub Reaches-trans :
      (b : Bool) (as' : List (Action F)) (x y z : System D)
      → run_all b as' x ≡ ok y
      → Reaches F b y z
      → Reaches F b x z
  unfolding run_all
  Reaches-trans b [] x y z e h = subst (λ w. Reaches F b w z) (sym (ok-injective e)) h
  Reaches-trans b (a ∷ as') x y z e h =
      let (w, p, q) = >>=-eq-ok (act b a x) (run_all b as') e in
      let (more, r) = Reaches-trans b as' w y z q h in
      (a ∷ more, ap (λ m. m >>= run_all b more) p ∙ r)
