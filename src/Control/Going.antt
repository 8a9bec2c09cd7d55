-- ===== src/Control/Going.antt =====
-- No client of the control service can end a run.
use treadmill.Prelude.{ℕ, ◌≡◌, refl, subst, ◌||◌, Bool, false, String, Option, List, [], ◌∷◌, arith}
use treadmill.Prelude.Int.{ℤ}
use treadmill.Double.{Double}
use treadmill.Event.{Dynamic}
use treadmill.Result.{ok, ok-injective, >>=-eq-ok}
use treadmill.Scheduler.{pause, resume, set_phase, set_rps, set_max_outstanding_requests}
use treadmill.Scheduler.Loop.{Pc}
use treadmill.Scheduler.System.{act}
use treadmill.Scheduler.Going.{is_stop_action, IsGoing, act-IsGoing}
use treadmill.Control.{
  Control, Flags, watchdog_update, pause_run, resume_run, resume_phase, set_run_rps,
  set_max_outstanding, get_configuration, set_configuration, clear_configuration,
}
use treadmill.Control.Requests.{
  Request, pauses, Occurrence, arrives, acts, Service, system_of, handle, occur, occur_all,
}

abbrev pub stops_in : {F : Type 0} → List (Occurrence F) → Bool
stops_in [] = false
stops_in (arrives now r ∷ os) = stops_in os
stops_in (acts a ∷ os) = is_stop_action a || stops_in os

module _ {D : Type 0} ⦃d : Dynamic D⦄ (promise : Bool) where
  handle-IsGoing :
      {S : Type 0} (try_to_uint32 : String → Option ℕ) (flags : Flags) (now : ℤ) (r : Request)
      (pc : Pc) (c c' : Control D S)
      → handle try_to_uint32 flags now r c ≡ ok c'
      → IsGoing promise (record { scheduler = c.scheduler; pc = pc })
      → IsGoing promise (record { scheduler = c'.scheduler; pc = pc })
  unfolding handle watchdog_update pause_run resume_run resume_phase set_run_rps set_max_outstanding
      get_configuration set_configuration clear_configuration pause resume set_phase set_rps
      set_max_outstanding_requests
  handle-IsGoing try_to_uint32 flags now pauses pc c c' e g = ground arith
  handle-IsGoing try_to_uint32 flags now _ pc c c' e g = ground arith

module _ {D F S : Type 0} ⦃d : Dynamic D⦄ ⦃f : Double F⦄ (try_to_uint32 : String → Option ℕ)
    (flags : Flags) where
  occur-IsGoing :
      (promise : Bool) (o : Occurrence F) (y z : Service D S)
      → stops_in (o ∷ []) ≡ false
      → occur try_to_uint32 flags o y ≡ ok z
      → IsGoing promise (system_of y)
      → IsGoing promise (system_of z)
  unfolding occur
  occur-IsGoing promise (arrives now r) y z n e g =
      let (c, p, q) = >>=-eq-ok (handle try_to_uint32 flags now r y.control) _ e in
      subst (λ x. IsGoing promise (system_of x)) (ok-injective q)
        (handle-IsGoing promise try_to_uint32 flags now r y.pc y.control c p g)
  occur-IsGoing promise (acts a) y z n e g =
      let (s, p, q) = >>=-eq-ok (act flags.wait_for_runner_ready a (system_of y)) _ e in
      subst (λ x. IsGoing promise (system_of x)) (ok-injective q)
        (act-IsGoing promise flags.wait_for_runner_ready a (system_of y) s (ground arith) p g)

  -- Whatever requests clients make, in any number and at any times: a scheduler that is not STOPPING
  -- stays so, its thread does not come to the end of its loop, and its promise stays as it is,
  -- unless the rest of the process calls stop().
  pub occur_all-IsGoing :
      (promise : Bool) (os : List (Occurrence F)) (y z : Service D S)
      → stops_in os ≡ false
      → occur_all try_to_uint32 flags os y ≡ ok z
      → IsGoing promise (system_of y)
      → IsGoing promise (system_of z)
  unfolding occur_all
  occur_all-IsGoing promise [] y z n e g =
      subst (λ x. IsGoing promise (system_of x)) (ok-injective e) g
  occur_all-IsGoing promise (o ∷ os) y z n e g =
      let (x, p, q) =
        >>=-eq-ok (occur try_to_uint32 flags o y) (occur_all try_to_uint32 flags os) e in
      occur_all-IsGoing promise os x z (rest o os n) q
        (occur-IsGoing promise o y x (first o os n) p g)
    where
      first :
          (o : Occurrence F) (os : List (Occurrence F))
          → stops_in (o ∷ os) ≡ false
          → stops_in (o ∷ []) ≡ false
      first (arrives now r) os n = refl
      first (acts a) os n = ground arith

      rest :
          (o : Occurrence F) (os : List (Occurrence F))
          → stops_in (o ∷ os) ≡ false
          → stops_in os ≡ false
      rest (arrives now r) os n = n
      rest (acts a) os n = ground arith
