-- ===== src/Control/Clients.antt =====
-- What clients of the control service make of the scheduler: the calls that their requests stand
-- for, written down without the service.
use treadmill.Prelude.{
  ℕ, ◌≡◌, refl, sym, ap, ◌∙◌, subst, ◌&&◌, not, Bool, Bool-cases, true, false, inl, inr, String,
  Option, List, [], ◌∷◌, ◌++◌, map, arith, if◌then◌else◌,
}
use treadmill.Prelude.Int.{ℤ}
use treadmill.Prelude.Dict.{Dict, insert}
use treadmill.Double.{Double}
use treadmill.Event.{Dynamic}
use treadmill.Result.{ok, ok-injective, ◌>>=◌, >>=-eq-ok, Result-cases}
use treadmill.Scheduler.{set_phase}
use treadmill.Scheduler.Loop.{Pc}
use treadmill.Scheduler.System.{Call, Action, System, calls, act, run_all, perform}
use treadmill.Control.{
  Control, Flags, is_nil, watchdog_update, or_else, pause_run, resume_run, resume_phase,
  set_run_rps, set_max_outstanding, get_configuration, set_configuration, clear_configuration,
}
use treadmill.Control.Requests.{
  Request, pauses, resumes, resumes_to, sets_rps, sets_max_outstanding, reads_rate,
  reads_configuration, sets_configuration, clears_configuration, Occurrence, arrives, acts, Service,
  system_of, handle, occur, occur_all,
}

abbrev pub is_configured : {D S : Type 0} → Control D S → Bool
is_configured c = not (is_nil c.configuration)

-- The calls of the scheduler that a request stands for, as there is a configuration or not.
abbrev pub calls_for : Flags → Bool → Request → List Call
calls_for flags configured pauses = Call.pauses ∷ []
calls_for flags configured resumes =
    if flags.require_configuration_on_resume && not configured then [] else Call.resumes ∷ []
calls_for flags configured (resumes_to phase) =
    Call.sets_phase (or_else phase "UNKNOWN_PHASE") ∷ Call.resumes ∷ []
calls_for flags configured (sets_rps rps) = Call.sets_rps rps ∷ []
calls_for flags configured (sets_max_outstanding m) = Call.sets_max_outstanding m ∷ []
calls_for flags configured _ = []

-- If there is a configuration after a request.
abbrev pub configured_by : Request → Bool → Bool
configured_by (sets_configuration key value) configured = true
configured_by clears_configuration configured = false
configured_by _ configured = configured

-- A history of the service as one of the scheduler alone.
abbrev pub actions_for : {F : Type 0} → Flags → Bool → List (Occurrence F) → List (Action F)
actions_for flags configured [] = []
actions_for flags configured (arrives now r ∷ os) =
    map calls (calls_for flags configured r) ++ actions_for flags (configured_by r configured) os
actions_for flags configured (acts a ∷ os) = a ∷ actions_for flags configured os

is_nil-insert : (key value : String) (m : Dict String) → is_nil (insert key value m) ≡ false
unfolding insert
is_nil-insert key value [] = refl
is_nil-insert key value ((j, w) ∷ m) = ground arith

module _ {D S : Type 0} (flags : Flags) (now : ℤ) where
  watchdog_update-scheduler :
      (c : Control D S) → (watchdog_update flags now c).scheduler ≡ c.scheduler
  unfolding watchdog_update
  watchdog_update-scheduler c = ground arith

  watchdog_update-configuration :
      (c : Control D S) → (watchdog_update flags now c).configuration ≡ c.configuration
  unfolding watchdog_update
  watchdog_update-configuration c = ground arith

module _ {D S : Type 0} ⦃d : Dynamic D⦄ (try_to_uint32 : String → Option ℕ) (flags : Flags)
    (now : ℤ) where
  set_configuration-scheduler :
      (key value : String) (c : Control D S)
      → (set_configuration try_to_uint32 flags now key value c).scheduler ≡ c.scheduler
  unfolding set_configuration watchdog_update
  set_configuration-scheduler key value c = ground arith

  set_configuration-is_configured :
      (key value : String) (c : Control D S)
      → is_configured (set_configuration try_to_uint32 flags now key value c) ≡ true
  unfolding set_configuration
  set_configuration-is_configured key value c =
      let full = is_nil-insert key value (watchdog_update flags now c).configuration in ground arith

  handle-is_configured :
      (r : Request) (c c' : Control D S)
      → handle try_to_uint32 flags now r c ≡ ok c'
      → is_configured c' ≡ configured_by r (is_configured c)
  unfolding handle pause_run resume_run resume_phase set_run_rps set_max_outstanding
      get_configuration clear_configuration
  handle-is_configured pauses c c' e = ground arith
  handle-is_configured reads_rate c c' e = ground arith
  handle-is_configured (sets_configuration key value) c c' e =
      let full = set_configuration-is_configured key value c in
      subst (λ (x : Control D S). is_configured x ≡ true) (ok-injective e) full
  handle-is_configured clears_configuration c c' e =
      subst (λ (x : Control D S). is_configured x ≡ false) (ok-injective e) refl
  handle-is_configured (resumes_to phase) c c' e =
      let kept = watchdog_update-configuration flags now c in
      let ((c₁, running), p, q) = >>=-eq-ok (resume_phase flags now phase c) _ e in
      let (s, p', q') =
        >>=-eq-ok
          (set_phase flags.wait_for_runner_ready (or_else phase "UNKNOWN_PHASE")
            (watchdog_update flags now c).scheduler)
          _ p in
      subst (λ (x : Control D S). is_configured x ≡ is_configured c)
        (ap (λ (x : Control D S × Bool). x.0) (ok-injective q') ∙ ok-injective q)
        (ap (λ m. not (is_nil m)) kept)
  handle-is_configured _ c c' e =
      let kept = watchdog_update-configuration flags now c in ground arith

  -- What the scheduler is after a request is served, or how the process ended.
  handle-calls :
      (F : Type 0) ⦃f : Double F⦄ (r : Request) (pc : Pc) (c : Control D S)
      → run_all {F = F} flags.wait_for_runner_ready
          (map calls (calls_for flags (is_configured c) r))
          (record { scheduler = c.scheduler; pc = pc })
        ≡ (handle try_to_uint32 flags now r c
            >>= (λ c'. ok (record { scheduler = c'.scheduler; pc = pc })))
  unfolding run_all act perform handle pause_run resume_run resume_phase set_run_rps
      set_max_outstanding get_configuration clear_configuration
  handle-calls F pauses pc c = refl
  handle-calls F resumes pc c =
      rw (watchdog_update-scheduler flags now c, watchdog_update-configuration flags now c)
        (elim (Bool-cases flags.require_configuration_on_resume) [
          | inr e ↦ rw e refl
          | inl e ↦ elim (Bool-cases (is_nil c.configuration)) [
            | inl n ↦ rw (e, n) refl
            | inr n ↦ rw (e, n) refl
          ]
        ])
  handle-calls F (resumes_to phase) pc c =
      let name = or_else phase "UNKNOWN_PHASE" in
      rw (watchdog_update-scheduler flags now c)
        (elim (Result-cases (set_phase flags.wait_for_runner_ready name c.scheduler)) [
          | inl (s, e) ↦ rw e refl
          | inr (fault, e) ↦ rw e refl
        ])
  handle-calls F (sets_rps rps) pc c = rw (watchdog_update-scheduler flags now c) refl
  handle-calls F (sets_max_outstanding m) pc c = rw (watchdog_update-scheduler flags now c) refl
  handle-calls F reads_rate pc c = refl
  handle-calls F (reads_configuration key) pc c = rw (watchdog_update-scheduler flags now c) refl
  handle-calls F (sets_configuration key value) pc c =
      rw (set_configuration-scheduler key value c) refl
  handle-calls F clears_configuration pc c = rw (watchdog_update-scheduler flags now c) refl

module _ {D F : Type 0} ⦃d : Dynamic D⦄ ⦃f : Double F⦄ where
  run_all-append :
      (b : Bool) (as' bs : List (Action F)) (y : System D)
      → run_all b (as' ++ bs) y ≡ (run_all b as' y >>= run_all b bs)
  unfolding run_all
  run_all-append b [] bs y = refl
  run_all-append b (a ∷ as') bs y = elim (Result-cases (act b a y)) [
    | inr (fault, e) ↦ rw e refl
    | inl (x, e) ↦ rw e (run_all-append b as' bs x)
  ]

module _ {D S F : Type 0} ⦃d : Dynamic D⦄ ⦃f : Double F⦄ (try_to_uint32 : String → Option ℕ)
    (flags : Flags) where
  -- Whatever clients ask of the service between the steps of the scheduler's thread: the scheduler
  -- and its thread are where the calls of the scheduler for which the requests stand would have
  -- brought them, in their order, or the process has ended at the same fault. pause() stands for
  -- pause(), resume() for resume(), or for nothing if the flag asks for a configuration and the
  -- requests so far have left none; resume2() for setPhase() and resume(), setRps() and
  -- setMaxOutstanding() for their calls, and the others for nothing.
  pub occur_all-calls :
      (os : List (Occurrence F)) (y : Service D S)
      → run_all flags.wait_for_runner_ready
          (actions_for flags (is_configured y.control) os)
          (system_of y)
        ≡ (occur_all try_to_uint32 flags os y >>= (λ z. ok (system_of z)))
  unfolding run_all occur_all occur
  occur_all-calls [] y = refl
  occur_all-calls (acts a ∷ os) y =
      elim (Result-cases (act flags.wait_for_runner_ready a (system_of y))) [
        | inr (fault, e) ↦ rw e refl
        | inl (s, e) ↦ rw e (
            occur_all-calls os
              (record { control = record y.control { scheduler = s.scheduler }; pc = s.pc }))
      ]
  occur_all-calls (arrives now r ∷ os) y =
      let b = flags.wait_for_runner_ready in
      let before = is_configured y.control in
      let later : Bool → List (Action F) = λ g. actions_for flags g os in
      run_all-append b (map calls (calls_for flags before r)) (later (configured_by r before))
        (system_of y)
      ∙ ap (λ m. m >>= run_all b (later (configured_by r before)))
          (handle-calls try_to_uint32 flags now F r y.pc y.control)
      ∙ elim (Result-cases (handle try_to_uint32 flags now r y.control)) [
        | inr (fault, e) ↦ rw e refl
        | inl (c, e) ↦
            rw (e, sym (handle-is_configured try_to_uint32 flags now r y.control c e))
              (occur_all-calls os (record y { control = c }))
      ]
