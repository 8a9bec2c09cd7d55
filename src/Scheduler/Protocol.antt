-- ===== src/Scheduler/Protocol.antt =====
-- What each worker's queue holds, seen as a protocol: RESET first, requests after it, one STOP
-- last.
use treadmill.Prelude.{
  ◌≡◌, refl, ◌⊎◌, inl, inr, Bool, Bool-cases, ◌==◌, List, [], ◌∷◌, ◌++◌, All, All-map, All-modify,
  All-mono, arith, ℕ, zero, suc, replicate,
}
use treadmill.Prelude.Int.{ℤ, max_ℤ, to_uint32}
use treadmill.Double.{Double}
use treadmill.Event.{Dynamic, Event, EventType, bare}
use treadmill.Result.{ok}
use treadmill.Scheduler.{
  Scheduler, is_running, is_paused, is_stopping, make, run, message_all_workers,
}
use treadmill.Scheduler.Loop.{Pc, Input, loop_step, wait_ns}
use treadmill.Scheduler.Calls.{IsSetting, IsCall, perform-IsCall}
use treadmill.Scheduler.System.{Action, System, idle_system, run_all, run_all_keeps}

pub data Stage : Type 0 where
  fresh : Stage  -- neither RESET nor a request nor STOP so far
  opened : Stage  -- after a RESET
  closed : Stage  -- after the STOP
  broken : Stage

-- Settings may be sent at any time.
abbrev pub advance : Stage → EventType → Stage
advance g EventType.set_phase = g
advance g EventType.set_max_outstanding = g
advance fresh EventType.reset = opened
advance opened EventType.reset = opened
advance opened EventType.send_request = opened
advance opened EventType.stop = closed
advance _ _ = broken

module _ {D : Type 0} where
  abbrev pub stage_from : Stage → List (Event D) → Stage
  stage_from g [] = g
  stage_from g (e ∷ q) = stage_from (advance g e.event_type) q

  abbrev pub stage : List (Event D) → Stage
  stage q = stage_from fresh q

  stage_from-append :
      (g : Stage) (q : List (Event D)) (e : Event D)
      → stage_from g (q ++ e ∷ []) ≡ advance (stage_from g q) e.event_type
  stage_from-append g [] e = refl
  stage_from-append g (x ∷ q) e = stage_from-append (advance g x.event_type) q e

-- The stages that a queue can be in, by where the thread stands.
abbrev pub Allowed : Pc → Stage → Type 0
Allowed Pc.idle g = g ≡ fresh
Allowed Pc.begin g = (g ≡ fresh) ⊎ (g ≡ opened)
Allowed Pc.fulfil g = g ≡ closed
Allowed Pc.done g = g ≡ closed
Allowed _ g = g ≡ opened

abbrev pub FollowsProtocol : {D : Type 0} → Scheduler D → Pc → Type 0
FollowsProtocol s pc = All (λ q. Allowed pc (stage q)) s.queues

module _ {D : Type 0} where
  sends-All :
      (P Q : Stage → Type 0) (e : Event D) (s : Scheduler D)
      → ((g : Stage) → P g → Q (advance g e.event_type))
      → All (λ q. P (stage q)) s.queues
      → All (λ q. Q (stage q)) (message_all_workers e s).queues
  unfolding message_all_workers
  sends-All P Q e s h hs =
      All-map (λ q. P (stage q)) (λ q. Q (stage q)) (λ q. q ++ e ∷ []) s.queues
        (λ q hq. rw (stage_from-append fresh q e) (h (stage q) hq)) hs

module _ {D F : Type 0} ⦃d : Dynamic D⦄ ⦃f : Double F⦄ where
  loop_step-FollowsProtocol :
      (i : Input F) (s : Scheduler D) (pc : Pc)
      → FollowsProtocol s pc
      → FollowsProtocol (loop_step i s pc).0 (loop_step i s pc).1
  unfolding loop_step
  loop_step-FollowsProtocol i s Pc.idle h = h
  loop_step-FollowsProtocol i s Pc.begin h =
      sends-All (Allowed Pc.begin) (λ g. g ≡ opened) (bare EventType.reset) s (λ g hg. ground arith)
        h
  loop_step-FollowsProtocol i s (Pc.put l) h =
      All-modify (λ q. stage q ≡ opened) (λ q. stage q ≡ opened)
        (λ q. q ++ bare EventType.send_request ∷ []) s.queues s.next
        (λ q hq. rw (stage_from-append fresh q (bare EventType.send_request), hq)) (λ q hq. hq) h
  loop_step-FollowsProtocol i s Pc.finish h =
      sends-All (λ g. g ≡ opened) (λ g. g ≡ closed) (bare EventType.stop) s (λ g hg. rw hg) h
  loop_step-FollowsProtocol i s Pc.fulfil h = h
  loop_step-FollowsProtocol i s Pc.done h = h
  loop_step-FollowsProtocol i s (Pc.test_running l) h = elim (Bool-cases (is_running s.state)) [
    | inl e ↦ rw e h
    | inr e ↦ rw e h
  ]
  loop_step-FollowsProtocol i s Pc.test_stopping h = elim (Bool-cases (is_stopping s.state)) [
    | inl e ↦ rw e h
    | inr e ↦ rw e (All-mono _ _ s.queues (λ q hq. inr hq) h)
  ]
  loop_step-FollowsProtocol i s (Pc.send l) h = h
  loop_step-FollowsProtocol i s (Pc.wait_start l) h = h
  loop_step-FollowsProtocol i s (Pc.waiting start l) h =
      elim (Bool-cases (wait_ns start (max_ℤ l.budget (ℤ.pos 0)) i.now)) [
        | inl e ↦ rw e h
        | inr e ↦ rw e h
      ]
  loop_step-FollowsProtocol i s (Pc.test_rps l) h = elim (Bool-cases (to_uint32 l.rps == s.rps)) [
    | inl e ↦ rw e h
    | inr e ↦ rw e h
  ]
  loop_step-FollowsProtocol i s (Pc.reload_rps l) h = h
  loop_step-FollowsProtocol i s Pc.test_paused h = elim (Bool-cases (is_paused s.state)) [
    | inl e ↦ rw e h
    | inr e ↦ rw e h
  ]
  loop_step-FollowsProtocol i s Pc.pause_start h = h
  loop_step-FollowsProtocol i s (Pc.pausing start) h =
      elim (Bool-cases (wait_ns start (ℤ.pos 1000) i.now)) [ inl e ↦ rw e h | inr e ↦ rw e h ]

advance-setting : (g : Stage) (t : EventType) → IsSetting t → advance g t ≡ g
advance-setting g EventType.set_phase h = refl
advance-setting g EventType.set_max_outstanding h = refl
advance-setting g _ h = absurd h

module _ {D : Type 0} where
  IsCall-FollowsProtocol :
      (s t : Scheduler D) (pc : Pc) → IsCall s t → FollowsProtocol s pc → FollowsProtocol t pc
  unfolding message_all_workers
  IsCall-FollowsProtocol s t pc c h = elim c.adds [
    | inl e ↦ rw e h
    | inr (e, setting, added) ↦ rw added (
        sends-All (Allowed pc) (Allowed pc) e s
          (λ g hg. rw (advance-setting g e.event_type setting) hg) h)
  ]

fresh-FollowsProtocol :
    (D : Type 0) (n : ℕ) → All {A = List (Event D)} (λ q. stage q ≡ fresh) (replicate n [])
fresh-FollowsProtocol D zero = tt
fresh-FollowsProtocol D (suc n) = (refl, fresh-FollowsProtocol D n)

module _ {D F : Type 0} ⦃d : Dynamic D⦄ ⦃f : Double F⦄ where
  -- After any history of a scheduler that was just made, every queue holds settings and, apart from
  -- them: nothing before the thread starts; then a RESET before the first request; exactly one STOP
  -- once the thread has sent it, and neither RESET nor a request after it.
  pub run_all-FollowsProtocol :
      (w : Bool) (rps n m l : ℕ) (as' : List (Action F)) (y : System D)
      → run_all w as' (idle_system (make w rps n m l)) ≡ ok y
      → FollowsProtocol y.scheduler y.pc
  unfolding make run
  run_all-FollowsProtocol w rps n m l as' y e =
      run_all_keeps w FollowsProtocol (λ s h. All-mono _ _ s.queues (λ q hq. inl hq) h)
        loop_step-FollowsProtocol
        (λ c s t pc e h. IsCall-FollowsProtocol s t pc (perform-IsCall w c s t e) h) as' _ y e
        (fresh-FollowsProtocol D n)
