-- ===== src/Scheduler/Growth.antt =====
-- The queues only grow: what is on a queue stays there, in its place.
use treadmill.Prelude.{
  ℕ, zero, suc, ◌≡◌, refl, sym, inl, inr, Bool, List, [], ◌∷◌, ◌++◌, map, modify, get_or, subst,
  arith,
}
use mathlib.Core.List.{append-nil}
use treadmill.Double.{Double}
use treadmill.Event.{Dynamic, Event, EventType, bare}
use treadmill.Result.{ok, >>=-eq-ok}
use treadmill.Scheduler.{Scheduler, message_all_workers, run}
use treadmill.Scheduler.Loop.{Pc, Input, loop_step, begin_round, put_request}
use treadmill.Scheduler.Calls.{AddsSetting, perform-IsCall}
use treadmill.Scheduler.RoundRobin.{queue}
use treadmill.Scheduler.System.{Action, starts, steps, calls, System, act, start, perform}

module _ {D : Type 0} where
  -- Queue `i` of `t` is that of `s` with messages behind it.
  abbrev pub Grows : Scheduler D → Scheduler D → Type 0
  Grows s t = (i : ℕ) → (extra : List (Event D)) × (queue t i ≡ queue s i ++ extra)

  pub Grows-refl : (s : Scheduler D) → Grows s s
  Grows-refl s i = ([], sym (append-nil (queue s i)))

  Grows-eq : (s t : Scheduler D) → t.queues ≡ s.queues → Grows s t
  Grows-eq s t e i = ([], rw (e, append-nil) refl)

  more_in_all :
      (e : Event D) (qs : List (List (Event D))) (i : ℕ)
      → (extra : List (Event D)) × (get_or (map (λ q. q ++ e ∷ []) qs) i []
          ≡ get_or qs i [] ++ extra)
  more_in_all e [] i = ([], refl)
  more_in_all e (q ∷ qs) zero = (e ∷ [], refl)
  more_in_all e (q ∷ qs) (suc i) = more_in_all e qs i

  more_in_one :
      (e : Event D) (qs : List (List (Event D))) (n i : ℕ)
      → (extra : List (Event D)) × (get_or (modify qs n (λ q. q ++ e ∷ [])) i []
          ≡ get_or qs i [] ++ extra)
  more_in_one e [] n i = ([], refl)
  more_in_one e (q ∷ qs) zero zero = (e ∷ [], refl)
  more_in_one e (q ∷ qs) (suc n) zero = ([], sym (append-nil q))
  more_in_one e (q ∷ qs) zero (suc i) = ([], sym (append-nil (get_or qs i [])))
  more_in_one e (q ∷ qs) (suc n) (suc i) = more_in_one e qs n i

  Grows-message_all_workers : (e : Event D) (s : Scheduler D) → Grows s (message_all_workers e s)
  unfolding message_all_workers
  Grows-message_all_workers e s = more_in_all e s.queues

  Grows-AddsSetting : (s t : Scheduler D) → AddsSetting s t → Grows s t
  Grows-AddsSetting s t (inl e) i = Grows-eq s t e i
  Grows-AddsSetting s t (inr (e, setting, q)) i = rw q (more_in_all e s.queues i)

  start-queues :
      (pc : Pc) (s : Scheduler D) (z : System D) → start pc s ≡ ok z → z.scheduler.queues ≡ s.queues
  unfolding start run
  start-queues Pc.idle s z e = ground arith
  start-queues _ s z e = cc

module _ {D F : Type 0} ⦃d : Dynamic D⦄ ⦃f : Double F⦄ where
  pub loop_step-Grows : (i : Input F) (s : Scheduler D) (pc : Pc) → Grows s (loop_step i s pc).0
  unfolding loop_step begin_round put_request
  loop_step-Grows i s Pc.begin = Grows-message_all_workers (bare EventType.reset) s
  loop_step-Grows i s (Pc.put l) = more_in_one (bare EventType.send_request) s.queues s.next
  loop_step-Grows i s Pc.finish = Grows-message_all_workers (bare EventType.stop) s
  loop_step-Grows i s _ = Grows-refl s

  -- A step of the thread or a call of another thread leaves on every queue what was there.
  pub act-Grows :
      (w : Bool) (a : Action F) (y z : System D) → act w a y ≡ ok z → Grows y.scheduler z.scheduler
  unfolding act
  act-Grows w starts y z e = Grows-eq y.scheduler z.scheduler (start-queues y.pc y.scheduler z e)
  act-Grows w (steps i) y z e =
      let same : (loop_step i y.scheduler y.pc).0 ≡ z.scheduler = ground arith in
      subst (Grows y.scheduler) same (loop_step-Grows i y.scheduler y.pc)
  act-Grows w (calls c) y z e =
      let (t, p, q) =
        >>=-eq-ok (perform w c y.scheduler) (λ s. ok (record y { scheduler = s })) e in
      let same : t ≡ z.scheduler = ground arith in
      Grows-AddsSetting y.scheduler z.scheduler
        (subst (AddsSetting y.scheduler) same (perform-IsCall w c y.scheduler t p).adds)
