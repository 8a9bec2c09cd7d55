-- ===== src/Scheduler/Calls.antt =====
-- What the methods that other threads call leave alone, and what they may put on the queues.
use treadmill.Prelude.{
  ◌≡◌, refl, ◌⊎◌, inl, inr, Bool, Bool-cases, true, false, String, [], ◌∷◌, ◌++◌, map, arith,
}
use treadmill.Event.{Dynamic, Event, EventType}
use treadmill.Result.{ok}
use treadmill.Scheduler.{
  Scheduler, is_paused, set_phase, message_all_workers, set_max_outstanding_requests,
}
use treadmill.Scheduler.System.{Call, sets_phase, sets_max_outstanding, perform}

abbrev pub IsSetting : EventType → Type 0
IsSetting EventType.set_phase = Unit
IsSetting EventType.set_max_outstanding = Unit
IsSetting _ = ⊥

-- The queues keep their messages, and get at most one message each, which is a setting.
abbrev pub AddsSetting : {D : Type 0} → Scheduler D → Scheduler D → Type 0
AddsSetting {D} s t =
    (t.queues ≡ s.queues)
    ⊎ ((e : Event D) × IsSetting e.event_type × (t.queues ≡ map (λ q. q ++ e ∷ []) s.queues))

pub record IsCall {D : Type 0} (s t : Scheduler D) : Type 0 where
  pub adds : AddsSetting s t
  pub next : t.next ≡ s.next
  pub logged : t.logged ≡ s.logged
  pub logging_threshold : t.logging_threshold ≡ s.logging_threshold
  pub promise : t.promise ≡ s.promise
  pub thread : t.thread ≡ s.thread

sends-IsCall :
    {D : Type 0} (e : Event D) (s t : Scheduler D)
    → IsSetting e.event_type
    → t.queues ≡ map (λ q. q ++ e ∷ []) s.queues
    → t.next ≡ s.next
    → t.logged ≡ s.logged
    → t.logging_threshold ≡ s.logging_threshold
    → t.promise ≡ s.promise
    → t.thread ≡ s.thread
    → IsCall s t
sends-IsCall e s t setting q n l h p r = record {
  adds = inr (e, setting, q);
  next = n;
  logged = l;
  logging_threshold = h;
  promise = p;
  thread = r;
}

module _ {D : Type 0} ⦃d : Dynamic D⦄ where
  set_phase-eq :
      (w : Bool) (p : String) (s t : Scheduler D)
      → set_phase w p s ≡ ok t
      → t
        ≡ message_all_workers
            (record { event_type = EventType.set_phase; extra_data = d.of_string p })
            s
  unfolding set_phase
  set_phase-eq true p s t e = elim (Bool-cases (is_paused s.state)) [
    | inl b ↦ ground arith
    | inr b ↦ ground arith
  ]
  set_phase-eq false p s t e = ground arith

  pub perform-IsCall : (w : Bool) (c : Call) (s t : Scheduler D) → perform w c s ≡ ok t → IsCall s t
  unfolding perform
  perform-IsCall w (sets_phase p) s t e =
      rw (set_phase-eq w p s t e)
        (sends-IsCall _ s (message_all_workers _ s) tt refl refl refl refl refl refl)
  perform-IsCall w (sets_max_outstanding m) s t e =
      let t_is : t ≡ set_max_outstanding_requests m s = ground arith in
      rw t_is (sends-IsCall _ s (set_max_outstanding_requests m s) tt refl refl refl refl refl refl)
  perform-IsCall w _ s t e = ground arith
