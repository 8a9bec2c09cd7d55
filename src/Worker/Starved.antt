-- ===== src/Worker/Starved.antt =====
-- Worker.h: a worker whose limit on outstanding requests is not positive.
use treadmill.Prelude.{
  ◌≡◌, refl, ◌∙◌, Bool, true, false, not, ◌&&◌, List, [], ◌∷◌, All, if-cases, arith,
}
use treadmill.Prelude.Int.{pos, ltb_ℤ}
use treadmill.Double.{Double}
use treadmill.Event.{Dynamic, EventType}
use treadmill.Worker.{Workload, Worker, Effect, find, on_reply, on_uncaught, stop}
use treadmill.Worker.Quiet.{report-IsQuiet}
use treadmill.Worker.Handlers.{Turn, send_request, on_event, message_available}
use treadmill.Worker.Histories.{Happening, receives, replies, escapes, is_stopped, happen, history}

abbrev pub sets_limit : EventType → Bool
sets_limit EventType.set_max_outstanding = true
sets_limit _ = false

-- What happens is not that the limit is set.
abbrev pub keeps_limit : {D R : Type 0} → Happening D R → Bool
keeps_limit (receives i e) = not (sets_limit e.event_type)
keeps_limit _ = true

-- A worker that has sent nothing and may not.
pub record IsStarved {W : Type 0} (w : Worker W) : Type 0 where
  pub sent : w.sent ≡ 0
  pub outstanding : w.outstanding_requests ≡ pos 0
  pub in_flight : w.in_flight ≡ []
  pub limit : ltb_ℤ (pos 0) w.max_outstanding_requests ≡ false

still :
    {W : Type 0} (w w' : Worker W)
    → w'.sent ≡ w.sent
    → w'.outstanding_requests ≡ w.outstanding_requests
    → w'.in_flight ≡ w.in_flight
    → w'.max_outstanding_requests ≡ w.max_outstanding_requests
    → IsStarved w
    → IsStarved w'
still w w' s o n l h = record {
  sent = s ∙ h.sent;
  outstanding = o ∙ h.outstanding;
  in_flight = n ∙ h.in_flight;
  limit = rw l h.limit;
}

module _ {D F W Q R : Type 0} (d : Dynamic D) (f : Double F) (k : Workload D W Q) where
  send_request-IsStarved :
      (i : Turn R) (w : Worker W) → IsStarved w → IsStarved (send_request f k i w).0
  unfolding send_request
  send_request-IsStarved i w h =
      let blocked : (ltb_ℤ w.outstanding_requests w.max_outstanding_requests && w.running) ≡ false =
        rw (h.outstanding, h.limit) refl in
      let q = report-IsQuiet Q R f i.now w in
      rw (blocked, send_request)
        (record {
          sent = q.sent ∙ h.sent;
          outstanding = q.outstanding_requests ∙ h.outstanding;
          in_flight = q.in_flight ∙ h.in_flight;
          limit = rw q.max_outstanding_requests h.limit;
        })

  on_event-IsStarved :
      (i : Turn R) (t : EventType) (x : D) (w : Worker W)
      → not (sets_limit t) ≡ true
      → IsStarved w
      → IsStarved (on_event f k d i t x w).0
  unfolding on_event
  on_event-IsStarved i EventType.stop x w n h = still w _ refl refl refl refl h
  on_event-IsStarved i EventType.reset x w n h = still w _ refl refl refl refl h
  on_event-IsStarved i EventType.send_request x w n h = send_request-IsStarved i w h
  on_event-IsStarved i EventType.set_max_outstanding x w n h = cc
  on_event-IsStarved i EventType.set_phase x w n h =
      still w _ (ground arith) (ground arith) (ground arith) (ground arith) h

  happen-IsStarved :
      (a : Happening D R) (w : Worker W)
      → keeps_limit a ≡ true
      → IsStarved w
      → IsStarved (happen d f k a w).0
  unfolding happen message_available on_reply find on_uncaught stop
  happen-IsStarved (receives i e) w n h =
      if-cases (λ (m : Worker W × List (Effect F Q R)). IsStarved m.0) w.running
        (λ r. on_event-IsStarved i e.event_type e.extra_data w n h)
        (λ r. still w _ refl refl refl refl h)
  happen-IsStarved (replies j recv_time t) w n h = rw (h.in_flight, on_reply, find) h
  happen-IsStarved (escapes c) w n h = still w _ refl refl refl refl h
  happen-IsStarved is_stopped w n h = still w _ refl refl refl refl h

  pub history-IsStarved :
      (hs : List (Happening D R)) (w : Worker W)
      → All (λ h. keeps_limit h ≡ true) hs
      → IsStarved w
      → IsStarved (history d f k hs w).0
  unfolding history
  history-IsStarved [] w n h = h
  history-IsStarved (a ∷ hs) w n h =
      history-IsStarved hs (happen d f k a w).0 n.1 (happen-IsStarved a w n.0 h)
