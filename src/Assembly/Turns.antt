-- ===== src/Assembly/Turns.antt =====
-- Worker.h: what one message, or one callback, can do to the requests of a worker and to running_.
use treadmill.Prelude.{
  ℕ, suc, ◌≤◌, ◌≡◌, refl, ◌∙◌, Bool, false, true, ◌&&◌, Bool-cases, Option, none, some,
  Option-cases, String, inl, inr, if-cases, List, arith,
}
use treadmill.Prelude.Int.{ℤ, ltb_ℤ}
use treadmill.Double.{Double}
use treadmill.Event.{Dynamic, Event, EventType}
use treadmill.Worker.{
  Workload, Worker, Try, Effect, InFlight, find, complete, on_reply, on_uncaught, dispatch,
}
use treadmill.Worker.Quiet.{report-IsQuiet}
use treadmill.Worker.Handlers.{
  Turn, on_ready, on_escaped, send_next, send_request, on_event, message_available,
}

abbrev pub is_request : EventType → Bool
is_request EventType.send_request = true
is_request _ = false

abbrev pub is_stop : EventType → Bool
is_stop EventType.stop = true
is_stop _ = false

-- A callback sends nothing and starts nothing.
pub record IsIdle {W : Type 0} (w w' : Worker W) : Type 0 where
  pub sent : w'.sent ≡ w.sent
  pub running : w'.running ≡ w.running

-- A message of type `t` has at most one request sent, if it asks for one, and starts nothing.
pub record IsTaken {W : Type 0} (t : EventType) (w w' : Worker W) : Type 0 where
  pub none_else : is_request t ≡ false → w'.sent ≡ w.sent
  pub at_most : w'.sent ≤ suc w.sent
  pub halted : w.running ≡ false → w'.running ≡ false
  pub stopped : is_stop t ≡ true → w'.running ≡ false

module _ (F : Type 0) {W : Type 0} (Q R : Type 0) (f : Double F) where
  complete-IsIdle :
      (x : InFlight) (recv_time : ℤ) (t : Try R) (w : Worker W)
      → IsIdle w (complete {Q = Q} f x recv_time t w).0
  unfolding complete
  complete-IsIdle x recv_time t w = record { sent = refl; running = refl }

  pub on_reply-IsIdle :
      (n : ℕ) (recv_time : ℤ) (t : Try R) (w : Worker W)
      → IsIdle w (on_reply {Q = Q} f n recv_time t w).0
  unfolding on_reply
  on_reply-IsIdle n recv_time t w = elim (Option-cases (find n w.in_flight)) [
    | inl e ↦ rw (e, on_reply) (record { sent = refl; running = refl })
    | inr (x, e) ↦ rw (e, on_reply) (complete-IsIdle x recv_time t w)
  ]

  on_ready-IsIdle :
      (n : ℕ) (recv_time : ℤ) (o : Option (Try R)) (w : Worker W)
      → IsIdle w (on_ready {Q = Q} f n recv_time o w).0
  on_ready-IsIdle n recv_time none w = record { sent = refl; running = refl }
  on_ready-IsIdle n recv_time (some t) w = on_reply-IsIdle n recv_time t w

  on_escaped-IsIdle :
      (o : Option String) (w : Worker W) → IsIdle w (on_escaped {F = F} {Q = Q} {R = R} o w).0
  unfolding on_uncaught
  on_escaped-IsIdle none w = record { sent = refl; running = refl }
  on_escaped-IsIdle (some c) w = record { sent = refl; running = refl }

  send_next-sent :
      (i : Turn R) (next : Option Q × W) (w : Worker W) → (send_next f i next w).0.sent ≤ suc w.sent
  unfolding send_next dispatch
  send_next-sent i (none, k) w = omega arith
  send_next-sent i (some q, k) w =
      let w₁ = (dispatch {F = F} {R = R} i.send_time q k w).0 in
      let r = on_ready-IsIdle w.sent i.recv_time i.ready w₁ in
      let w₂ = (on_ready {Q = Q} f w.sent i.recv_time i.ready w₁).0 in
      let e = on_escaped-IsIdle i.escaped w₂ in
      let w₃ = (on_escaped {F = F} {Q = Q} {R = R} i.escaped w₂).0 in
      omega (arith, r.sent, e.sent, (report-IsQuiet Q R f i.now w₃).sent)

module _ (F : Type 0) {D W Q : Type 0} (R : Type 0) (d : Dynamic D) (f : Double F)
    (k : Workload D W Q) where
  send_request-sent : (i : Turn R) (w : Worker W) → (send_request f k i w).0.sent ≤ suc w.sent
  unfolding send_request
  send_request-sent i w =
      elim (Bool-cases (ltb_ℤ w.outstanding_requests w.max_outstanding_requests && w.running)) [
        | inl e ↦ rw (e, send_request) (send_next-sent F Q R f i (k.get_next_request w.workload) w)
        | inr e ↦ rw (e, send_request) (omega (arith, (report-IsQuiet Q R f i.now w).sent))
      ]

  -- Every message but a request and STOP.
  others-IsTaken :
      (t : EventType) (w w' : Worker W)
      → is_stop t ≡ false
      → w'.sent ≡ w.sent
      → w'.running ≡ w.running
      → IsTaken t w w'
  others-IsTaken t w w' n s r = record {
    none_else = λ h. s;
    at_most = omega (arith, s);
    halted = λ h. r ∙ h;
    stopped = λ h. cc;
  }

  on_event-IsTaken :
      (i : Turn R) (t : EventType) (x : D) (w : Worker W)
      → w.running ≡ true
      → IsTaken t w (on_event f k d i t x w).0
  unfolding on_event
  on_event-IsTaken i EventType.stop x w r = record {
    none_else = λ h. refl;
    at_most = omega arith;
    halted = λ h. refl;
    stopped = λ h. refl;
  }
  on_event-IsTaken i EventType.reset x w r = others-IsTaken EventType.reset w _ refl refl refl
  on_event-IsTaken i EventType.send_request x w r = record {
    none_else = λ h. cc;
    at_most = send_request-sent i w;
    halted = λ h. cc;
    stopped = λ h. cc;
  }
  on_event-IsTaken i EventType.set_max_outstanding x w r =
      others-IsTaken EventType.set_max_outstanding w _ refl (ground arith) (ground arith)
  on_event-IsTaken i EventType.set_phase x w r =
      others-IsTaken EventType.set_phase w _ refl (ground arith) (ground arith)

  pub message_available-IsTaken :
      (i : Turn R) (e : Event D) (w : Worker W)
      → IsTaken e.event_type w (message_available f k d i e w).0
  unfolding message_available
  message_available-IsTaken i e w =
      if-cases (λ (m : Worker W × List (Effect F Q R)). IsTaken e.event_type w m.0) w.running
        (λ r. on_event-IsTaken i e.event_type e.extra_data w r)
        (λ r. record {
          none_else = λ h. refl;
          at_most = omega arith;
          halted = λ h. refl;
          stopped = λ h. refl;
        })
