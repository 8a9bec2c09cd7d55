-- ===== src/Worker/Limit.antt =====
-- The limit on outstanding requests.
use treadmill.Prelude.{
  ℕ, ◌≡◌, refl, true, ◌&&◌, Option, none, some, Option-cases, String, List, inl, inr, arith,
  if-intro, if-cases,
}
use treadmill.Prelude.Int.{ℤ, ◌+ℤ◌, ◌≤ℤ◌, max_ℤ, ltb_ℤ, +ℤ_parts, int_laws}
use treadmill.Double.{Double}
use treadmill.Event.{Dynamic, EventType}
use treadmill.Worker.{Workload, Worker, Try, Effect, find, on_reply, on_uncaught, dispatch, stop}
use treadmill.Worker.Handlers.{
  Turn, on_ready, on_escaped, send_next, send_request, on_event, message_available,
}
use treadmill.Worker.Histories.{Happening, receives, replies, escapes, is_stopped, happen}
use treadmill.Worker.Quiet.{report-IsQuiet}

module _ {W : Type 0} (F Q R : Type 0) where
  on_reply-le :
      (f : Double F) (n : ℕ) (recv_time : ℤ) (t : Try R) (w : Worker W)
      → (on_reply {Q = Q} f n recv_time t w).0.outstanding_requests ≤ℤ w.outstanding_requests
  unfolding on_reply
  on_reply-le f n recv_time t w = elim (Option-cases (find n w.in_flight)) [
    | inl e ↦ rw (e, on_reply) (omega arith)
    | inr (x, e) ↦ rw (e, on_reply) (omega int_laws)
  ]

  on_ready-le :
      (f : Double F) (n : ℕ) (recv_time : ℤ) (t : Option (Try R)) (w : Worker W)
      → (on_ready {Q = Q} f n recv_time t w).0.outstanding_requests ≤ℤ w.outstanding_requests
  on_ready-le f n recv_time none w = omega arith
  on_ready-le f n recv_time (some t) w = on_reply-le f n recv_time t w

  on_escaped-eq :
      (c : Option String) (w : Worker W)
      → (on_escaped {F = F} {Q = Q} {R = R} c w).0.outstanding_requests ≡ w.outstanding_requests
  unfolding on_uncaught
  on_escaped-eq none w = refl
  on_escaped-eq (some c) w = refl

  dispatch-eq :
      (send_time : ℤ) (q : Q) (k : W) (w : Worker W)
      → (dispatch {F = F} {R = R} send_time q k w).0.outstanding_requests
        ≡ w.outstanding_requests +ℤ ℤ.pos 1
  unfolding dispatch
  dispatch-eq send_time q k w = refl

  send_next-le :
      (f : Double F) (i : Turn R) (next : Option Q × W) (w : Worker W)
      → (send_next f i next w).0.outstanding_requests ≤ℤ w.outstanding_requests +ℤ ℤ.pos 1
  unfolding send_next
  send_next-le f i (none, k) w = omega int_laws
  send_next-le f i (some q, k) w =
      let w₁ : Worker W = (dispatch {F = F} {R = R} i.send_time q k w).0 in
      let w₂ : Worker W = (on_ready {Q = Q} f w.sent i.recv_time i.ready w₁).0 in
      let w₃ : Worker W = (on_escaped {F = F} {Q = Q} {R = R} i.escaped w₂).0 in
      rw ((report-IsQuiet Q R f i.now w₃).outstanding_requests, on_escaped-eq i.escaped w₂)
        (rw (← dispatch-eq i.send_time q k w) (on_ready-le f w.sent i.recv_time i.ready w₁))

  module _ {D : Type 0} (d : Dynamic D) (f : Double F) (k : Workload D W Q) where
    abbrev IsLimited : Worker W → Worker W × List (Effect F Q R) → Type 0
    IsLimited w m =
        m.0.outstanding_requests ≤ℤ max_ℤ w.outstanding_requests w.max_outstanding_requests

    within : (x y : ℤ) → x ≤ℤ y → (limit : ℤ) → x ≤ℤ max_ℤ y limit
    within x y h limit = ground arith

    one_more : (x y limit : ℤ) → x ≤ℤ y +ℤ ℤ.pos 1 → ltb_ℤ y limit ≡ true → x ≤ℤ max_ℤ y limit
    one_more x y limit h lt = ground (arith, +ℤ_parts y (ℤ.pos 1))

    send_request-limit : (i : Turn R) (w : Worker W) → IsLimited w (send_request f k i w)
    unfolding send_request
    send_request-limit i w =
        if-cases (IsLimited w)
          (ltb_ℤ w.outstanding_requests w.max_outstanding_requests && w.running)
          (λ e.
            one_more _ w.outstanding_requests w.max_outstanding_requests
              (send_next-le f i (k.get_next_request w.workload) w) (ground arith))
          (λ e. rw (report-IsQuiet Q R f i.now w).outstanding_requests (
            within w.outstanding_requests w.outstanding_requests (omega arith)
              w.max_outstanding_requests))

    on_event-limit :
        (i : Turn R) (e : EventType) (x : D) (w : Worker W) → IsLimited w (on_event f k d i e x w)
    unfolding on_event
    on_event-limit i EventType.send_request x w = send_request-limit i w
    on_event-limit i _ x w = ground arith

    -- No handler takes the number of outstanding requests above the limit: after a handler it is at
    -- most the limit from before it, or at most what it was before it.
    pub happen-limit :
        (h : Happening D R) (w : Worker W)
        → (happen d f k h w).0.outstanding_requests
          ≤ℤ max_ℤ w.outstanding_requests w.max_outstanding_requests
    unfolding happen message_available stop
    happen-limit (receives i e) w =
        if-intro (IsLimited w) w.running (on_event-limit i e.event_type e.extra_data w) (
          within w.outstanding_requests w.outstanding_requests (omega arith)
            w.max_outstanding_requests)
    happen-limit (replies n recv_time t) w =
        within _ w.outstanding_requests (on_reply-le f n recv_time t w) w.max_outstanding_requests
    happen-limit (escapes c) w = ground (arith, on_escaped-eq (some c) w)
    happen-limit is_stopped w = ground arith
