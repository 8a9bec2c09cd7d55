-- ===== src/Worker/Connections.antt =====
-- Which connection a request goes to.
use treadmill.Prelude.{
  ℕ, ◌+◌, ◌%◌, ◌<◌, ◌≡◌, refl, ap, ◌∙◌, ◌&&◌, Option, none, some, Option-cases, String, List, [],
  ◌∷◌, ◌++◌, inl, inr, arith, if-intro,
}
use treadmill.Prelude.Int.{ℤ, ltb_ℤ}
use treadmill.Prelude.Dict.{Dict}
use native.Mathlib.Nat.{mod-add-mod}
use treadmill.Double.{Double}
use treadmill.Event.{Dynamic, EventType}
use treadmill.Worker.{
  Workload, Worker, Try, value, exception, InFlight, Effect, sets_counter, make_worker, set_off,
  sender_loop, begun, exception_effects, uncaught_effects, find, complete, on_reply, on_uncaught,
  dispatch, estimate, flush_exceptions, report, stop,
}
use treadmill.Worker.Handlers.{
  Turn, ◌>>◌, on_ready, on_escaped, send_next, send_request, on_event, message_available,
}
use treadmill.Worker.Quiet.{report-IsQuiet}
use treadmill.Worker.Histories.{Happening, receives, replies, escapes, is_stopped, happen, history}
use treadmill.Worker.Deals.{sent_by, sent_by-append, deal, deal-append}

-- From `w` the effects of `m` send the requests that the counter says, dealt in turn.
record IsDealt {F W Q R : Type 0} (w : Worker W) (m : Worker W × List (Effect F Q R)) : Type 0 where
  count : ℕ
  counted : m.0.sent ≡ w.sent + count
  turn : m.0.conn_idx ≡ m.0.sent % m.0.number_of_connections
  connections : m.0.number_of_connections ≡ w.number_of_connections
  dealt : sent_by m.1 ≡ deal w.number_of_connections w.sent count

abbrev HasTurn : {W : Type 0} → Worker W → Type 0
HasTurn w = w.conn_idx ≡ w.sent % w.number_of_connections

module _ (F Q R W : Type 0) where
  still :
      (w : Worker W) (m : Worker W × List (Effect F Q R))
      → m.0.sent ≡ w.sent
      → m.0.conn_idx ≡ w.conn_idx
      → m.0.number_of_connections ≡ w.number_of_connections
      → sent_by m.1 ≡ []
      → HasTurn w
      → IsDealt w m
  still w m s c n e t = record {
    count = 0;
    counted = omega arith;
    turn = rw (s, c, n) t;
    connections = n;
    dealt = e;
  }

  >>-IsDealt :
      (w : Worker W) (m : Worker W × List (Effect F Q R))
      (g : Worker W → Worker W × List (Effect F Q R))
      → IsDealt w m
      → (HasTurn m.0 → IsDealt m.0 (g m.0))
      → IsDealt w (m >> g)
  >>-IsDealt w m g h k =
      let v = k h.turn in
      record {
        count = h.count + v.count;
        counted = omega (arith, h.counted, v.counted);
        turn = v.turn;
        connections = v.connections ∙ h.connections;
        dealt =
            rw (sent_by-append m.1 (g m.0).1, h.dealt, v.dealt, h.connections, h.counted)
              (deal-append w.number_of_connections w.sent h.count v.count);
      }

  dispatch-IsDealt :
      (send_time : ℤ) (q : Q) (k : W) (w : Worker W)
      → HasTurn w
      → IsDealt {R = R} w (dispatch {F = F} send_time q k w)
  unfolding dispatch
  dispatch-IsDealt send_time q k w t = record {
    count = 1;
    counted = omega arith;
    turn =
        rw (t, mod-add-mod w.sent w.number_of_connections 1)
          (ap (λ (x : ℕ). x % w.number_of_connections) (omega arith));
    connections = refl;
    dealt = rw t;
  }

  complete-silent :
      (f : Double F) (x : InFlight) (recv_time : ℤ) (t : Try R) (w : Worker W)
      → sent_by {Q = Q} (complete f x recv_time t w).1 ≡ []
  unfolding complete
  complete-silent f x recv_time (value r) w = ground arith
  complete-silent f x recv_time (exception c) w = ground arith

  on_reply-IsDealt :
      (f : Double F) (n : ℕ) (recv_time : ℤ) (t : Try R) (w : Worker W)
      → HasTurn w
      → IsDealt {Q = Q} w (on_reply f n recv_time t w)
  unfolding on_reply complete
  on_reply-IsDealt f n recv_time t w h = elim (Option-cases (find n w.in_flight)) [
    | inl e ↦ rw (e, on_reply) (still w (w, []) refl refl refl refl h)
    | inr (x, e) ↦
        rw (e, on_reply)
          (still w (complete f x recv_time t w) refl refl refl (complete-silent f x recv_time t w)
            h)
  ]

  on_ready-IsDealt :
      (f : Double F) (n : ℕ) (recv_time : ℤ) (t : Option (Try R)) (w : Worker W)
      → HasTurn w
      → IsDealt {Q = Q} w (on_ready f n recv_time t w)
  on_ready-IsDealt f n recv_time none w h = still w (w, []) refl refl refl refl h
  on_ready-IsDealt f n recv_time (some t) w h = on_reply-IsDealt f n recv_time t w h

  on_escaped-IsDealt :
      (c : Option String) (w : Worker W)
      → HasTurn w
      → IsDealt {F = F} {Q = Q} {R = R} w (on_escaped c w)
  unfolding on_uncaught
  on_escaped-IsDealt none w h = still w (w, []) refl refl refl refl h
  on_escaped-IsDealt (some c) w h = still w (on_uncaught c w, []) refl refl refl refl h

  exceptions-silent : (m : Dict ℕ) → sent_by {F = F} {Q = Q} {R = R} (exception_effects m) ≡ []
  exceptions-silent [] = refl
  exceptions-silent ((k, n) ∷ m) = exceptions-silent m

  uncaught-silent : (m : Dict ℕ) → sent_by {F = F} {Q = Q} {R = R} (uncaught_effects m) ≡ []
  uncaught-silent [] = refl
  uncaught-silent ((k, n) ∷ m) = uncaught-silent m

  flush-silent : (w : Worker W) → sent_by {F = F} {Q = Q} {R = R} (flush_exceptions w).1 ≡ []
  unfolding flush_exceptions
  flush-silent w = rw (
    sent_by-append (exception_effects w.n_exceptions_by_type)
        (uncaught_effects w.n_uncaught_exceptions_by_type),
    exceptions-silent w.n_exceptions_by_type,
    uncaught-silent w.n_uncaught_exceptions_by_type,
  )

  estimate-silent :
      (f : Double F) (t : ℤ) (w : Worker W) → sent_by {Q = Q} {R = R} (estimate f t w).1 ≡ []
  unfolding estimate
  estimate-silent f t w = ground arith

  report-IsDealt :
      (f : Double F) (t : ℤ) (w : Worker W) → HasTurn w → IsDealt {Q = Q} {R = R} w (report f t w)
  unfolding report
  report-IsDealt f t w h =
      let w₁ : Worker W = (estimate {Q = Q} {R = R} f t w).0 in
      let es₁ : List (Effect F Q R) = (estimate f t w).1 in
      let es₂ : List (Effect F Q R) = (flush_exceptions w₁).1 in
      let q = report-IsQuiet Q R f t w in
      still w (report f t w) q.sent q.conn_idx q.number_of_connections
        (rw (
          sent_by-append (es₁ ++ es₂) (sets_counter _ ∷ []),
          sent_by-append es₁ es₂,
          estimate-silent f t w,
          flush-silent w₁,
        ))
        h

  send_next-IsDealt :
      (f : Double F) (i : Turn R) (next : Option Q × W) (w : Worker W)
      → HasTurn w
      → IsDealt w (send_next f i next w)
  unfolding send_next
  send_next-IsDealt f i (none, k) w h = still w _ refl refl refl refl h
  send_next-IsDealt f i (some q, k) w h =
      let m₁ : Worker W × List (Effect F Q R) = dispatch i.send_time q k w in
      let m₂ : Worker W × List (Effect F Q R) = m₁ >> on_ready f w.sent i.recv_time i.ready in
      let m₃ : Worker W × List (Effect F Q R) = m₂ >> on_escaped i.escaped in
      >>-IsDealt w m₃ (report f i.now)
        (>>-IsDealt w m₂ (on_escaped i.escaped)
          (>>-IsDealt w m₁ (on_ready f w.sent i.recv_time i.ready)
            (dispatch-IsDealt i.send_time q k w h)
            (on_ready-IsDealt f w.sent i.recv_time i.ready m₁.0))
          (on_escaped-IsDealt i.escaped m₂.0))
        (report-IsDealt f i.now m₃.0)

  module _ {D : Type 0} (d : Dynamic D) (f : Double F) (k : Workload D W Q) where
    on_event-IsDealt :
        (i : Turn R) (e : EventType) (x : D) (w : Worker W)
        → HasTurn w
        → IsDealt w (on_event f k d i e x w)
    unfolding on_event send_request
    on_event-IsDealt i EventType.send_request x w h =
        if-intro (IsDealt w) (ltb_ℤ w.outstanding_requests w.max_outstanding_requests && w.running)
          (send_next-IsDealt f i (k.get_next_request w.workload) w h) (report-IsDealt f i.now w h)
    on_event-IsDealt i EventType.stop x w h = still w _ refl refl refl refl h
    on_event-IsDealt i EventType.reset x w h = still w _ refl refl refl refl h
    on_event-IsDealt i EventType.set_phase x w h =
        if-intro (IsDealt w) (d.is_string x) (still w _ refl refl refl refl h)
          (still w _ refl refl refl refl h)
    on_event-IsDealt i EventType.set_max_outstanding x w h =
        if-intro (IsDealt w) (d.is_int x) (still w _ refl refl refl refl h)
          (still w _ refl refl refl refl h)

    happen-IsDealt : (h : Happening D R) (w : Worker W) → HasTurn w → IsDealt w (happen d f k h w)
    unfolding happen message_available stop
    happen-IsDealt (receives i e) w t =
        if-intro (IsDealt w) w.running (on_event-IsDealt i e.event_type e.extra_data w t)
          (still w _ refl refl refl refl t)
    happen-IsDealt (replies n recv_time x) w t = on_reply-IsDealt f n recv_time x w t
    happen-IsDealt (escapes c) w t = on_escaped-IsDealt (some c) w t
    happen-IsDealt is_stopped w t = still w _ refl refl refl refl t

    history-IsDealt :
        (hs : List (Happening D R)) (w : Worker W) → HasTurn w → IsDealt w (history d f k hs w)
    unfolding history
    history-IsDealt [] w t = still w _ refl refl refl refl t
    history-IsDealt (h ∷ hs) w t =
        >>-IsDealt w (happen d f k h w) (history d f k hs) (happen-IsDealt h w t)
          (history-IsDealt hs (happen d f k h w).0)

-- Over any history of a new worker that was started the requests go out one for each number 0, 1,
-- 2, …, in that order, as many as the worker's count says, and request m goes to connection m
-- modulo the number of connections.
pub sent_by-deal :
    {D F W Q R : Type 0} (d : Dynamic D) (f : Double F) (k : Workload D W Q)
    (hs : List (Happening D R)) (now id workers : ℤ) (connections : ℕ) (limit : ℤ) (config : D)
    → 0 < connections
    → let m = history d f k hs (begun now k id workers connections limit config) in
      sent_by m.1 ≡ deal connections 0 m.0.sent
unfolding make_worker set_off sender_loop
sent_by-deal {F = F} {W = W} {Q = Q} {R = R} d f k hs now id workers connections limit config
      some' =
    let v =
      history-IsDealt F Q R W d f k hs (begun now k id workers connections limit config)
        (omega arith) in
    v.dealt ∙ ap (deal connections 0) (omega (arith, v.counted))
