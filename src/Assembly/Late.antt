-- ===== src/Assembly/Late.antt =====
-- Which turn of a worker ends a run: one at which its workload has no more requests.
use treadmill.Prelude.{
  ℕ, ◌≡◌, refl, ap, ◌∙◌, inl, inr, ◌&&◌, ◌||◌, Bool-cases, true, false, String, Option,
  Option-cases, none, some, List, [], ◌∷◌, ◌++◌, arith,
}
use treadmill.Prelude.Int.{ℤ, ltb_ℤ}
use treadmill.Prelude.Dict.{Dict}
use treadmill.Double.{Double}
use treadmill.Event.{Dynamic, Event, EventType}
use treadmill.Assembly.Early.{RunsOut}
use treadmill.Worker.{
  Workload, Worker, Try, Effect, terminates_early, sets_counter, exception_effects,
  uncaught_effects, complete, on_reply, dispatch, estimate, flush_exceptions, report,
  stop as stop_worker,
}
use treadmill.Worker.Handlers.{
  Turn, ◌>>◌, on_ready, on_escaped, send_next, send_request, on_event, message_available,
}
use treadmill.Assembly.{
  Consumer, Move, acts, takes, replies, escapes, halts, next_message, take_message, is_early, serve,
}
use treadmill.Assembly.Early.{RunsOut}

module _ (F Q R : Type 0) where
  is_early-append :
      (xs ys : List (Effect F Q R)) → is_early (xs ++ ys) ≡ (is_early xs || is_early ys)
  is_early-append [] ys = refl
  is_early-append (terminates_early ∷ xs) ys = refl
  is_early-append (_ ∷ xs) ys = is_early-append xs ys

  exceptions-late : (m : Dict ℕ) → is_early {F = F} {Q = Q} {R = R} (exception_effects m) ≡ false
  exceptions-late [] = refl
  exceptions-late ((c, n) ∷ m) = exceptions-late m

  uncaught-late : (m : Dict ℕ) → is_early {F = F} {Q = Q} {R = R} (uncaught_effects m) ≡ false
  uncaught-late [] = refl
  uncaught-late ((c, n) ∷ m) = uncaught-late m

  module _ {W : Type 0} where
    flush-late : (w : Worker W) → is_early {F = F} {Q = Q} {R = R} (flush_exceptions w).1 ≡ false
    unfolding flush_exceptions
    flush-late w = rw (
      is_early-append (exception_effects w.n_exceptions_by_type)
          (uncaught_effects w.n_uncaught_exceptions_by_type),
      exceptions-late w.n_exceptions_by_type,
      uncaught-late w.n_uncaught_exceptions_by_type,
    )

    estimate-late :
        (f : Double F) (t : ℤ) (w : Worker W) → is_early {Q = Q} {R = R} (estimate f t w).1 ≡ false
    unfolding estimate
    estimate-late f t w = ground arith

    report-late :
        (f : Double F) (t : ℤ) (w : Worker W) → is_early {Q = Q} {R = R} (report f t w).1 ≡ false
    unfolding report
    report-late f t w =
        let w₁ : Worker W = (estimate {Q = Q} {R = R} f t w).0 in
        let es₁ : List (Effect F Q R) = (estimate f t w).1 in
        let es₂ : List (Effect F Q R) = (flush_exceptions w₁).1 in
        rw (
          is_early-append (es₁ ++ es₂) (sets_counter _ ∷ []),
          is_early-append es₁ es₂,
          estimate-late f t w,
          flush-late w₁,
        )

    on_reply-late :
        (f : Double F) (n : ℕ) (recv_time : ℤ) (t : Try R) (w : Worker W)
        → is_early {Q = Q} (on_reply f n recv_time t w).1 ≡ false
    unfolding on_reply complete
    on_reply-late f n recv_time t w = ground arith

    on_ready-late :
        (f : Double F) (n : ℕ) (recv_time : ℤ) (t : Option (Try R)) (w : Worker W)
        → is_early {Q = Q} (on_ready f n recv_time t w).1 ≡ false
    on_ready-late f n recv_time none w = refl
    on_ready-late f n recv_time (some t) w = on_reply-late f n recv_time t w

    >>-late :
        (m : Worker W × List (Effect F Q R)) (g : Worker W → Worker W × List (Effect F Q R))
        → is_early m.1 ≡ false
        → is_early (g m.0).1 ≡ false
        → is_early (m >> g).1 ≡ false
    >>-late m g h k = rw (is_early-append m.1 (g m.0).1, h, k)

    escaped-late :
        (c : Option String) (w : Worker W)
        → is_early (on_escaped {F = F} {Q = Q} {R = R} c w).1 ≡ false
    escaped-late none w = refl
    escaped-late (some c) w = refl

    -- Only a workload that gives no request ends the run.
    send_next-early :
        (f : Double F) (i : Turn R) (next : Option Q × W) (w : Worker W)
        → is_early (send_next f i next w).1 ≡ true
        → next ≡ (none, next.1)
    unfolding send_next dispatch
    send_next-early f i (none, x) w h = refl
    send_next-early f i (some q, x) w h =
        let m₁ : Worker W × List (Effect F Q R) = dispatch i.send_time q x w in
        let m₂ : Worker W × List (Effect F Q R) = m₁ >> on_ready f w.sent i.recv_time i.ready in
        let m₃ : Worker W × List (Effect F Q R) = m₂ >> on_escaped i.escaped in
        let late : is_early (m₃ >> report f i.now).1 ≡ false =
          >>-late m₃ (report f i.now)
            (>>-late m₂ (on_escaped i.escaped)
              (>>-late m₁ (on_ready f w.sent i.recv_time i.ready) refl
                (on_ready-late f w.sent i.recv_time i.ready m₁.0))
              (escaped-late i.escaped m₂.0))
            (report-late f i.now m₃.0) in
        cc

-- The worker asks its workload, which has no more.
record IsAsked {D W Q : Type 0} (k : Workload D W Q) (t : EventType) (w : Worker W) : Type 0 where
  workload : W
  below : ltb_ℤ w.outstanding_requests w.max_outstanding_requests ≡ true
  asks : t ≡ EventType.send_request
  no_more : k.get_next_request w.workload ≡ (none, workload)

module _ {D W Q : Type 0} (F R : Type 0) ⦃d : Dynamic D⦄ ⦃f : Double F⦄ (k : Workload D W Q) where
  on_event-early :
      (i : Turn R) (t : EventType) (x : D) (w : Worker W)
      → is_early (on_event f k d i t x w).1 ≡ true
      → IsAsked k t w
  unfolding on_event send_request
  on_event-early i EventType.send_request x w h =
      let next = k.get_next_request w.workload in
      elim (Bool-cases (ltb_ℤ w.outstanding_requests w.max_outstanding_requests && w.running)) [
        | inl g ↦
            let h' : is_early (send_next f i next w).1 ≡ true = ground (arith, h, g) in
            record {
              workload = next.1;
              below = ground (arith, g);
              asks = refl;
              no_more = send_next-early F Q R f i next w h';
            }
        | inr g ↦
            let h' : is_early (report {Q = Q} {R = R} f i.now w).1 ≡ true = ground (arith, h, g) in
            let late = report-late F Q R f i.now w in cc
      ]
  on_event-early i EventType.set_max_outstanding x w h = ground arith
  on_event-early i EventType.set_phase x w h = ground arith
  on_event-early i EventType.stop x w h = cc
  on_event-early i EventType.reset x w h = cc

  take_message-early :
      (t : Turn R) (q : List (Event D)) (e : Event D) (c : Consumer D W)
      → c.worker.consuming ≡ true
      → next_message c.consumed q ≡ some e
      → is_early (take_message {F = F} k t e c).1 ≡ true
      → RunsOut k q c
  unfolding take_message message_available
  take_message-early t q e c taking next h = elim (Bool-cases c.worker.running) [
    | inl on ↦
        let h' : is_early (on_event f k d t e.event_type e.extra_data c.worker).1 ≡ true =
          ground (arith, h, on) in
        let a = on_event-early t e.event_type e.extra_data c.worker h' in
        record {
          extra_data = e.extra_data;
          workload = a.workload;
          consuming = taking;
          running = on;
          below = a.below;
          asked =
              next ∙ ap (λ y. some (record { event_type = y; extra_data = e.extra_data })) a.asks;
          no_more = a.no_more;
        }
    | inr off ↦ ground (arith, h, off)
  ]

  pub serve-early :
      (v : Move F R) (q : List (Event D)) (c : Consumer D W)
      → is_early (serve k v q c).1 ≡ true
      → (i : ℕ) × (t : Turn R) × (v ≡ takes i t) × RunsOut k q c
  unfolding serve stop_worker
  serve-early (takes i t) q c h = elim (Bool-cases c.worker.consuming) [
    | inr off ↦ ground (arith, h, off)
    | inl on ↦ elim (Option-cases (next_message c.consumed q)) [
      | inl n ↦ ground (arith, h, on, n)
      | inr (e, n) ↦ (i, t, refl, take_message-early t q e c on n (ground (arith, h, on, n)))
    ]
  ]
  serve-early (replies i n recv_time t) q c h =
      let late = on_reply-late F Q R f n recv_time t c.worker in cc
  serve-early (acts a) q c h = cc
  serve-early (escapes i x) q c h = cc
  serve-early (halts i) q c h = cc
