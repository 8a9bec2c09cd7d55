-- ===== src/Worker/Latencies.antt =====
-- Worker.h: the latency of each reply goes to the statistic while the worker runs.
use treadmill.Prelude.{
  ℕ, suc, ◌+◌, ◌≡◌, refl, sym, ◌∙◌, true, false, ◌&&◌, inl, inr, if-intro, Option, Option-cases,
  none, some, String, List, [], ◌∷◌, ◌++◌, arith,
}
use treadmill.Prelude.Int.{ℤ, ltb_ℤ}
use treadmill.Prelude.Dict.{Dict}
use treadmill.Double.{Double}
use treadmill.Event.{Dynamic, EventType}
use treadmill.Worker.{
  Workload, Worker, InFlight, Try, value, exception, Effect, adds_latency, sets_value,
  sets_exception, find, complete, on_reply, on_uncaught, dispatch, estimate, flush_exceptions,
  report, stop, exception_effects, uncaught_effects,
}
use treadmill.Worker.Quiet.{report-IsQuiet}
use treadmill.Worker.Handlers.{
  Turn, ◌>>◌, on_ready, on_escaped, send_next, send_request, on_event, message_available,
}
use treadmill.Worker.Histories.{Happening, receives, replies, escapes, is_stopped, happen, history}

module _ {F Q R : Type 0} where
  -- The latencies reported, and the requests that were answered, by a value or an exception.
  abbrev pub latencies : List (Effect F Q R) → ℕ
  latencies [] = 0
  latencies (adds_latency x ∷ es) = suc (latencies es)
  latencies (_ ∷ es) = latencies es

  abbrev pub answered : List (Effect F Q R) → ℕ
  answered [] = 0
  answered (sets_value n r ∷ es) = suc (answered es)
  answered (sets_exception n c ∷ es) = suc (answered es)
  answered (_ ∷ es) = answered es

  latencies-append :
      (xs ys : List (Effect F Q R)) → latencies (xs ++ ys) ≡ latencies xs + latencies ys
  latencies-append [] ys = omega arith
  latencies-append (adds_latency x ∷ xs) ys = omega (arith, latencies-append xs ys)
  latencies-append (_ ∷ xs) ys = latencies-append xs ys

  answered-append : (xs ys : List (Effect F Q R)) → answered (xs ++ ys) ≡ answered xs + answered ys
  answered-append [] ys = omega arith
  answered-append (sets_value n r ∷ xs) ys = omega (arith, answered-append xs ys)
  answered-append (sets_exception n c ∷ xs) ys = omega (arith, answered-append xs ys)
  answered-append (_ ∷ xs) ys = answered-append xs ys

  -- Neither of the two.
  abbrev IsSilent : List (Effect F Q R) → Type 0
  IsSilent es = (latencies es ≡ 0) × (answered es ≡ 0)

  IsSilent-append : (xs ys : List (Effect F Q R)) → IsSilent xs → IsSilent ys → IsSilent (xs ++ ys)
  IsSilent-append xs ys hx hy = (
    omega (arith, latencies-append xs ys, hx.0, hy.0),
    omega (arith, answered-append xs ys, hx.1, hy.1),
  )

module _ (F Q R : Type 0) where
  exceptions-IsSilent : (m : Dict ℕ) → IsSilent (exception_effects {F = F} {Q = Q} {R = R} m)
  exceptions-IsSilent [] = (refl, refl)
  exceptions-IsSilent ((k, n) ∷ m) = exceptions-IsSilent m

  uncaught-IsSilent : (m : Dict ℕ) → IsSilent (uncaught_effects {F = F} {Q = Q} {R = R} m)
  uncaught-IsSilent [] = (refl, refl)
  uncaught-IsSilent ((k, n) ∷ m) = uncaught-IsSilent m

module _ {F Q R : Type 0} where
  module _ {W : Type 0} where
    -- If the worker runs afterwards, it did before, and each answer came with its latency.
    record IsTimed (w : Worker W) (m : Worker W × List (Effect F Q R)) : Type 0 where
      ran : m.0.running ≡ true → w.running ≡ true
      timed : m.0.running ≡ true → latencies m.1 ≡ answered m.1

    still :
        (w : Worker W) (m : Worker W × List (Effect F Q R))
        → m.0.running ≡ w.running
        → IsSilent m.1
        → IsTimed w m
    still w m r s = record { ran = λ h. sym r ∙ h; timed = λ h. s.0 ∙ sym s.1 }

    halting :
        (w : Worker W) (m : Worker W × List (Effect F Q R)) → m.0.running ≡ false → IsTimed w m
    halting w m r = record { ran = λ h. cc; timed = λ h. cc }

    >>-IsTimed :
        (w : Worker W) (m : Worker W × List (Effect F Q R))
        (g : Worker W → Worker W × List (Effect F Q R))
        → IsTimed w m
        → IsTimed m.0 (g m.0)
        → IsTimed w (m >> g)
    >>-IsTimed w m g h v = record {
      ran = λ r. h.ran (v.ran r);
      timed = λ r. omega (
        arith,
        latencies-append m.1 (g m.0).1,
        answered-append m.1 (g m.0).1,
        h.timed (v.ran r),
        v.timed r,
      );
    }

    complete-IsTimed :
        (f : Double F) (x : InFlight) (recv_time : ℤ) (t : Try R) (w : Worker W)
        → IsTimed w (complete {Q = Q} f x recv_time t w)
    unfolding complete
    complete-IsTimed f x recv_time (value r) w = record { ran = λ h. h; timed = λ h. ground arith }
    complete-IsTimed f x recv_time (exception c) w = record {
      ran = λ h. h;
      timed = λ h. ground arith;
    }

    on_reply-IsTimed :
        (f : Double F) (n : ℕ) (recv_time : ℤ) (t : Try R) (w : Worker W)
        → IsTimed w (on_reply {Q = Q} f n recv_time t w)
    unfolding on_reply
    on_reply-IsTimed f n recv_time t w = elim (Option-cases (find n w.in_flight)) [
      | inl e ↦ rw (e, on_reply) (still w (w, []) refl (refl, refl))
      | inr (x, e) ↦ rw (e, on_reply) (complete-IsTimed f x recv_time t w)
    ]

    on_ready-IsTimed :
        (f : Double F) (n : ℕ) (recv_time : ℤ) (o : Option (Try R)) (w : Worker W)
        → IsTimed w (on_ready {Q = Q} f n recv_time o w)
    on_ready-IsTimed f n recv_time none w = still w _ refl (refl, refl)
    on_ready-IsTimed f n recv_time (some t) w = on_reply-IsTimed f n recv_time t w

    on_escaped-IsTimed : (o : Option String) (w : Worker W) → IsTimed w (on_escaped o w)
    unfolding on_uncaught
    on_escaped-IsTimed none w = still w _ refl (refl, refl)
    on_escaped-IsTimed (some c) w = still w _ refl (refl, refl)

    report-IsTimed : (f : Double F) (t : ℤ) (w : Worker W) → IsTimed w (report f t w)
    unfolding report flush_exceptions estimate
    report-IsTimed f t w =
        let w₁ : Worker W = (estimate {Q = Q} {R = R} f t w).0 in
        let es₁ : List (Effect F Q R) = (estimate f t w).1 in
        let es₂ : List (Effect F Q R) = (flush_exceptions w₁).1 in
        let estimated : IsSilent es₁ = (ground arith, ground arith) in
        let flushed : IsSilent es₂ =
          IsSilent-append (exception_effects w₁.n_exceptions_by_type)
            (uncaught_effects w₁.n_uncaught_exceptions_by_type)
            (exceptions-IsSilent F Q R w₁.n_exceptions_by_type)
            (uncaught-IsSilent F Q R w₁.n_uncaught_exceptions_by_type) in
        still w (report f t w) (report-IsQuiet Q R f t w).running
          (IsSilent-append (es₁ ++ es₂) _ (IsSilent-append es₁ es₂ estimated flushed) (refl, refl))

    send_next-IsTimed :
        (f : Double F) (i : Turn R) (next : Option Q × W) (w : Worker W)
        → IsTimed w (send_next f i next w)
    unfolding send_next dispatch
    send_next-IsTimed f i (none, k) w = halting w _ refl
    send_next-IsTimed f i (some q, k) w =
        let m₁ : Worker W × List (Effect F Q R) = dispatch i.send_time q k w in
        let m₂ : Worker W × List (Effect F Q R) = m₁ >> on_ready f w.sent i.recv_time i.ready in
        let m₃ : Worker W × List (Effect F Q R) = m₂ >> on_escaped i.escaped in
        >>-IsTimed w m₃ (report f i.now)
          (>>-IsTimed w m₂ (on_escaped i.escaped)
            (>>-IsTimed w m₁ (on_ready f w.sent i.recv_time i.ready) (still w m₁ refl (refl, refl))
              (on_ready-IsTimed f w.sent i.recv_time i.ready m₁.0))
            (on_escaped-IsTimed i.escaped m₂.0))
          (report-IsTimed f i.now m₃.0)

    module _ {D : Type 0} (d : Dynamic D) (f : Double F) (k : Workload D W Q) where
      on_event-IsTimed :
          (i : Turn R) (e : EventType) (x : D) (w : Worker W) → IsTimed w (on_event f k d i e x w)
      unfolding on_event send_request
      on_event-IsTimed i EventType.send_request x w =
          if-intro (IsTimed w)
            (ltb_ℤ w.outstanding_requests w.max_outstanding_requests && w.running)
            (send_next-IsTimed f i (k.get_next_request w.workload) w) (report-IsTimed f i.now w)
      on_event-IsTimed i EventType.stop x w = halting w _ refl
      on_event-IsTimed i EventType.reset x w = still w _ refl (refl, refl)
      on_event-IsTimed i EventType.set_phase x w =
          if-intro (IsTimed w) (d.is_string x) (still w _ refl (refl, refl))
            (still w _ refl (refl, refl))
      on_event-IsTimed i EventType.set_max_outstanding x w =
          if-intro (IsTimed w) (d.is_int x) (still w _ refl (refl, refl))
            (still w _ refl (refl, refl))

      happen-IsTimed : (h : Happening D R) (w : Worker W) → IsTimed w (happen d f k h w)
      unfolding happen message_available stop
      happen-IsTimed (receives i e) w =
          if-intro (IsTimed w) w.running (on_event-IsTimed i e.event_type e.extra_data w)
            (halting w _ refl)
      happen-IsTimed (replies n recv_time x) w = on_reply-IsTimed f n recv_time x w
      happen-IsTimed (escapes c) w = on_escaped-IsTimed (some c) w
      happen-IsTimed is_stopped w = halting w _ refl

      history-IsTimed : (hs : List (Happening D R)) (w : Worker W) → IsTimed w (history d f k hs w)
      unfolding history
      history-IsTimed [] w = still w _ refl (refl, refl)
      history-IsTimed (h ∷ hs) w =
          >>-IsTimed w (happen d f k h w) (history d f k hs) (happen-IsTimed h w)
            (history-IsTimed hs (happen d f k h w).0)

      -- As long as a worker still runs, it has reported one latency for each request that was
      -- answered, by a value or by an exception, and no other.
      pub latencies-answered :
          (hs : List (Happening D R)) (w : Worker W)
          → (history d f k hs w).0.running ≡ true
          → latencies (history d f k hs w).1 ≡ answered (history d f k hs w).1
      latencies-answered hs w r = (history-IsTimed hs w).timed r
