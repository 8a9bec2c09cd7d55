-- ===== src/Worker/Accounting.antt =====
-- Every failed reply is counted once, under the class of its exception.
use Prim.Native.Nat.{◌+◌}
use text.Mathlib.Text.{◌==◌ as str_eq}
use treadmill.Prelude.{
  ℕ, ◌≡◌, refl, ap, ◌&&◌, Option, none, some, Option-cases, String, List, [], ◌∷◌, ◌++◌, inl, inr,
  arith, if◌then◌else◌, if-intro,
}
use treadmill.Prelude.Int.{ℤ, ltb_ℤ}
use treadmill.Prelude.Dict.{Dict, count_of, count_of-bump, count_of-empty}
use treadmill.Double.{Double}
use treadmill.Event.{Dynamic, EventType}
use treadmill.Worker.{
  Workload, Worker, InFlight, make_worker, set_off, sender_loop, begun, Try, value, exception,
  Effect, sets_exception, sets_counter, increases_exceptions, exception_effects, uncaught_effects,
  find, complete, on_reply, on_uncaught, dispatch, estimate, flush_exceptions, report, stop,
}
use treadmill.Worker.Handlers.{
  Turn, ◌>>◌, on_ready, on_escaped, send_next, send_request, on_event, message_available,
}
use treadmill.Worker.Histories.{Happening, receives, replies, escapes, is_stopped, happen, history}

module _ {F Q R : Type 0} (c : String) where
  -- What the effects add to the statistic of exceptions under the class `c`.
  abbrev pub reported : List (Effect F Q R) → ℕ
  reported [] = 0
  reported (increases_exceptions n k ∷ es) = (if str_eq k c then n else 0) + reported es
  reported (_ ∷ es) = reported es

  -- How many promises the effects break with an exception of class `c`.
  abbrev pub failed : List (Effect F Q R) → ℕ
  failed [] = 0
  failed (sets_exception n k ∷ es) = (if str_eq k c then 1 else 0) + failed es
  failed (_ ∷ es) = failed es

  pub reported-append :
      (xs ys : List (Effect F Q R)) → reported (xs ++ ys) ≡ reported xs + reported ys
  reported-append [] ys = omega arith
  reported-append (increases_exceptions n k ∷ xs) ys = omega (arith, reported-append xs ys)
  reported-append (_ ∷ xs) ys = reported-append xs ys

  pub failed-append : (xs ys : List (Effect F Q R)) → failed (xs ++ ys) ≡ failed xs + failed ys
  failed-append [] ys = omega arith
  failed-append (sets_exception n k ∷ xs) ys = omega (arith, failed-append xs ys)
  failed-append (_ ∷ xs) ys = failed-append xs ys

-- The exceptions waiting to be reported.
abbrev pub waiting : {W : Type 0} → String → Worker W → ℕ
waiting c w = count_of c w.n_exceptions_by_type

-- What was waiting and what failed is what was reported and what is waiting.
abbrev pub IsAccounted :
    {F W Q R : Type 0} → String → Worker W → Worker W × List (Effect F Q R) → Type 0
IsAccounted c w m = reported c m.1 + waiting c m.0 ≡ waiting c w + failed c m.1

module _ (F Q R : Type 0) (c : String) where
  abbrev Effects : Type 0
  Effects = List (Effect F Q R)

  reported-exceptions :
      (m : Dict ℕ) → reported {F = F} {Q = Q} {R = R} c (exception_effects m) ≡ count_of c m
  unfolding count_of
  reported-exceptions [] = refl
  reported-exceptions ((k, n) ∷ m) = ground (arith, reported-exceptions m)

  pub failed-exceptions : (m : Dict ℕ) → failed {F = F} {Q = Q} {R = R} c (exception_effects m) ≡ 0
  failed-exceptions [] = refl
  failed-exceptions ((k, n) ∷ m) = failed-exceptions m

  reported-uncaught : (m : Dict ℕ) → reported {F = F} {Q = Q} {R = R} c (uncaught_effects m) ≡ 0
  reported-uncaught [] = refl
  reported-uncaught ((k, n) ∷ m) = reported-uncaught m

  pub failed-uncaught : (m : Dict ℕ) → failed {F = F} {Q = Q} {R = R} c (uncaught_effects m) ≡ 0
  failed-uncaught [] = refl
  failed-uncaught ((k, n) ∷ m) = failed-uncaught m

  module _ {W : Type 0} where
    >>-IsAccounted :
        (w : Worker W) (m : Worker W × Effects) (g : Worker W → Worker W × Effects)
        → IsAccounted c w m
        → IsAccounted c m.0 (g m.0)
        → IsAccounted c w (m >> g)
    >>-IsAccounted w m g h k =
        omega (arith, reported-append c m.1 (g m.0).1, failed-append c m.1 (g m.0).1)

    estimate-silent :
        (f : Double F) (t : ℤ) (w : Worker W)
        → let m : Worker W × Effects = estimate f t w in
          (reported c m.1 ≡ 0)
          × (failed c m.1 ≡ 0)
          × (m.0.n_exceptions_by_type ≡ w.n_exceptions_by_type)
    unfolding estimate
    estimate-silent f t w = (ground arith, ground arith, ground arith)

    flush-IsAccounted :
        (w : Worker W) → IsAccounted {F = F} {W = W} {Q = Q} {R = R} c w (flush_exceptions w)
    unfolding flush_exceptions
    flush-IsAccounted w =
        let es : Effects = exception_effects w.n_exceptions_by_type in
        let us : Effects = uncaught_effects w.n_uncaught_exceptions_by_type in
        omega (
          arith,
          reported-append c es us,
          failed-append c es us,
          reported-exceptions w.n_exceptions_by_type,
          failed-exceptions w.n_exceptions_by_type,
          reported-uncaught w.n_uncaught_exceptions_by_type,
          failed-uncaught w.n_uncaught_exceptions_by_type,
          count_of-empty c,
        )

    report-IsAccounted :
        (f : Double F) (t : ℤ) (w : Worker W)
        → IsAccounted {F = F} {W = W} {Q = Q} {R = R} c w (report f t w)
    unfolding report
    report-IsAccounted f t w =
        let m₁ : Worker W × Effects = estimate f t w in
        let m₂ : Worker W × Effects = flush_exceptions m₁.0 in
        let quiet = estimate-silent f t w in
        let last : Effects = sets_counter m₂.0.outstanding_requests ∷ [] in
        omega (
          arith,
          reported-append c (m₁.1 ++ m₂.1) last,
          failed-append c (m₁.1 ++ m₂.1) last,
          >>-IsAccounted w m₁ flush_exceptions
              (omega (arith, quiet.0, quiet.1, ap (count_of c) quiet.2)) (flush-IsAccounted m₁.0),
        )

    complete-IsAccounted :
        (f : Double F) (x : InFlight) (recv_time : ℤ) (t : Try R) (w : Worker W)
        → IsAccounted {F = F} {W = W} {Q = Q} {R = R} c w (complete f x recv_time t w)
    unfolding complete
    complete-IsAccounted f x recv_time (value r) w = ground arith
    complete-IsAccounted f x recv_time (exception k) w =
        ground (arith, count_of-bump c k w.n_exceptions_by_type)

    on_reply-IsAccounted :
        (f : Double F) (n : ℕ) (recv_time : ℤ) (t : Try R) (w : Worker W)
        → IsAccounted {F = F} {W = W} {Q = Q} {R = R} c w (on_reply f n recv_time t w)
    unfolding on_reply
    on_reply-IsAccounted f n recv_time t w = elim (Option-cases (find n w.in_flight)) [
      | inl e ↦ rw (e, on_reply) (omega arith)
      | inr (x, e) ↦ rw (e, on_reply) (complete-IsAccounted f x recv_time t w)
    ]

    on_ready-IsAccounted :
        (f : Double F) (n : ℕ) (recv_time : ℤ) (t : Option (Try R)) (w : Worker W)
        → IsAccounted {F = F} {W = W} {Q = Q} {R = R} c w (on_ready f n recv_time t w)
    on_ready-IsAccounted f n recv_time none w = omega arith
    on_ready-IsAccounted f n recv_time (some t) w = on_reply-IsAccounted f n recv_time t w

    on_escaped-IsAccounted :
        (x : Option String) (w : Worker W)
        → IsAccounted {F = F} {W = W} {Q = Q} {R = R} c w (on_escaped x w)
    unfolding on_uncaught
    on_escaped-IsAccounted none w = omega arith
    on_escaped-IsAccounted (some x) w = omega arith

    dispatch-IsAccounted :
        (send_time : ℤ) (q : Q) (k : W) (w : Worker W)
        → IsAccounted {F = F} {W = W} {Q = Q} {R = R} c w (dispatch send_time q k w)
    unfolding dispatch
    dispatch-IsAccounted send_time q k w = omega arith

    send_next-IsAccounted :
        (f : Double F) (i : Turn R) (next : Option Q × W) (w : Worker W)
        → IsAccounted {F = F} {W = W} {Q = Q} {R = R} c w (send_next f i next w)
    unfolding send_next
    send_next-IsAccounted f i (none, k) w = omega arith
    send_next-IsAccounted f i (some q, k) w =
        let m₁ : Worker W × Effects = dispatch i.send_time q k w in
        let m₂ : Worker W × Effects = m₁ >> on_ready f w.sent i.recv_time i.ready in
        let m₃ : Worker W × Effects = m₂ >> on_escaped i.escaped in
        >>-IsAccounted w m₃ (report f i.now)
          (>>-IsAccounted w m₂ (on_escaped i.escaped)
            (>>-IsAccounted w m₁ (on_ready f w.sent i.recv_time i.ready)
              (dispatch-IsAccounted i.send_time q k w)
              (on_ready-IsAccounted f w.sent i.recv_time i.ready m₁.0))
            (on_escaped-IsAccounted i.escaped m₂.0))
          (report-IsAccounted f i.now m₃.0)

    module _ {D : Type 0} (d : Dynamic D) (f : Double F) (k : Workload D W Q) where
      on_event-IsAccounted :
          (i : Turn R) (e : EventType) (x : D) (w : Worker W)
          → IsAccounted c w (on_event f k d i e x w)
      unfolding on_event send_request
      on_event-IsAccounted i EventType.send_request x w =
          if-intro (IsAccounted c w)
            (ltb_ℤ w.outstanding_requests w.max_outstanding_requests && w.running)
            (send_next-IsAccounted f i (k.get_next_request w.workload) w)
            (report-IsAccounted f i.now w)
      on_event-IsAccounted i _ x w = ground arith

      happen-IsAccounted : (h : Happening D R) (w : Worker W) → IsAccounted c w (happen d f k h w)
      unfolding happen message_available stop
      happen-IsAccounted (receives i e) w =
          if-intro (IsAccounted c w) w.running (on_event-IsAccounted i e.event_type e.extra_data w)
            (omega arith)
      happen-IsAccounted (replies n recv_time t) w = on_reply-IsAccounted f n recv_time t w
      happen-IsAccounted (escapes x) w = on_escaped-IsAccounted (some x) w
      happen-IsAccounted is_stopped w = omega arith

      pub history-IsAccounted :
          (hs : List (Happening D R)) (w : Worker W) → IsAccounted c w (history d f k hs w)
      unfolding history
      history-IsAccounted [] w = omega arith
      history-IsAccounted (h ∷ hs) w =
          >>-IsAccounted w (happen d f k h w) (history d f k hs) (happen-IsAccounted h w)
            (history-IsAccounted hs (happen d f k h w).0)

-- Over any history of a new worker that was started, for each class of exceptions: the replies that
-- failed with it are those that the statistic was told of and those that are still to be reported.
-- None is counted twice and none is lost on the way.
pub reported-failed :
    {D F W Q R : Type 0} (c : String) (d : Dynamic D) (f : Double F) (k : Workload D W Q)
    (hs : List (Happening D R)) (now id workers : ℤ) (connections : ℕ) (limit : ℤ) (config : D)
    → let m = history d f k hs (begun now k id workers connections limit config) in
      reported c m.1 + waiting c m.0 ≡ failed c m.1
unfolding make_worker set_off sender_loop count_of
reported-failed {F = F} {Q = Q} {R = R} c d f k hs now id workers connections limit config =
    omega (arith, history-IsAccounted F Q R c d f k hs _)
