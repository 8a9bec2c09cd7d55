-- ===== src/Worker/Unfailed.antt =====
-- A worker whose requests never fail has no exceptions to report.
use treadmill.Prelude.{
  ℕ, ◌≡◌, refl, ◌&&◌, Option, none, some, String, List, [], ◌∷◌, ◌++◌, All, arith, if-intro,
}
use treadmill.Prelude.Int.{ℤ, ltb_ℤ}
use treadmill.Double.{Double}
use treadmill.Event.{Dynamic, EventType}
use treadmill.Worker.{
  Workload, Worker, begun, value, exception, Effect, sets_counter, exception_effects,
  uncaught_effects, complete, on_reply, dispatch, estimate, flush_exceptions, report, stop,
}
use treadmill.Worker.Handlers.{Turn, ◌>>◌, send_next, send_request, on_event, message_available}
use treadmill.Worker.Histories.{Happening, receives, replies, escapes, is_stopped, happen, history}
use treadmill.Worker.Accounting.{
  reported, failed, waiting, failed-append, failed-exceptions, failed-uncaught, reported-failed,
}

-- No reply is there at once, and none fails.
abbrev pub IsCalm : {D R : Type 0} → Happening D R → Type 0
IsCalm (receives i e) = (i.ready ≡ none) × (i.escaped ≡ none)
IsCalm (replies n recv_time (value r)) = Unit
IsCalm (replies n recv_time (exception c)) = ⊥
IsCalm (escapes c) = ⊥
IsCalm is_stopped = Unit

module _ (F Q R : Type 0) (c : String) {W : Type 0} where
  abbrev IsUnfailed : Worker W × List (Effect F Q R) → Type 0
  IsUnfailed m = failed c m.1 ≡ 0

  >>-IsUnfailed :
      (m : Worker W × List (Effect F Q R)) (g : Worker W → Worker W × List (Effect F Q R))
      → IsUnfailed m
      → IsUnfailed (g m.0)
      → IsUnfailed (m >> g)
  >>-IsUnfailed m g h k = omega (arith, failed-append c m.1 (g m.0).1)

  flush-IsUnfailed : (w : Worker W) → IsUnfailed (flush_exceptions w)
  unfolding flush_exceptions
  flush-IsUnfailed w = omega (
    arith,
    failed-append c (exception_effects {F = F} {Q = Q} {R = R} w.n_exceptions_by_type)
        (uncaught_effects w.n_uncaught_exceptions_by_type),
    failed-exceptions F Q R c w.n_exceptions_by_type,
    failed-uncaught F Q R c w.n_uncaught_exceptions_by_type,
  )

  estimate-IsUnfailed : (f : Double F) (t : ℤ) (w : Worker W) → IsUnfailed (estimate f t w)
  unfolding estimate
  estimate-IsUnfailed f t w = ground arith

  report-IsUnfailed : (f : Double F) (t : ℤ) (w : Worker W) → IsUnfailed (report f t w)
  unfolding report
  report-IsUnfailed f t w =
      let m₁ : Worker W × List (Effect F Q R) = estimate f t w in
      let m₂ : Worker W × List (Effect F Q R) = flush_exceptions m₁.0 in
      omega (
        arith,
        failed-append c (m₁.1 ++ m₂.1) (sets_counter m₂.0.outstanding_requests ∷ []),
        >>-IsUnfailed m₁ flush_exceptions (estimate-IsUnfailed f t w) (flush-IsUnfailed m₁.0),
      )

  on_reply-IsUnfailed :
      (f : Double F) (n : ℕ) (recv_time : ℤ) (r : R) (w : Worker W)
      → IsUnfailed (on_reply f n recv_time (value r) w)
  unfolding on_reply complete
  on_reply-IsUnfailed f n recv_time r w = ground arith

  send_next-IsUnfailed :
      (f : Double F) (i : Turn R) (next : Option Q × W) (w : Worker W)
      → i.ready ≡ none
      → i.escaped ≡ none
      → IsUnfailed (send_next f i next w)
  unfolding send_next dispatch
  send_next-IsUnfailed f i (none, k) w h e = refl
  send_next-IsUnfailed f i (some q, k) w h e =
      let m₁ : Worker W × List (Effect F Q R) = dispatch i.send_time q k w in
      rw (h, e)
        (>>-IsUnfailed (m₁.0, m₁.1 ++ [] ++ []) (report f i.now) refl
          (report-IsUnfailed f i.now m₁.0))

  module _ {D : Type 0} (d : Dynamic D) (f : Double F) (k : Workload D W Q) where
    on_event-IsUnfailed :
        (i : Turn R) (e : EventType) (x : D) (w : Worker W)
        → i.ready ≡ none
        → i.escaped ≡ none
        → IsUnfailed (on_event f k d i e x w)
    unfolding on_event send_request
    on_event-IsUnfailed i EventType.send_request x w h e =
        if-intro IsUnfailed (ltb_ℤ w.outstanding_requests w.max_outstanding_requests && w.running)
          (send_next-IsUnfailed f i (k.get_next_request w.workload) w h e)
          (report-IsUnfailed f i.now w)
    on_event-IsUnfailed i _ x w h e = ground arith

    happen-IsUnfailed :
        (h : Happening D R) (w : Worker W) → IsCalm h → IsUnfailed (happen d f k h w)
    unfolding happen message_available stop
    happen-IsUnfailed (receives i e) w calm =
        if-intro IsUnfailed w.running
          (on_event-IsUnfailed i e.event_type e.extra_data w calm.0 calm.1) refl
    happen-IsUnfailed (replies n recv_time (value r)) w calm = on_reply-IsUnfailed f n recv_time r w
    happen-IsUnfailed (replies n recv_time (exception x)) w calm = absurd calm
    happen-IsUnfailed (escapes x) w calm = absurd calm
    happen-IsUnfailed is_stopped w calm = refl

    history-IsUnfailed :
        (hs : List (Happening D R)) (w : Worker W) → All IsCalm hs → IsUnfailed (history d f k hs w)
    unfolding history
    history-IsUnfailed [] w calm = refl
    history-IsUnfailed (h ∷ hs) w calm =
        >>-IsUnfailed (happen d f k h w) (history d f k hs) (happen-IsUnfailed h w calm.0)
          (history-IsUnfailed hs (happen d f k h w).0 calm.1)

-- Without failures nothing is reported and nothing waits to be.
pub unreported :
    {D F W Q R : Type 0} (c : String) (d : Dynamic D) (f : Double F) (k : Workload D W Q)
    (hs : List (Happening D R)) (now id workers : ℤ) (connections : ℕ) (limit : ℤ) (config : D)
    → All IsCalm hs
    → let m = history d f k hs (begun now k id workers connections limit config) in
      (reported c m.1 ≡ 0) × (waiting c m.0 ≡ 0)
unreported {F = F} {Q = Q} {R = R} c d f k hs now id workers connections limit config calm = omega (
  arith,
  reported-failed {R = R} c d f k hs now id workers connections limit config,
  history-IsUnfailed F Q R c d f k hs (begun now k id workers connections limit config) calm,
)
