-- ===== src/Worker/Stopping.antt =====
-- A worker that was stopped: nothing more is sent, and what it has left to do.
use treadmill.Prelude.{
  ℕ, ◌+◌, ◌<◌, ◌≡◌, refl, ◌∙◌, false, ◌||◌, Option-cases, String, List, [], ◌∷◌, length, inl, inr,
  arith, ltb,
}
use treadmill.Prelude.Int.{ℤ}
use treadmill.Double.{Double}
use treadmill.Event.{Dynamic}
use treadmill.Worker.{
  Workload, Worker, Try, value, exception, InFlight, Effect, begun, has_more_work, find, complete,
  on_reply, on_uncaught, stop,
}
use treadmill.Worker.Handlers.{message_available}
use treadmill.Worker.Histories.{Happening, receives, replies, escapes, is_stopped, happen, history}
use treadmill.Worker.Sound.{history-begun-IsSound}
use treadmill.Worker.Accounting.{reported, reported-append, failed, waiting, history-IsAccounted}

-- hasMoreWork() is true exactly while the worker runs or some reply is still to come.
pub has_more_work-in_flight :
    {D F W Q R : Type 0} (d : Dynamic D) (f : Double F) (k : Workload D W Q)
    (hs : List (Happening D R)) (now id workers : ℤ) (connections : ℕ) (limit : ℤ) (config : D)
    → 0 < connections
    → let w : Worker W =
        (history {Q = Q} d f k hs (begun now k id workers connections limit config)).0 in
      has_more_work w ≡ (w.running || ltb 0 (length w.in_flight))
unfolding has_more_work
has_more_work-in_flight {F = F} {Q = Q} {R = R} d f k hs now id workers connections limit config
      some' =
    rw
      ((history-begun-IsSound F Q R d f k hs now id workers connections limit config
        some').balanced)
      (ground arith)

module _ {D F W Q R : Type 0} (c : String) (d : Dynamic D) (f : Double F) (k : Workload D W Q) where
  -- Neither runs again, nor sends, nor reports exceptions of class `c`.
  record IsHalted (w : Worker W) (m : Worker W × List (Effect F Q R)) : Type 0 where
    halted : m.0.running ≡ false
    sent : m.0.sent ≡ w.sent
    silent : reported c m.1 ≡ 0

  complete-IsHalted :
      (x : InFlight) (recv_time : ℤ) (t : Try R) (w : Worker W)
      → w.running ≡ false
      → IsHalted w (complete f x recv_time t w)
  unfolding complete
  complete-IsHalted x recv_time (value r) w h = ground arith
  complete-IsHalted x recv_time (exception e) w h = ground arith

  happen-IsHalted :
      (h : Happening D R) (w : Worker W) → w.running ≡ false → IsHalted w (happen d f k h w)
  unfolding happen message_available stop on_uncaught on_reply
  happen-IsHalted (receives i e) w r = ground arith
  happen-IsHalted (replies n recv_time t) w r = elim (Option-cases (find n w.in_flight)) [
    | inl e ↦ rw (e, on_reply) (record { halted = r; sent = refl; silent = refl })
    | inr (x, e) ↦ rw (e, on_reply) (complete-IsHalted x recv_time t w r)
  ]
  happen-IsHalted (escapes x) w r = record { halted = r; sent = refl; silent = refl }
  happen-IsHalted is_stopped w r = record { halted = refl; sent = refl; silent = refl }

  history-IsHalted :
      (hs : List (Happening D R)) (w : Worker W)
      → w.running ≡ false
      → IsHalted w (history d f k hs w)
  unfolding history
  history-IsHalted [] w r = record { halted = r; sent = refl; silent = refl }
  history-IsHalted (h ∷ hs) w r =
      let first = happen-IsHalted h w r in
      let rest = history-IsHalted hs (happen d f k h w).0 first.halted in
      record {
        halted = rest.halted;
        sent = rest.sent ∙ first.sent;
        silent = omega (
          arith,
          reported-append c (happen d f k h w).1 (history d f k hs (happen d f k h w).0).1,
          first.silent,
          rest.silent,
        );
      }

  -- After a worker has stopped, whatever reaches it, it never runs again, it sends nothing more,
  -- and it never reports an exception: those of replies that fail from then on, and those that were
  -- waiting, stay in n_exceptions_by_type_ and never reach the statistic.
  pub stopped-history :
      (hs : List (Happening D R)) (w : Worker W)
      → w.running ≡ false
      → let m = history d f k hs w in
        (m.0.running ≡ false)
        × (m.0.sent ≡ w.sent)
        × (reported c m.1 ≡ 0)
        × (waiting c m.0 ≡ waiting c w + failed c m.1)
  stopped-history hs w r =
      let v = history-IsHalted hs w r in
      (v.halted, v.sent, v.silent, omega (arith, history-IsAccounted F Q R c d f k hs w, v.silent))
