-- ===== src/Assembly/Order.antt =====
-- Each worker takes the messages of its queue in order, sends at most one request for each that
-- asks for one, and does not run any more once it has taken STOP.
use treadmill.Prelude.{
  ℕ, ◌+◌, ◌≤◌, ◌≡◌, refl, ap, ◌∙◌, Bool, Bool-cases, false, true, ◌&&◌, ◌||◌, some, Option-cases,
  List, [], ◌∷◌, ◌++◌, inl, inr, get_elem?, get_elem?-map, get_elem?-All, All, subst, arith,
  if◌then◌else◌,
}
use mathlib.Core.List.{append_assoc}
use treadmill.Double.{Double}
use treadmill.Event.{Dynamic, Event}
use treadmill.Result.{ok}
use treadmill.Scheduler.{Scheduler}
use treadmill.Scheduler.RoundRobin.{queue}
use treadmill.Worker.{Workload, Worker, stop, on_reply, on_uncaught}
use treadmill.Worker.Handlers.{message_available}
use treadmill.Assembly.{
  Consumer, Assembly, Move, acts, takes, replies, escapes, halts, next_message, take_message, serve,
  move_all, assemble,
}
use treadmill.Assembly.Turns.{
  is_request, is_stop, on_reply-IsIdle, IsTaken, message_available-IsTaken,
}
use treadmill.Assembly.Served.{EachServed, move_all_keeps}

module _ {D : Type 0} where
  -- The messages that ask for a request, and whether STOP is among messages.
  abbrev pub requests : List (Event D) → ℕ
  requests [] = 0
  requests (e ∷ q) = (if is_request e.event_type then 1 else 0) + requests q

  abbrev pub has_stop : List (Event D) → Bool
  has_stop [] = false
  has_stop (e ∷ q) = is_stop e.event_type || has_stop q

  requests-append : (xs ys : List (Event D)) → requests (xs ++ ys) ≡ requests xs + requests ys
  requests-append [] ys = omega arith
  requests-append (x ∷ xs) ys = omega (arith, requests-append xs ys)

  has_stop-append : (xs ys : List (Event D)) → has_stop (xs ++ ys) ≡ (has_stop xs || has_stop ys)
  has_stop-append [] ys = refl
  has_stop-append (x ∷ xs) ys = ground (arith, has_stop-append xs ys)

  -- The next message stands behind those consumed.
  next_message-some :
      (consumed rest : List (Event D)) (e : Event D)
      → next_message consumed (consumed ++ rest) ≡ some e
      → (rest' : List (Event D)) × (rest ≡ e ∷ rest')
  next_message-some [] [] e h = cc
  next_message-some [] (x ∷ rest) e h = (rest, ground arith)
  next_message-some (x ∷ consumed) rest e h = next_message-some consumed rest e h

and_mono : (b x y : Bool) → (x ≡ false → y ≡ false) → (b && x) ≡ false → (b && y) ≡ false
and_mono true x y f h = f h
and_mono false x y f h = refl

and_false : (b : Bool) → (b && false) ≡ false
and_false b = ground arith

or_false : (b : Bool) → (b || false) ≡ b
or_false b = ground arith

-- A worker and its queue.
pub record IsServed {D W : Type 0} (q : List (Event D)) (c : Consumer D W) : Type 0 where
  pub rest : List (Event D)
  pub in_order : q ≡ c.consumed ++ rest
  pub at_most : c.worker.sent ≤ requests c.consumed
  pub at_rest : (has_stop c.consumed && c.worker.running) ≡ false

module _ {D W : Type 0} where
  grows-IsServed :
      (q extra : List (Event D)) (c : Consumer D W) → IsServed q c → IsServed (q ++ extra) c
  grows-IsServed q extra c h = record {
    rest = h.rest ++ extra;
    in_order = rw (h.in_order, append_assoc) refl;
    at_most = h.at_most;
    at_rest = h.at_rest;
  }

  -- What a callback leaves: no request more, and a worker that runs only if it did.
  idle-IsServed :
      (q : List (Event D)) (c : Consumer D W) (w : Worker W)
      → w.sent ≡ c.worker.sent
      → (c.worker.running ≡ false → w.running ≡ false)
      → IsServed q c
      → IsServed q (record c { worker = w })
  idle-IsServed q c w s r h = record {
    rest = h.rest;
    in_order = h.in_order;
    at_most = omega (arith, h.at_most, s);
    at_rest = and_mono (has_stop c.consumed) c.worker.running w.running r h.at_rest;
  }

  taken-IsServed :
      (q : List (Event D)) (c : Consumer D W) (e : Event D) (w : Worker W)
      → next_message c.consumed q ≡ some e
      → IsTaken e.event_type c.worker w
      → IsServed q c
      → IsServed q (record { worker = w; consumed = c.consumed ++ e ∷ [] })
  taken-IsServed q c e w n t h =
      let (rest, r) =
        next_message-some c.consumed h.rest e
          (subst (λ l. next_message c.consumed l ≡ some e) h.in_order n) in
      record {
        rest = rest;
        in_order = rw (h.in_order, r, append_assoc) refl;
        at_most =
            rw (requests-append c.consumed (e ∷ [])) (elim (Bool-cases (is_request e.event_type)) [
              | inl y ↦ rw y (omega (arith, t.at_most, h.at_most))
              | inr y ↦ rw y (omega (arith, t.none_else y, h.at_most))
            ]);
        at_rest =
            rw (has_stop-append c.consumed (e ∷ [])) (elim (Bool-cases (is_stop e.event_type)) [
              | inl y ↦ rw (y, t.stopped y) (and_false (has_stop c.consumed || true))
              | inr y ↦
                  rw (y, or_false (has_stop c.consumed))
                    (and_mono (has_stop c.consumed) c.worker.running w.running t.halted h.at_rest)
            ]);
      }

module _ {D F W Q : Type 0} (R : Type 0) ⦃d : Dynamic D⦄ ⦃f : Double F⦄ (k : Workload D W Q) where
  serve-IsServed :
      (v : Move F R) (q : List (Event D)) (c : Consumer D W)
      → IsServed q c
      → IsServed q (serve {Q = Q} k v q c).0
  unfolding serve take_message on_uncaught stop
  serve-IsServed (acts a) q c h = h
  serve-IsServed (takes i t) q c h = elim (Bool-cases c.worker.consuming) [
    | inr y ↦ rw (y, serve) h
    | inl y ↦ elim (Option-cases (next_message c.consumed q)) [
      | inl n ↦ rw (y, n, serve) h
      | inr (e, n) ↦
          rw (y, n, serve)
            (taken-IsServed q c e (message_available f k d t e c.worker).0 n
              (message_available-IsTaken F R d f k t e c.worker) h)
    ]
  ]
  serve-IsServed (replies i n recv_time t) q c h =
      let s = on_reply-IsIdle F Q R f n recv_time t c.worker in
      idle-IsServed q c (on_reply {Q = Q} f n recv_time t c.worker).0 s.sent (λ r. s.running ∙ r) h
  serve-IsServed (escapes i x) q c h = idle-IsServed q c (on_uncaught x c.worker) refl (λ r. r) h
  serve-IsServed (halts i) q c h =
      idle-IsServed q c (stop {F = F} {Q = Q} {R = R} c.worker).0 refl (λ r. refl) h

  -- After any history of a scheduler with workers that have sent nothing yet, the messages that a
  -- worker has taken are the first of its queue, in order; it has sent at most as many requests as
  -- it has taken messages that ask for one, of which there are no more than in its queue; and it
  -- does not run if it has taken a STOP.
  pub move_all-IsServed :
      (b : Bool) (s : Scheduler D) (ws : List (Worker W)) (vs : List (Move F R)) (z : Assembly D W)
      (i : ℕ) (c : Consumer D W)
      → All (λ w. w.sent ≡ 0) ws
      → move_all {Q = Q} k b vs (assemble s ws) ≡ ok z
      → get_elem? z.consumers i ≡ some c
      → ((rest : List (Event D)) × (queue z.system.scheduler i ≡ c.consumed ++ rest))
        × (c.worker.sent ≤ requests c.consumed)
        × (requests c.consumed ≤ requests (queue z.system.scheduler i))
        × ((has_stop c.consumed && c.worker.running) ≡ false)
  move_all-IsServed b s ws vs z i c none_sent e n =
      let start : EachServed (λ j. IsServed) (assemble s ws) = λ j x m.
        let (w, wm, same) =
          get_elem?-map (λ (w : Worker W). record { worker = w; consumed = [] }) ws j x m in
        let sent = get_elem?-All (λ (w : Worker W). w.sent ≡ 0) ws j w none_sent wm in
        subst (IsServed (queue s j)) same (record {
          rest = queue s j;
          in_order = refl;
          at_most = omega (arith, sent);
          at_rest = refl;
        }) in
      let h =
        move_all_keeps k (λ j. IsServed) (λ j. grows-IsServed) (λ j. serve-IsServed) b vs
          (assemble s ws) z e start i c n in
      (
        (h.rest, h.in_order),
        h.at_most,
        omega (arith, ap requests h.in_order, requests-append c.consumed h.rest),
        h.at_rest,
      )
