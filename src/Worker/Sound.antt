-- ===== src/Worker/Sound.antt =====
-- The count of outstanding requests is right, and the connections take turns.
use treadmill.Prelude.{
  ℕ, suc, ◌+◌, ◌%◌, ◌≤◌, ◌<◌, ◌≡◌, refl, ap, ◌&&◌, Option, none, some, Option-cases, List, [], ◌∷◌,
  inl, inr, length, arith, if-intro, String,
}
use treadmill.Prelude.Int.{ℤ, ltb_ℤ, int_laws}
use native.Mathlib.Nat.{mod-add-mod}
use treadmill.Double.{Double}
use treadmill.Event.{Dynamic, EventType}
use treadmill.Worker.{
  Workload, InFlight, Worker, Try, Effect, make_worker, set_off, sender_loop, begun, find, remove,
  on_reply, on_uncaught, dispatch, stop,
}
use treadmill.Worker.Handlers.{
  Turn, on_ready, on_escaped, send_next, send_request, on_event, message_available,
}
use treadmill.Worker.Histories.{Happening, receives, replies, escapes, is_stopped, happen, history}
use treadmill.Worker.Quiet.{IsQuiet, report-IsQuiet}

-- Newest first, with numbers below `n`.
abbrev pub Below : ℕ → List InFlight → Type 0
Below n [] = Unit {0}
Below n (x ∷ xs) = (x.number < n) × Below x.number xs

Below-mono : (m n : ℕ) (xs : List InFlight) → m ≤ n → Below m xs → Below n xs
Below-mono m n [] h b = tt
Below-mono m n (x ∷ xs) h b = (omega arith, b.1)

remove-Below : (k n : ℕ) (xs : List InFlight) → Below n xs → Below n (remove k xs)
unfolding remove
remove-Below k n [] b = tt
remove-Below k n (x ∷ xs) b =
    ground (arith, remove-Below k x.number xs b.1, Below-mono x.number n xs)

length-remove :
    (k : ℕ) (xs : List InFlight) (x : InFlight)
    → find k xs ≡ some x
    → (x.number ≡ k) × (length xs ≡ suc (length (remove k xs)))
unfolding find remove
length-remove k [] x e = cc
length-remove k (y ∷ xs) x e = ground (arith, length-remove k xs x)

pub record IsSound {W : Type 0} (w : Worker W) : Type 0 where
  -- outstanding_requests_ counts the requests in flight, which all have different numbers.
  pub balanced : w.outstanding_requests ≡ ℤ.pos (length w.in_flight)
  pub numbered : Below w.sent w.in_flight
  -- conn_idx_ is where the next request goes: the connections take turns.
  pub turn : w.conn_idx ≡ w.sent % w.number_of_connections

pub IsQuiet-IsSound : {W : Type 0} {w w' : Worker W} → IsQuiet w w' → IsSound w → IsSound w'
IsQuiet-IsSound q v = record {
  balanced = rw (q.outstanding_requests, q.in_flight) v.balanced;
  numbered = rw (q.sent, q.in_flight) v.numbered;
  turn = rw (q.conn_idx, q.sent, q.number_of_connections) v.turn;
}

next_turn : (n c s : ℕ) → c ≡ s % n → (c + 1) % n ≡ suc s % n
next_turn n c s h = rw (h, mod-add-mod s n 1) (ap (λ (x : ℕ). x % n) (omega arith))

module _ {W : Type 0} (F Q R : Type 0) where
  dispatch-IsSound :
      (send_time : ℤ) (q : Q) (k : W) (w : Worker W)
      → IsSound w
      → IsSound (dispatch {F = F} {R = R} send_time q k w).0
  unfolding dispatch
  dispatch-IsSound send_time q k w v = record {
    balanced = rw v.balanced (omega int_laws);
    numbered = (omega arith, v.numbered);
    turn = next_turn w.number_of_connections w.conn_idx w.sent v.turn;
  }

  on_reply-IsSound :
      (f : Double F) (n : ℕ) (recv_time : ℤ) (t : Try R) (w : Worker W)
      → IsSound w
      → IsSound (on_reply {Q = Q} f n recv_time t w).0
  unfolding on_reply
  on_reply-IsSound f n recv_time t w v = elim (Option-cases (find n w.in_flight)) [
    | inl e ↦ rw (e, on_reply) v
    | inr (x, e) ↦
        rw (e, on_reply)
          (let (num, len) = length-remove n w.in_flight x e in
            record {
              balanced = rw (num, v.balanced, len) (omega int_laws);
              numbered = remove-Below x.number w.sent w.in_flight v.numbered;
              turn = v.turn;
            })
  ]

  on_ready-IsSound :
      (f : Double F) (n : ℕ) (recv_time : ℤ) (t : Option (Try R)) (w : Worker W)
      → IsSound w
      → IsSound (on_ready {Q = Q} f n recv_time t w).0
  on_ready-IsSound f n recv_time none w v = v
  on_ready-IsSound f n recv_time (some t) w v = on_reply-IsSound f n recv_time t w v

  on_escaped-IsSound :
      (c : Option String) (w : Worker W)
      → IsSound w
      → IsSound (on_escaped {F = F} {Q = Q} {R = R} c w).0
  unfolding on_uncaught
  on_escaped-IsSound none w v = v
  on_escaped-IsSound (some c) w v = record {
    balanced = v.balanced;
    numbered = v.numbered;
    turn = v.turn;
  }

  send_next-IsSound :
      (f : Double F) (i : Turn R) (next : Option Q × W) (w : Worker W)
      → IsSound w
      → IsSound (send_next f i next w).0
  unfolding send_next
  send_next-IsSound f i (none, k) w v = record {
    balanced = v.balanced;
    numbered = v.numbered;
    turn = v.turn;
  }
  send_next-IsSound f i (some q, k) w v = IsQuiet-IsSound (report-IsQuiet Q R f i.now _) (
      on_escaped-IsSound i.escaped _
        (on_ready-IsSound f w.sent i.recv_time i.ready _ (dispatch-IsSound i.send_time q k w v)))

  module _ {D : Type 0} (d : Dynamic D) (f : Double F) (k : Workload D W Q) where
    send_request-IsSound :
        (i : Turn R) (w : Worker W) → IsSound w → IsSound (send_request f k i w).0
    unfolding send_request
    send_request-IsSound i w v =
        if-intro (λ (m : Worker W × List (Effect F Q R)). IsSound m.0)
          (ltb_ℤ w.outstanding_requests w.max_outstanding_requests && w.running)
          (send_next-IsSound f i (k.get_next_request w.workload) w v)
          (IsQuiet-IsSound (report-IsQuiet Q R f i.now w) v)

    on_event-IsSound :
        (i : Turn R) (e : EventType) (x : D) (w : Worker W)
        → IsSound w
        → IsSound (on_event f k d i e x w).0
    unfolding on_event
    on_event-IsSound i EventType.send_request x w v = send_request-IsSound i w v
    on_event-IsSound i _ x w v = ground arith

    pub happen-IsSound :
        (h : Happening D R) (w : Worker W) → IsSound w → IsSound (happen d f k h w).0
    unfolding happen message_available stop
    happen-IsSound (receives i e) w v =
        if-intro (λ (m : Worker W × List (Effect F Q R)). IsSound m.0) w.running
          (on_event-IsSound i e.event_type e.extra_data w v)
          (record { balanced = v.balanced; numbered = v.numbered; turn = v.turn })
    happen-IsSound (replies n recv_time t) w v = on_reply-IsSound f n recv_time t w v
    happen-IsSound (escapes c) w v = on_escaped-IsSound (some c) w v
    happen-IsSound is_stopped w v = record {
      balanced = v.balanced;
      numbered = v.numbered;
      turn = v.turn;
    }

    history-IsSound :
        (hs : List (Happening D R)) (w : Worker W) → IsSound w → IsSound (history d f k hs w).0
    unfolding history
    history-IsSound [] w v = v
    history-IsSound (h ∷ hs) w v = history-IsSound hs (happen d f k h w).0 (happen-IsSound h w v)

    -- After any history of a new worker that was started, outstanding_requests_ is the number of
    -- requests sent whose reply has not come; these have different numbers; and the next request,
    -- the one with number m, goes to connection m modulo the number of connections.
    pub history-begun-IsSound :
        (hs : List (Happening D R)) (now id workers : ℤ) (connections : ℕ) (limit : ℤ) (config : D)
        → 0 < connections
        → IsSound (history d f k hs (begun now k id workers connections limit config)).0
    unfolding make_worker set_off sender_loop
    history-begun-IsSound hs now id workers connections limit config some' =
        history-IsSound hs _ (record { balanced = refl; numbered = tt; turn = omega arith })
