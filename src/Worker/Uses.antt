-- ===== src/Worker/Uses.antt =====
-- What a worker does with its workload, and which requests come of it.
use treadmill.Prelude.{
  ℕ, ◌≡◌, refl, sym, ap, ◌∙◌, ◌&&◌, Option, none, some, String, List, [], ◌∷◌, ◌++◌, arith,
  if-intro,
}
use treadmill.Prelude.Int.{ℤ, ltb_ℤ}
use treadmill.Prelude.Dict.{Dict}
use treadmill.Double.{Double}
use treadmill.Event.{Dynamic, EventType}
use treadmill.Worker.{
  Workload, Worker, Try, Effect, sends, sets_counter, exception_effects, uncaught_effects, complete,
  on_reply, on_uncaught, dispatch, estimate, flush_exceptions, report, stop,
}
use treadmill.Worker.Handlers.{
  Turn, ◌>>◌, on_ready, on_escaped, send_next, send_request, on_event, message_available,
}
use treadmill.Worker.Histories.{Happening, receives, replies, escapes, is_stopped, happen, history}

pub data Use : Type 0 where
  asks : Use
  resets : Use
  enters : String → Use

-- The requests that effects send, in order.
abbrev pub requests_of : {F Q R : Type 0} → List (Effect F Q R) → List Q
requests_of [] = []
requests_of (sends conn number q ∷ es) = q ∷ requests_of es
requests_of (_ ∷ es) = requests_of es

-- Requests in order, put on those before them, which stand with the newest first.
abbrev pub onto : {Q : Type 0} → List Q → List Q → List Q
onto [] rs = rs
onto (q ∷ qs) rs = onto qs (q ∷ rs)

-- A workload, with the requests that it gave so far, the newest first.
abbrev given : {W Q : Type 0} → Option Q × W → List Q → W × List Q
given (none, w) rs = (w, rs)
given (some q, w) rs = (w, q ∷ rs)

module _ {D W Q : Type 0} (k : Workload D W Q) where
  abbrev pub use_once : Use → W × List Q → W × List Q
  use_once asks (w, rs) = given (k.get_next_request w) rs
  use_once resets (w, rs) = (k.reset w, rs)
  use_once (enters phase) (w, rs) = (k.set_phase phase w, rs)

  abbrev pub use_all : List Use → W × List Q → W × List Q
  use_all [] t = t
  use_all (u ∷ us) t = use_all us (use_once u t)

  use_all-append :
      (us vs : List Use) (t : W × List Q) → use_all (us ++ vs) t ≡ use_all vs (use_all us t)
  use_all-append [] vs t = refl
  use_all-append (u ∷ us) vs t = use_all-append us vs (use_once u t)

  -- From `w` the worker and the effects of `m` are what uses of the workload come to.
  record IsUse {F R : Type 0} (w : Worker W) (m : Worker W × List (Effect F Q R)) : Type 0 where
    uses : List Use
    used : (rs : List Q) → use_all uses (w.workload, rs) ≡ (m.0.workload, onto (requests_of m.1) rs)

pub onto-append : {Q : Type 0} (xs ys rs : List Q) → onto (xs ++ ys) rs ≡ onto ys (onto xs rs)
onto-append [] ys rs = refl
onto-append (x ∷ xs) ys rs = onto-append xs ys (x ∷ rs)

module _ (F Q R : Type 0) where
  requests_of-append :
      (xs ys : List (Effect F Q R)) → requests_of (xs ++ ys) ≡ requests_of xs ++ requests_of ys
  requests_of-append [] ys = refl
  requests_of-append (sends conn number q ∷ xs) ys = ap (◌∷◌ q) (requests_of-append xs ys)
  requests_of-append (_ ∷ xs) ys = requests_of-append xs ys

  exceptions-requests :
      (m : Dict ℕ) → requests_of {F = F} {Q = Q} {R = R} (exception_effects m) ≡ []
  exceptions-requests [] = refl
  exceptions-requests ((c, n) ∷ m) = exceptions-requests m

  uncaught-requests : (m : Dict ℕ) → requests_of {F = F} {Q = Q} {R = R} (uncaught_effects m) ≡ []
  uncaught-requests [] = refl
  uncaught-requests ((c, n) ∷ m) = uncaught-requests m

  estimate-requests :
      {W : Type 0} (f : Double F) (t : ℤ) (w : Worker W)
      → requests_of {Q = Q} {R = R} (estimate f t w).1 ≡ []
  unfolding estimate
  estimate-requests f t w = ground arith

  flush-requests :
      {W : Type 0} (w : Worker W) → requests_of {F = F} {Q = Q} {R = R} (flush_exceptions w).1 ≡ []
  unfolding flush_exceptions
  flush-requests w = rw (
    requests_of-append (exception_effects w.n_exceptions_by_type)
        (uncaught_effects w.n_uncaught_exceptions_by_type),
    exceptions-requests w.n_exceptions_by_type,
    uncaught-requests w.n_uncaught_exceptions_by_type,
  )

module _ (F R : Type 0) {D W Q : Type 0} (k : Workload D W Q) where
  unused :
      (w : Worker W) (m : Worker W × List (Effect F Q R))
      → m.0.workload ≡ w.workload
      → requests_of m.1 ≡ []
      → IsUse k w m
  unused w m same none' = record { uses = []; used = λ rs. rw (same, none') }

  >>-IsUse :
      (w : Worker W) (m : Worker W × List (Effect F Q R))
      (g : Worker W → Worker W × List (Effect F Q R))
      → IsUse k w m
      → IsUse k m.0 (g m.0)
      → IsUse k w (m >> g)
  >>-IsUse w m g u v = record {
    uses = u.uses ++ v.uses;
    used = λ rs.
        use_all-append k u.uses v.uses (w.workload, rs)
        ∙ ap (use_all k v.uses) (u.used rs)
        ∙ v.used (onto (requests_of m.1) rs)
        ∙ ap (λ qs. ((g m.0).0.workload, qs))
            (sym (
              ap (λ qs. onto qs rs) (requests_of-append F Q R m.1 (g m.0).1)
              ∙ onto-append (requests_of m.1) (requests_of (g m.0).1) rs));
  }

  on_reply-IsUse :
      (f : Double F) (n : ℕ) (recv_time : ℤ) (t : Try R) (w : Worker W)
      → IsUse k w (on_reply f n recv_time t w)
  unfolding on_reply complete
  on_reply-IsUse f n recv_time t w =
      unused w (on_reply f n recv_time t w) (ground arith) (ground arith)

  on_ready-IsUse :
      (f : Double F) (n : ℕ) (recv_time : ℤ) (t : Option (Try R)) (w : Worker W)
      → IsUse k w (on_ready f n recv_time t w)
  on_ready-IsUse f n recv_time none w = unused w (w, []) refl refl
  on_ready-IsUse f n recv_time (some t) w = on_reply-IsUse f n recv_time t w

  on_escaped-IsUse :
      (c : Option String) (w : Worker W) → IsUse k w (on_escaped {F = F} {Q = Q} {R = R} c w)
  unfolding on_uncaught
  on_escaped-IsUse none w = unused w (w, []) refl refl
  on_escaped-IsUse (some c) w = unused w (on_uncaught c w, []) refl refl

  report-workload :
      (f : Double F) (t : ℤ) (w : Worker W) → (report {Q = Q} {R = R} f t w).0.workload ≡ w.workload
  unfolding report estimate flush_exceptions
  report-workload f t w = ground arith

  report-IsUse : (f : Double F) (t : ℤ) (w : Worker W) → IsUse k w (report {Q = Q} {R = R} f t w)
  unfolding report
  report-IsUse f t w =
      let w₁ : Worker W = (estimate {Q = Q} {R = R} f t w).0 in
      let es₁ : List (Effect F Q R) = (estimate f t w).1 in
      let es₂ : List (Effect F Q R) = (flush_exceptions w₁).1 in
      unused w (report f t w) (report-workload f t w) (
        rw (
          requests_of-append F Q R (es₁ ++ es₂) (sets_counter _ ∷ []),
          requests_of-append F Q R es₁ es₂,
          estimate-requests F Q R f t w,
          flush-requests F Q R w₁,
        ))

  send_next-IsUse :
      (f : Double F) (i : Turn R) (next : Option Q × W) (w : Worker W)
      → k.get_next_request w.workload ≡ next
      → IsUse k w (send_next f i next w)
  unfolding send_next dispatch
  send_next-IsUse f i (none, x) w e = record {
    uses = asks ∷ [];
    used = λ rs. ap (λ n. given n rs) e;
  }
  send_next-IsUse f i (some q, x) w e =
      let m₁ : Worker W × List (Effect F Q R) = dispatch i.send_time q x w in
      let m₂ : Worker W × List (Effect F Q R) = m₁ >> on_ready f w.sent i.recv_time i.ready in
      let m₃ : Worker W × List (Effect F Q R) = m₂ >> on_escaped i.escaped in
      let asked : IsUse k w m₁ = record { uses = asks ∷ []; used = λ rs. ap (λ n. given n rs) e } in
      >>-IsUse w m₃ (report f i.now)
        (>>-IsUse w m₂ (on_escaped i.escaped)
          (>>-IsUse w m₁ (on_ready f w.sent i.recv_time i.ready) asked
            (on_ready-IsUse f w.sent i.recv_time i.ready m₁.0))
          (on_escaped-IsUse i.escaped m₂.0))
        (report-IsUse f i.now m₃.0)

  module _ (d : Dynamic D) (f : Double F) where
    on_event-IsUse :
        (i : Turn R) (e : EventType) (x : D) (w : Worker W) → IsUse k w (on_event f k d i e x w)
    unfolding on_event send_request
    on_event-IsUse i EventType.send_request x w =
        if-intro (IsUse k w) (ltb_ℤ w.outstanding_requests w.max_outstanding_requests && w.running)
          (send_next-IsUse f i (k.get_next_request w.workload) w refl) (report-IsUse f i.now w)
    on_event-IsUse i EventType.stop x w = unused w _ refl refl
    on_event-IsUse i EventType.reset x w = record { uses = resets ∷ []; used = λ rs. refl }
    on_event-IsUse i EventType.set_phase x w =
        if-intro (IsUse k w) (d.is_string x)
          (record { uses = enters (d.as_string x) ∷ []; used = λ rs. refl }) (unused w _ refl refl)
    on_event-IsUse i EventType.set_max_outstanding x w =
        if-intro (IsUse k w) (d.is_int x) (unused w _ refl refl) (unused w _ refl refl)

    happen-IsUse : (h : Happening D R) (w : Worker W) → IsUse k w (happen d f k h w)
    unfolding happen message_available stop
    happen-IsUse (receives i e) w =
        if-intro (IsUse k w) w.running (on_event-IsUse i e.event_type e.extra_data w)
          (unused w _ refl refl)
    happen-IsUse (replies n recv_time x) w = on_reply-IsUse f n recv_time x w
    happen-IsUse (escapes c) w = on_escaped-IsUse (some c) w
    happen-IsUse is_stopped w = unused w _ refl refl

    history-IsUse : (hs : List (Happening D R)) (w : Worker W) → IsUse k w (history d f k hs w)
    unfolding history
    history-IsUse [] w = unused w (w, []) refl refl
    history-IsUse (h ∷ hs) w =
        >>-IsUse w (happen d f k h w) (history d f k hs) (happen-IsUse h w)
          (history-IsUse hs (happen d f k h w).0)

    -- Over any history of a worker, the state of its workload and the requests that it sends are
    -- those of some sequence of calls of the workload's methods: each request that the workload
    -- gives is sent, once and in order, and nothing else is.
    pub use_all-history :
        (hs : List (Happening D R)) (w : Worker W)
        → (us : List Use) × (use_all k us (w.workload, [])
            ≡ ((history d f k hs w).0.workload, onto (requests_of (history d f k hs w).1) []))
    use_all-history hs w = let u = history-IsUse hs w in (u.uses, u.used [])
