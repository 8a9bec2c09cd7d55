-- ===== src/Assembly/Cause.antt =====
-- What can end a run before its time: a worker whose workload has no more requests.
use treadmill.Prelude.{
  ℕ, ◌≡◌, refl, sym, ap, ◌∙◌, subst, ◌⊎◌, inl, inr, ◌||◌, Bool, Bool-cases, false, Option-cases,
  some, List, [], ◌∷◌, ◌++◌, get_elem?, arith,
}
use treadmill.Double.{Double}
use treadmill.Event.{Dynamic}
use treadmill.Result.{ok, ok-injective, ◌>>=◌, >>=-eq-ok}
use treadmill.Scheduler.{Scheduler}
use treadmill.Scheduler.RoundRobin.{queue}
use treadmill.Scheduler.System.{act}
use treadmill.Scheduler.Going.{is_stop_action, IsGoing, act-IsGoing}
use treadmill.Worker.{Workload, Effect}
use treadmill.Worker.Handlers.{Turn}
use treadmill.Assembly.{
  Consumer, Assembly, Move, acts, takes, replies, escapes, halts, is_early, settle, serve, serve_at,
  move, move_all,
}
use treadmill.Assembly.Late.{serve-early}
use treadmill.Assembly.Early.{RunsOut}
use treadmill.Assembly.Served.{serve_at-some, serve_at-none}

-- stop() called by anyone but a worker.
abbrev pub stops_in : {F R : Type 0} → List (Move F R) → Bool
stops_in [] = false
stops_in (acts a ∷ vs) = is_stop_action a || stops_in vs
stops_in (_ ∷ vs) = stops_in vs

-- Worker i of `y` runs out of work when it takes its next message.
pub record RunsOutAt {D W Q : Type 0} (k : Workload D W Q) (i : ℕ) (y : Assembly D W) : Type 0 where
  pub consumer : Consumer D W
  pub there : get_elem? y.consumers i ≡ some consumer
  pub out : RunsOut k (queue y.system.scheduler i) consumer

module _ {D F W Q R : Type 0} ⦃d : Dynamic D⦄ ⦃f : Double F⦄ (k : Workload D W Q) where
  serve_at-IsGoing :
      (promise : Bool) (i : ℕ) (v : Move F R) (y : Assembly D W)
      → IsGoing promise y.system
      → IsGoing promise (serve_at k i v y).system
        ⊎ ((j : ℕ) × (t : Turn R) × (v ≡ takes j t) × RunsOutAt k i y)
  unfolding settle
  serve_at-IsGoing promise i v y g = elim (Option-cases (get_elem? y.consumers i)) [
    | inl n ↦
        inl
          (subst (λ (x : Assembly D W). IsGoing promise x.system) (sym (serve_at-none k i v y n)) g)
    | inr (c, n) ↦
        let es : List (Effect F Q R) = (serve k v (queue y.system.scheduler i) c).1 in
        elim (Bool-cases (is_early es)) [
          | inl e ↦
              let (j, t, same, out) = serve-early F R k v (queue y.system.scheduler i) c e in
              inr (j, t, same, record { consumer = c; there = n; out = out })
          | inr e ↦
              let same : settle es y.system.scheduler ≡ y.system.scheduler = rw e refl in
              inl (
                subst (λ (x : Assembly D W). IsGoing promise x.system)
                  (sym (serve_at-some k i v y c n))
                  (subst (λ (s : Scheduler D). IsGoing promise (record y.system { scheduler = s }))
                    (sym same) g))
        ]
  ]

  -- The moves, with the one at which a worker ran out of work.
  pub record Cause (b : Bool) (vs : List (Move F R)) (y : Assembly D W) : Type 0 where
    pub before : List (Move F R)
    pub number : ℕ
    pub turn : Turn R
    pub after : List (Move F R)
    pub whole : vs ≡ before ++ takes number turn ∷ after
    pub at : Assembly D W
    pub reached : move_all k b before y ≡ ok at
    pub out : RunsOutAt k number at

  abbrev Next : Bool → Move F R → Assembly D W → Assembly D W → Type 0
  Next promise v y x =
      IsGoing promise x.system ⊎ ((j : ℕ) × (t : Turn R) × (v ≡ takes j t) × RunsOutAt k j y)

  pub move-IsGoing :
      (promise b : Bool) (v : Move F R) (vs : List (Move F R)) (y x : Assembly D W)
      → stops_in (v ∷ vs) ≡ false
      → move k b v y ≡ ok x
      → IsGoing promise y.system
      → Next promise v y x
  unfolding move
  move-IsGoing promise b (acts a) vs y x n e g =
      let (s, p, q) = >>=-eq-ok (act b a y.system) (λ s. ok (record y { system = s })) e in
      inl (
        subst (λ (u : Assembly D W). IsGoing promise u.system) (ok-injective q)
          (act-IsGoing promise b a y.system s (ground (arith, n)) p g))
  move-IsGoing promise b (takes i t) vs y x n e g =
      subst (Next promise (takes i t) y) (ok-injective e)
        (elim (serve_at-IsGoing promise i (takes i t) y g) [
          | inl going ↦ inl going
          | inr (j, u, same, out) ↦ inr (i, t, refl, out)
        ])
  move-IsGoing promise b (replies i m recv_time t) vs y x n e g =
      subst (Next promise (replies i m recv_time t) y) (ok-injective e)
        (elim (serve_at-IsGoing promise i (replies i m recv_time t) y g) [
          | inl going ↦ inl going
          | inr (j, u, same, out) ↦ cc
        ])
  move-IsGoing promise b (escapes i c) vs y x n e g =
      subst (Next promise (escapes i c) y) (ok-injective e)
        (elim (serve_at-IsGoing promise i (escapes i c) y g) [
          | inl going ↦ inl going
          | inr (j, u, same, out) ↦ cc
        ])
  move-IsGoing promise b (halts i) vs y x n e g =
      subst (Next promise (halts i) y) (ok-injective e)
        (elim (serve_at-IsGoing promise i (halts i) y g) [
          | inl going ↦ inl going
          | inr (j, u, same, out) ↦ cc
        ])

  stops_in-rest :
      (v : Move F R) (vs : List (Move F R)) → stops_in (v ∷ vs) ≡ false → stops_in vs ≡ false
  stops_in-rest (acts a) vs n = ground arith
  stops_in-rest (takes i t) vs n = n
  stops_in-rest (replies i m recv_time t) vs n = n
  stops_in-rest (escapes i c) vs n = n
  stops_in-rest (halts i) vs n = n

  -- Unless the rest of the process calls stop(): either the scheduler goes on, not STOPPING, its
  -- thread before the end of its loop and its promise as it was, or among the moves is one at which
  -- a worker that runs, with fewer requests outstanding than its limit, took a message that asks
  -- for a request of which its workload had no more.
  pub move_all-Cause :
      (promise b : Bool) (vs : List (Move F R)) (y z : Assembly D W)
      → stops_in vs ≡ false
      → move_all k b vs y ≡ ok z
      → IsGoing promise y.system
      → IsGoing promise z.system ⊎ Cause b vs y
  unfolding move_all
  move_all-Cause promise b [] y z n e g =
      inl (subst (λ (x : Assembly D W). IsGoing promise x.system) (ok-injective e) g)
  move_all-Cause promise b (v ∷ vs) y z n e g =
      let (x, p, q) = >>=-eq-ok (move k b v y) (move_all k b vs) e in
      let later = move_all-Cause promise b vs x z (stops_in-rest v vs n) q in
      elim (move-IsGoing promise b v vs y x n p g) [
        | inr (i, t, same, out) ↦ inr (record {
          before = [];
          number = i;
          turn = t;
          after = vs;
          whole = ap (λ u. u ∷ vs) same;
          at = y;
          reached = refl;
          out = out;
        })
        | inl going ↦ elim (later going) [
          | inl on ↦ inl on
          | inr c ↦ inr (record {
            before = v ∷ c.before;
            number = c.number;
            turn = c.turn;
            after = c.after;
            whole = ap (◌∷◌ v) c.whole;
            at = c.at;
            reached = ap (λ m. m >>= move_all k b c.before) p ∙ c.reached;
            out = c.out;
          })
        ]
      ]
