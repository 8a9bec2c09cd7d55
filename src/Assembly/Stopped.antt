-- ===== src/Assembly/Stopped.antt =====
-- Once the scheduler is STOPPING, the workers have no effect on it any more.
use treadmill.Prelude.{
  ℕ, zero, suc, ◌≡◌, refl, sym, ap, ◌∙◌, subst, inl, inr, Bool, Bool-cases, Option-cases, List, [],
  ◌∷◌, get_elem?,
}
use treadmill.Double.{Double}
use treadmill.Event.{Dynamic}
use treadmill.Result.{Result, ok, ok-injective, ◌>>=◌, >>=-eq-ok}
use treadmill.Scheduler.{Scheduler, RunState, stop}
use treadmill.Scheduler.RoundRobin.{queue}
use treadmill.Scheduler.System.{Action, act, run_all}
use treadmill.Worker.{Workload, Effect}
use treadmill.Assembly.{
  Assembly, Move, acts, takes, replies, escapes, halts, is_early, settle, serve, serve_at, move,
  move_all,
}
use treadmill.Assembly.Halted.{halt_from}
use treadmill.Assembly.Early.{HasStopped, move-HasStopped}
use treadmill.Assembly.Served.{serve_at-some, serve_at-none}

-- What the scheduler's thread and its clients do among moves.
abbrev pub actions_of : {F R : Type 0} → List (Move F R) → List (Action F)
actions_of [] = []
actions_of (acts a ∷ vs) = a ∷ actions_of vs
actions_of (_ ∷ vs) = actions_of vs

stop-stopping : {D : Type 0} (s : Scheduler D) → s.state ≡ RunState.stopping → stop s ≡ s
unfolding stop
stop-stopping s h = ap (λ (x : RunState). record s { state = x }) (sym h)

settle-stopping :
    {D F Q R : Type 0} (es : List (Effect F Q R)) (s : Scheduler D)
    → s.state ≡ RunState.stopping
    → settle es s ≡ s
unfolding settle
settle-stopping es s h = elim (Bool-cases (is_early es)) [
  | inl e ↦ rw e (stop-stopping s h)
  | inr e ↦ rw e refl
]

module _ {D F W Q R : Type 0} ⦃d : Dynamic D⦄ ⦃f : Double F⦄ (k : Workload D W Q) where
  serve_at-stopping :
      (i : ℕ) (v : Move F R) (y : Assembly D W)
      → HasStopped y
      → (serve_at k i v y).system ≡ y.system
  serve_at-stopping i v y h = elim (Option-cases (get_elem? y.consumers i)) [
    | inl n ↦ ap (λ (x : Assembly D W). x.system) (serve_at-none k i v y n)
    | inr (c, n) ↦
        ap (λ (x : Assembly D W). x.system) (serve_at-some k i v y c n)
        ∙ ap (λ (s : Scheduler D). record y.system { scheduler = s })
            (settle-stopping (serve k v (queue y.system.scheduler i) c).1 y.system.scheduler h)
  ]

  -- A move of a worker leaves the scheduler to what follows.
  skip :
      (b : Bool) (vs : List (Move F R)) (i : ℕ) (v : Move F R) (y z : Assembly D W)
      → HasStopped y
      → move k b v y ≡ ok (serve_at k i v y)
      → (move k b v y >>= move_all k b vs) ≡ ok z
      → ((x : Assembly D W)
          → HasStopped x
          → move_all k b vs x ≡ ok z
          → run_all b (actions_of vs) x.system ≡ ok z.system)
      → run_all b (actions_of vs) y.system ≡ ok z.system
  skip b vs i v y z h same e rest =
      let x = serve_at k i v y in
      let left : move_all k b vs x ≡ ok z = ap (λ m. m >>= move_all k b vs) (sym same) ∙ e in
      subst (λ s. run_all b (actions_of vs) s ≡ ok z.system) (serve_at-stopping i v y h)
        (rest x (move-HasStopped k b v y x same h) left)

  pub run_all-actions_of :
      (b : Bool) (vs : List (Move F R)) (y z : Assembly D W)
      → HasStopped y
      → move_all k b vs y ≡ ok z
      → run_all b (actions_of vs) y.system ≡ ok z.system
  unfolding move_all run_all move
  run_all-actions_of b [] y z h e = ap (λ (x : Assembly D W). Result.ok x.system) (ok-injective e)
  run_all-actions_of b (acts a ∷ vs) y z h e =
      let (x, p, q) = >>=-eq-ok (move {R = R} k b (acts a) y) (move_all k b vs) e in
      let (s, p', q') = >>=-eq-ok (act b a y.system) (λ s. ok (record y { system = s })) p in
      let ih = run_all-actions_of b vs x z (move-HasStopped {R = R} k b (acts a) y x p h) q in
      ap (λ m. m >>= run_all b (actions_of vs)) p'
      ∙ subst (λ (u : Assembly D W). run_all b (actions_of vs) u.system ≡ ok z.system)
          (sym (ok-injective q')) ih
  run_all-actions_of b (takes i t ∷ vs) y z h e =
      skip b vs i (takes i t) y z h refl e (λ x. run_all-actions_of b vs x z)
  run_all-actions_of b (replies i n recv_time t ∷ vs) y z h e =
      skip b vs i (replies i n recv_time t) y z h refl e (λ x. run_all-actions_of b vs x z)
  run_all-actions_of b (escapes i c ∷ vs) y z h e =
      skip b vs i (escapes i c) y z h refl e (λ x. run_all-actions_of b vs x z)
  run_all-actions_of b (halts i ∷ vs) y z h e =
      skip b vs i (halts i) y z h refl e (λ x. run_all-actions_of b vs x z)

module _ {D W Q : Type 0} (F R : Type 0) ⦃d : Dynamic D⦄ ⦃f : Double F⦄ (k : Workload D W Q) where
  pub halt_from-ok :
      (b : Bool) (i count : ℕ) (y : Assembly D W)
      → (z : Assembly D W) × (move_all {F = F} {R = R} k b (halt_from i count) y ≡ ok z)
  unfolding move_all move
  halt_from-ok b i zero y = (y, refl)
  halt_from-ok b i (suc count) y =
      halt_from-ok b (suc i) count (serve_at {F = F} {R = R} k i (halts i) y)
