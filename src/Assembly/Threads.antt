-- ===== src/Assembly/Threads.antt =====
-- What the workers do to the scheduler is what some client could do to it.
use treadmill.Prelude.{
  ℕ, ◌≡◌, refl, sym, subst, inl, inr, Bool, Bool-cases, Option-cases, List, [], ◌∷◌, get_elem?,
}
use treadmill.Double.{Double}
use treadmill.Event.{Dynamic}
use treadmill.Result.{ok, ok-injective, >>=-eq-ok}
use treadmill.Scheduler.{stop}
use treadmill.Scheduler.RoundRobin.{queue}
use treadmill.Scheduler.System.{Action, calls, stops, System, act, run_all, perform}
use treadmill.Scheduler.Reach.{Reaches, Reaches-refl, Reaches-step, Reaches-trans}
use treadmill.Worker.{Workload, Effect}
use treadmill.Assembly.{
  Assembly, Move, acts, takes, replies, escapes, halts, is_early, settle, serve, serve_at, move,
  move_all,
}
use treadmill.Assembly.Served.{serve_at-some, serve_at-none}

module _ {D F : Type 0} ⦃d : Dynamic D⦄ ⦃f : Double F⦄ where
  module _ {W Q R : Type 0} (k : Workload D W Q) where
    settle-Reaches :
        (b : Bool) (es : List (Effect F Q R)) (y : System D)
        → Reaches F b y (record y { scheduler = settle es y.scheduler })
    unfolding settle act perform stop
    settle-Reaches b es y = elim (Bool-cases (is_early es)) [
      | inl e ↦ rw e (Reaches-step b (calls stops) y _ refl)
      | inr e ↦ rw e (Reaches-refl b y)
    ]

    serve_at-Reaches :
        (b : Bool) (i : ℕ) (v : Move F R) (y : Assembly D W)
        → Reaches F b y.system (serve_at k i v y).system
    serve_at-Reaches b i v y = elim (Option-cases (get_elem? y.consumers i)) [
      | inl n ↦
          subst (λ x. Reaches F b y.system x.system) (sym (serve_at-none k i v y n))
            (Reaches-refl b y.system)
      | inr (c, n) ↦
          subst (λ x. Reaches F b y.system x.system) (sym (serve_at-some k i v y c n))
            (settle-Reaches b (serve k v (queue y.system.scheduler i) c).1 y.system)
    ]

    move-Reaches :
        (b : Bool) (v : Move F R) (y z : Assembly D W)
        → move {Q = Q} k b v y ≡ ok z
        → Reaches F b y.system z.system
    unfolding move
    move-Reaches b (acts a) y z e =
        let (s, p, q) = >>=-eq-ok (act b a y.system) (λ s. ok (record y { system = s })) e in
        subst (λ x. Reaches F b y.system x.system) (ok-injective q) (Reaches-step b a y.system s p)
    move-Reaches b (takes i t) y z e =
        subst (λ x. Reaches F b y.system x.system) (ok-injective e)
          (serve_at-Reaches b i (takes i t) y)
    move-Reaches b (replies i n recv_time t) y z e =
        subst (λ x. Reaches F b y.system x.system) (ok-injective e)
          (serve_at-Reaches b i (replies i n recv_time t) y)
    move-Reaches b (escapes i x) y z e =
        subst (λ x. Reaches F b y.system x.system) (ok-injective e)
          (serve_at-Reaches b i (escapes i x) y)
    move-Reaches b (halts i) y z e =
        subst (λ x. Reaches F b y.system x.system) (ok-injective e)
          (serve_at-Reaches b i (halts i) y)

    -- The scheduler of an assembly, whatever its workers do, is in a state to which its thread and
    -- its clients alone could have brought it, in the same mode of the flag wait_for_runner_ready:
    -- so every property of such histories holds of it.
    pub move_all-Reaches :
        (b : Bool) (vs : List (Move F R)) (y z : Assembly D W)
        → move_all {Q = Q} k b vs y ≡ ok z
        → (as' : List (Action F)) × (run_all b as' y.system ≡ ok z.system)
    unfolding move_all
    move_all-Reaches b [] y z e =
        subst (λ x. Reaches F b y.system x.system) (ok-injective e) (Reaches-refl b y.system)
    move_all-Reaches b (v ∷ vs) y z e =
        let (x, p, q) = >>=-eq-ok (move k b v y) (move_all k b vs) e in
        let (first, r) = move-Reaches b v y x p in
        Reaches-trans b first y.system x.system z.system r (move_all-Reaches b vs x z q)
