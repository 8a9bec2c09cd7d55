-- ===== src/Assembly/Served.antt =====
-- What every worker keeps with its queue is kept by every move.
use treadmill.Prelude.{
  ℕ, ◌≡◌, sym, ◌∙◌, inl, inr, Bool, Option-cases, none, some, set, List, [], ◌∷◌, ◌++◌, get_elem?,
  get_elem?-set_self, get_elem?-set_ne, subst, arith,
}
use native.Mathlib.Decide.{ℕ_discrete}
use mathlib.Core.Option.{some-injective}
use treadmill.Double.{Double}
use treadmill.Event.{Dynamic, Event}
use treadmill.Result.{ok, ok-injective, >>=-eq-ok}
use treadmill.Scheduler.{Scheduler, stop}
use treadmill.Scheduler.RoundRobin.{queue}
use treadmill.Scheduler.System.{Action, System, act}
use treadmill.Scheduler.Growth.{act-Grows}
use treadmill.Worker.{Workload, Effect}
use treadmill.Assembly.{
  Consumer, Assembly, Move, acts, takes, replies, escapes, halts, serve, settle, serve_at, move,
  move_all,
}

module _ {D W : Type 0} (P : ℕ → List (Event D) → Consumer D W → Type 0) where
  -- Each worker and its queue have the property, which may depend on the worker's number.
  abbrev pub EachServed : Assembly D W → Type 0
  EachServed y =
      (j : ℕ) (c : Consumer D W)
      → get_elem? y.consumers j ≡ some c
      → P j (queue y.system.scheduler j) c

settle-queues :
    {D F Q R : Type 0} (es : List (Effect F Q R)) (s : Scheduler D)
    → (settle es s).queues ≡ s.queues
unfolding settle stop
settle-queues es s = ground arith

module _ {D F W Q R : Type 0} ⦃d : Dynamic D⦄ ⦃f : Double F⦄ (k : Workload D W Q) where
  pub serve_at-some :
      (i : ℕ) (v : Move F R) (y : Assembly D W) (c : Consumer D W)
      → get_elem? y.consumers i ≡ some c
      → let m : Consumer D W × List (Effect F Q R) = serve k v (queue y.system.scheduler i) c in
        serve_at k i v y ≡ record {
          system = record y.system { scheduler = settle m.1 y.system.scheduler };
          consumers = set y.consumers i m.0;
        }
  unfolding serve_at
  serve_at-some i v y c e = rw (e, serve_at)

  pub serve_at-none :
      (i : ℕ) (v : Move F R) (y : Assembly D W)
      → get_elem? y.consumers i ≡ none
      → serve_at k i v y ≡ y
  unfolding serve_at
  serve_at-none i v y e = rw (e, serve_at)

module _ {D F W Q R : Type 0} ⦃d : Dynamic D⦄ ⦃f : Double F⦄ (k : Workload D W Q)
    (P : ℕ → List (Event D) → Consumer D W → Type 0)
    (grows_keep : (j : ℕ) (q extra : List (Event D)) (c : Consumer D W)
      → P j q c
      → P j (q ++ extra) c)
    (serve_keeps : (j : ℕ) (v : Move F R) (q : List (Event D)) (c : Consumer D W)
      → P j q c
      → P j q (serve {Q = Q} k v q c).0) where
  pub serve_at_keeps :
      (i : ℕ) (v : Move F R) (y : Assembly D W) → EachServed P y → EachServed P (serve_at k i v y)
  serve_at_keeps i v y h = elim (Option-cases (get_elem? y.consumers i)) [
    | inl n ↦ subst (EachServed P) (sym (serve_at-none k i v y n)) h
    | inr (x, n) ↦
        let m : Consumer D W × List (Effect F Q R) = serve k v (queue y.system.scheduler i) x in
        subst (EachServed P) (sym (serve_at-some k i v y x n)) (λ j c e.
          let queues = settle-queues m.1 y.system.scheduler in
          let kept : P j (queue y.system.scheduler j) c = elim (ℕ_discrete i j) [
            | yes same ↦
                let back = subst (λ l. get_elem? (set y.consumers i m.0) l ≡ some c) (sym same) e in
                let new = sym (get_elem?-set_self y.consumers i x m.0 n) ∙ back in
                subst (λ l. P l (queue y.system.scheduler l) c) same
                  (subst (P i (queue y.system.scheduler i)) (some-injective m.0 c new)
                    (serve_keeps i v (queue y.system.scheduler i) x (h i x n)))
            | no other ↦ h j c (sym (get_elem?-set_ne y.consumers i j m.0 other) ∙ e)
          ] in
          rw queues kept)
  ]

  act_keeps :
      (b : Bool) (a : Action F) (y : Assembly D W) (z : System D)
      → act b a y.system ≡ ok z
      → EachServed P y
      → EachServed P (record y { system = z })
  act_keeps b a y z e h j c n =
      let (extra, grown) = act-Grows b a y.system z e j in
      subst (λ q. P j q c) (sym grown) (grows_keep j (queue y.system.scheduler j) extra c (h j c n))

  pub move_keeps :
      (b : Bool) (v : Move F R) (y z : Assembly D W)
      → move {Q = Q} k b v y ≡ ok z
      → EachServed P y
      → EachServed P z
  unfolding move
  move_keeps b (acts a) y z e h =
      let (s, p, q) = >>=-eq-ok (act b a y.system) (λ s. ok (record y { system = s })) e in
      subst (EachServed P) (ok-injective q) (act_keeps b a y s p h)
  move_keeps b (takes i t) y z e h =
      subst (EachServed P) (ok-injective e) (serve_at_keeps i (takes i t) y h)
  move_keeps b (replies i n recv_time t) y z e h =
      subst (EachServed P) (ok-injective e) (serve_at_keeps i (replies i n recv_time t) y h)
  move_keeps b (escapes i x) y z e h =
      subst (EachServed P) (ok-injective e) (serve_at_keeps i (escapes i x) y h)
  move_keeps b (halts i) y z e h =
      subst (EachServed P) (ok-injective e) (serve_at_keeps i (halts i) y h)

  pub move_all_keeps :
      (b : Bool) (vs : List (Move F R)) (y z : Assembly D W)
      → move_all {Q = Q} k b vs y ≡ ok z
      → EachServed P y
      → EachServed P z
  unfolding move_all
  move_all_keeps b [] y z e h = subst (EachServed P) (ok-injective e) h
  move_all_keeps b (v ∷ vs) y z e h =
      let (x, p, q) = >>=-eq-ok (move k b v y) (move_all k b vs) e in
      move_all_keeps b vs x z q (move_keeps b v y x p h)
