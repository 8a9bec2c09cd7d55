-- ===== src/Assembly/Halted.antt =====
-- Worker.h: a worker that was stopped stays stopped, and stop() of each worker stops them all.
use treadmill.Prelude.{
  ℕ, zero, suc, ◌+◌, ◌<◌, ◌≡◌, refl, sym, ap, ◌∙◌, subst, inl, inr, Bool, Bool-cases, false, some,
  Option-cases, List, [], ◌∷◌, get_elem?, set, get_elem?-set_self, get_elem?-set_ne, length,
  length-set, arith,
}
use mathlib.Core.Option.{some-injective, none-ne-some}
use native.Mathlib.Decide.{ℕ_discrete}
use treadmill.Double.{Double}
use treadmill.Event.{Dynamic, Event}
use treadmill.Result.{ok, ok-injective, >>=-eq-ok}
use treadmill.Scheduler.RoundRobin.{queue}
use treadmill.Scheduler.System.{act}
use treadmill.Worker.{Workload, Effect, stop, on_uncaught}
use treadmill.Assembly.{
  Consumer, Assembly, Move, acts, takes, replies, escapes, halts, next_message, take_message, serve,
  serve_at, move, move_all,
}
use treadmill.Assembly.Turns.{on_reply-IsIdle, message_available-IsTaken}
use treadmill.Assembly.Served.{serve_at-some, serve_at-none, EachServed, move_all_keeps}

module _ {D W : Type 0} where
  -- Each of the workers with these numbers does not run.
  abbrev pub HaltedBelow : ℕ → Assembly D W → Type 0
  HaltedBelow n y = EachServed (λ j q c. (j < n → c.worker.running ≡ false)) y

-- stop() of `count` workers from number `i` on.
abbrev pub halt_from : {F R : Type 0} → ℕ → ℕ → List (Move F R)
halt_from i zero = []
halt_from i (suc count) = halts i ∷ halt_from (suc i) count

module _ {D F W Q : Type 0} (R : Type 0) ⦃d : Dynamic D⦄ ⦃f : Double F⦄ (k : Workload D W Q) where
  serve-halted :
      (v : Move F R) (q : List (Event D)) (c : Consumer D W)
      → c.worker.running ≡ false
      → (serve {Q = Q} k v q c).0.worker.running ≡ false
  unfolding serve take_message on_uncaught stop
  serve-halted (acts a) q c h = h
  serve-halted (takes i t) q c h = elim (Bool-cases c.worker.consuming) [
    | inr y ↦ rw (y, serve) h
    | inl y ↦ elim (Option-cases (next_message c.consumed q)) [
      | inl n ↦ rw (y, n, serve) h
      | inr (e, n) ↦ rw (y, n, serve) ((message_available-IsTaken F R d f k t e c.worker).halted h)
    ]
  ]
  serve-halted (replies i n recv_time t) q c h =
      (on_reply-IsIdle F Q R f n recv_time t c.worker).running ∙ h
  serve-halted (escapes i x) q c h = h
  serve-halted (halts i) q c h = refl

  pub move_all-HaltedBelow :
      (n : ℕ) (b : Bool) (vs : List (Move F R)) (y z : Assembly D W)
      → move_all {Q = Q} k b vs y ≡ ok z
      → HaltedBelow n y
      → HaltedBelow n z
  move_all-HaltedBelow n b vs y z e h =
      move_all_keeps k (λ j q c. (j < n → c.worker.running ≡ false)) (λ j q extra c g. g)
        (λ j v q c g lt. serve-halted v q c (g lt)) b vs y z e h

  serve_at-length :
      (i : ℕ) (v : Move F R) (y : Assembly D W)
      → length (serve_at {Q = Q} k i v y).consumers ≡ length y.consumers
  serve_at-length i v y = elim (Option-cases (get_elem? y.consumers i)) [
    | inl n ↦ ap (λ (x : Assembly D W). length x.consumers) (serve_at-none k i v y n)
    | inr (c, n) ↦
        ap (λ (x : Assembly D W). length x.consumers) (serve_at-some k i v y c n)
        ∙ length-set y.consumers i _
  ]

  move-length :
      (b : Bool) (v : Move F R) (y z : Assembly D W)
      → move {Q = Q} k b v y ≡ ok z
      → length z.consumers ≡ length y.consumers
  unfolding move
  move-length b (acts a) y z e =
      let (s, p, q) = >>=-eq-ok (act b a y.system) (λ s. ok (record y { system = s })) e in
      ap (λ (x : Assembly D W). length x.consumers) (sym (ok-injective q))
  move-length b (takes i t) y z e =
      ap (λ (x : Assembly D W). length x.consumers) (sym (ok-injective e))
      ∙ serve_at-length i (takes i t) y
  move-length b (replies i n recv_time t) y z e =
      ap (λ (x : Assembly D W). length x.consumers) (sym (ok-injective e))
      ∙ serve_at-length i (replies i n recv_time t) y
  move-length b (escapes i x) y z e =
      ap (λ (x : Assembly D W). length x.consumers) (sym (ok-injective e))
      ∙ serve_at-length i (escapes i x) y
  move-length b (halts i) y z e =
      ap (λ (x : Assembly D W). length x.consumers) (sym (ok-injective e))
      ∙ serve_at-length i (halts i) y

  pub move_all-length :
      (b : Bool) (vs : List (Move F R)) (y z : Assembly D W)
      → move_all {Q = Q} k b vs y ≡ ok z
      → length z.consumers ≡ length y.consumers
  unfolding move_all
  move_all-length b [] y z e = ap (λ (x : Assembly D W). length x.consumers) (sym (ok-injective e))
  move_all-length b (v ∷ vs) y z e =
      let (x, p, q) = >>=-eq-ok (move k b v y) (move_all k b vs) e in
      move_all-length b vs x z q ∙ move-length b v y x p

module _ {D W Q : Type 0} (F R : Type 0) ⦃d : Dynamic D⦄ ⦃f : Double F⦄ (k : Workload D W Q) where
  serve_at-halts :
      (i : ℕ) (y : Assembly D W)
      → HaltedBelow i y
      → HaltedBelow (suc i) (serve_at {F = F} {Q = Q} {R = R} k i (halts i) y)
  unfolding serve stop
  serve_at-halts i y h = elim (Option-cases (get_elem? y.consumers i)) [
    | inl n ↦ subst (HaltedBelow (suc i)) (sym (serve_at-none k i (halts i) y n)) (λ j c e lt.
        elim (ℕ_discrete j i) [
          | yes same ↦
              absurd (none-ne-some c (sym n ∙ subst (λ l. get_elem? y.consumers l ≡ some c) same e))
          | no other ↦ h j c e (omega (arith, other))
        ])
    | inr (x, n) ↦
        let m : Consumer D W × List (Effect F Q R) =
          serve k (halts i) (queue y.system.scheduler i) x in
        subst (HaltedBelow (suc i)) (sym (serve_at-some k i (halts i) y x n)) (λ j c e lt.
          elim (ℕ_discrete i j) [
            | yes same ↦
                let back = subst (λ l. get_elem? (set y.consumers i m.0) l ≡ some c) (sym same) e in
                let new =
                  some-injective m.0 c (sym (get_elem?-set_self y.consumers i x m.0 n) ∙ back) in
                ap (λ (c : Consumer D W). c.worker.running) (sym new)
            | no other ↦
                h j c (sym (get_elem?-set_ne y.consumers i j m.0 other) ∙ e) (omega (arith, other))
          ])
  ]

  pub halt_from-HaltedBelow :
      (b : Bool) (i count : ℕ) (y z : Assembly D W)
      → move_all {F = F} {Q = Q} {R = R} k b (halt_from i count) y ≡ ok z
      → HaltedBelow i y
      → HaltedBelow (i + count) z
  unfolding move_all move
  halt_from-HaltedBelow b i zero y z e h =
      subst (λ n. HaltedBelow n z) (omega arith) (subst (HaltedBelow i) (ok-injective e) h)
  halt_from-HaltedBelow b i (suc count) y z e h =
      subst (λ n. HaltedBelow n z) (omega arith)
        (halt_from-HaltedBelow b (suc i) count (serve_at {F = F} {Q = Q} {R = R} k i (halts i) y) z
          e (serve_at-halts i y h))
