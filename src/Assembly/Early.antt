-- ===== src/Assembly/Early.antt =====
-- The workload of one worker has no more requests: terminate_early_fn stops the whole scheduler.
use treadmill.Prelude.{
  ℕ, ◌≡◌, sym, ap, subst, inl, inr, Bool, true, none, some, Option-cases, List, [], ◌∷◌, get_elem?,
  arith,
}
use treadmill.Prelude.Int.{ltb_ℤ}
use treadmill.Double.{Double}
use treadmill.Event.{Dynamic, Event, EventType}
use treadmill.Result.{ok, ok-injective, >>=-eq-ok}
use treadmill.Scheduler.{Scheduler, RunState, stop, join}
use treadmill.Scheduler.RoundRobin.{queue}
use treadmill.Scheduler.Lifecycle.{act-IsStopping}
use treadmill.Scheduler.System.{act}
use treadmill.Worker.{Workload, Effect, terminates_early}
use treadmill.Worker.Handlers.{Turn, message_available, on_event, send_request, send_next}
use treadmill.Assembly.{
  Consumer, Assembly, Move, acts, takes, replies, escapes, halts, next_message, take_message, serve,
  settle, serve_at, move, move_all,
}
use treadmill.Assembly.Served.{serve_at-some, serve_at-none}

abbrev pub HasStopped : {D W : Type 0} → Assembly D W → Type 0
HasStopped y = y.system.scheduler.state ≡ RunState.stopping

-- A worker that runs, with fewer requests outstanding than its limit, finds a message that asks for
-- a request next on its queue, and its workload has none.
pub record RunsOut {D W Q : Type 0} (k : Workload D W Q) (q : List (Event D)) (c : Consumer D W)
    : Type 0 where
  pub extra_data : D
  pub workload : W
  pub consuming : c.worker.consuming ≡ true
  pub running : c.worker.running ≡ true
  pub below : ltb_ℤ c.worker.outstanding_requests c.worker.max_outstanding_requests ≡ true
  pub asked :
      next_message c.consumed q
      ≡ some (record { event_type = EventType.send_request; extra_data = extra_data })
  pub no_more : k.get_next_request c.worker.workload ≡ (none, workload)

module _ {D F W Q R : Type 0} ⦃d : Dynamic D⦄ ⦃f : Double F⦄ (k : Workload D W Q) where
  settle-state :
      (es : List (Effect F Q R)) (s : Scheduler D)
      → s.state ≡ RunState.stopping
      → (settle es s).state ≡ RunState.stopping
  unfolding settle stop
  settle-state es s h = ground arith

  serve_at-HasStopped :
      (i : ℕ) (v : Move F R) (y : Assembly D W) → HasStopped y → HasStopped (serve_at k i v y)
  serve_at-HasStopped i v y h = elim (Option-cases (get_elem? y.consumers i)) [
    | inl n ↦ subst HasStopped (sym (serve_at-none k i v y n)) h
    | inr (c, n) ↦
        subst HasStopped (sym (serve_at-some k i v y c n))
          (settle-state (serve k v (queue y.system.scheduler i) c).1 y.system.scheduler h)
  ]

  pub move-HasStopped :
      (b : Bool) (v : Move F R) (y z : Assembly D W)
      → move {Q = Q} k b v y ≡ ok z
      → HasStopped y
      → HasStopped z
  unfolding move
  move-HasStopped b (acts a) y z e h =
      let (s, p, q) = >>=-eq-ok (act b a y.system) (λ s. ok (record y { system = s })) e in
      subst HasStopped (ok-injective q) (act-IsStopping b a y.system s p h)
  move-HasStopped b (takes i t) y z e h =
      subst HasStopped (ok-injective e) (serve_at-HasStopped i (takes i t) y h)
  move-HasStopped b (replies i n recv_time t) y z e h =
      subst HasStopped (ok-injective e) (serve_at-HasStopped i (replies i n recv_time t) y h)
  move-HasStopped b (escapes i x) y z e h =
      subst HasStopped (ok-injective e) (serve_at-HasStopped i (escapes i x) y h)
  move-HasStopped b (halts i) y z e h =
      subst HasStopped (ok-injective e) (serve_at-HasStopped i (halts i) y h)

  pub move_all-HasStopped :
      (b : Bool) (vs : List (Move F R)) (y z : Assembly D W)
      → move_all {Q = Q} k b vs y ≡ ok z
      → HasStopped y
      → HasStopped z
  unfolding move_all
  move_all-HasStopped b [] y z e h = subst HasStopped (ok-injective e) h
  move_all-HasStopped b (v ∷ vs) y z e h =
      let (x, p, q) = >>=-eq-ok (move k b v y) (move_all k b vs) e in
      move_all-HasStopped b vs x z q (move-HasStopped b v y x p h)

  RunsOut-serve :
      (t : Turn R) (q : List (Event D)) (c : Consumer D W) (i : ℕ)
      → RunsOut k q c
      → (serve {F = F} k (takes i t) q c).1 ≡ terminates_early ∷ []
  unfolding serve take_message message_available on_event send_request send_next
  RunsOut-serve t q c i h = ground (arith, h.consuming, h.asked, h.running, h.below, h.no_more)

  -- Worker i runs out of work when it takes the message. Whatever the scheduler's thread, its
  -- clients and the workers do from then on, the scheduler is STOPPING, and join() passes its
  -- check.
  pub move_all-RunsOut :
      (b : Bool) (i : ℕ) (t : Turn R) (vs : List (Move F R)) (y z : Assembly D W) (c : Consumer D W)
      → get_elem? y.consumers i ≡ some c
      → RunsOut k (queue y.system.scheduler i) c
      → move_all k b (takes i t ∷ vs) y ≡ ok z
      → (z.system.scheduler.state ≡ RunState.stopping)
        × (join z.system.scheduler ≡ ok z.system.scheduler)
  unfolding move_all move settle stop join
  move_all-RunsOut b i t vs y z c n h e =
      let v : Move F R = takes i t in
      let m : Consumer D W × List (Effect F Q R) = serve k v (queue y.system.scheduler i) c in
      let state : (settle m.1 y.system.scheduler).state ≡ RunState.stopping =
        ap (λ es. (settle es y.system.scheduler).state)
          (RunsOut-serve t (queue y.system.scheduler i) c i h) in
      let first : HasStopped (serve_at k i v y) =
        subst HasStopped (sym (serve_at-some k i v y c n)) state in
      let last = move_all-HasStopped b vs (serve_at k i v y) z e first in
      (last, ground (arith, last))
