-- ===== src/Scheduler/Loop.antt =====
-- Scheduler.cpp, loop() with waitNs() and randomExponentialInterval(): the body of the scheduler's
-- thread as a machine. A step makes one access to what other threads share (`state_`, `rps_`, a
-- queue, all queues) or reads the clock once. What comes from outside is the step's `Input`.
use treadmill.Prelude.{
  ℕ, ◌+◌, ◌*◌, ◌%◌, ◌^◌, Bool, true, false, [], ◌∷◌, ◌++◌, length, get_or, set, modify,
  if◌then◌else◌, ltb, ◌==◌,
}
use treadmill.Prelude.Int.{ℤ, ◌-ℤ◌, ltb_ℤ, max_ℤ, to_int32, to_uint32}
use treadmill.Double.{Double}
use treadmill.Event.{Dynamic, EventType, bare}
use treadmill.Scheduler.{Scheduler, is_running, is_paused, is_stopping, message_all_workers}

-- The local variables of loop(). `rps` is an int32_t, the others are int64_t.
pub record Locals : Type 0 where
  pub rps : ℤ
  pub interval_ns : ℤ
  pub a : ℤ
  pub b : ℤ
  pub budget : ℤ

-- Where the thread stands.
pub data Pc : Type 0 where
  idle : Pc  -- run() has not been called
  begin : Pc  -- top of the outer loop
  test_running : Locals → Pc
  send : Locals → Pc
  wait_start : Locals → Pc
  waiting : ℤ → Locals → Pc  -- in waitNs(budget), with its start
  put : Locals → Pc
  test_rps : Locals → Pc
  reload_rps : Locals → Pc
  test_paused : Pc
  pause_start : Pc
  pausing : ℤ → Pc  -- in waitNs(1000), with its start
  test_stopping : Pc
  finish : Pc
  fulfil : Pc
  done : Pc

-- One reading of the clock, a number drawn from [0, 1), and the size of a queue after a message was
-- put on it while its consumer was running.
pub record Input (F : Type 0) : Type 0 where
  pub now : ℤ
  pub draw : F
  pub size : ℕ

-- -log(max(draw, 1e-9)) * mean; the minus sign is a product with -1.
unfoldable pub random_exponential_interval : {F : Type 0} → Double F → F → F → F
random_exponential_interval f draw mean =
    let tiny = f.decimal 1 9 in
    f.mul (f.mul (f.of_int (ℤ.negsuc 0)) (f.log (if f.less draw tiny then tiny else draw))) mean

-- 1.0 / rps * k_ns_per_s
unfoldable pub interval_of : {F : Type 0} → Double F → ℤ → ℤ
interval_of f rps =
    f.to_int (f.mul (f.div (f.of_int (ℤ.pos 1)) (f.of_int rps)) (f.of_int (ℤ.pos 1_000_000_000)))

-- The test of the loop in waitNs: is the time not yet up?
unfoldable pub wait_ns : ℤ → ℤ → ℤ → Bool
wait_ns start ns now = ltb_ℤ (now -ℤ start) ns

abbrev pub is_zero : ℤ → Bool
is_zero (ℤ.pos n) = n == 0
is_zero (ℤ.negsuc n) = false

-- b = nowNs(), and the time that the last message took comes off the budget.
unfoldable pub charge : ℤ → Locals → Locals
charge now l = record l {
  b = now;
  budget = if is_zero l.a then l.budget else l.budget -ℤ (now -ℤ l.a);
}

-- a = nowNs(), and the next interval is added to what is left of the budget.
unfoldable pub credit : {F : Type 0} → Double F → Input F → Locals → Locals
credit f i l = record l {
  a = i.now;
  budget = f.to_int (
      f.add (f.of_int l.budget) (
        f.sub (random_exponential_interval f i.draw (f.of_int l.interval_ns))
          (f.of_int (i.now -ℤ l.b))));
}

-- The message to the next worker, the doubling of its logging factor, and the turn.
unfoldable pub put_request : {D : Type 0} ⦃d : Dynamic D⦄ → ℕ → Scheduler D → Scheduler D
put_request size s =
    let factor = get_or s.logged s.next 1 in
    let turn = (s.next + 1) % 2 ^ 32 in
    record s {
      queues = modify s.queues s.next (λ q. q ++ bare EventType.send_request ∷ []);
      logged =
          if ltb (s.logging_threshold * factor % 2 ^ 64) size
          then set s.logged s.next (factor * 2 % 2 ^ 64)
          else s.logged;
      next = if turn == length s.queues then 0 else turn;
    }

module _ {D F : Type 0} ⦃d : Dynamic D⦄ ⦃f : Double F⦄ where
  -- RESET for all, and the locals of a new round.
  unfoldable pub begin_round : Input F → Scheduler D → Scheduler D × Pc
  unfolding message_all_workers
  begin_round i s =
      let rps = to_int32 (ℤ.pos s.rps) in
      let interval_ns = interval_of f rps in
      (
        record (message_all_workers (bare EventType.reset) s) { next = 0 },
        test_running (record {
          rps = rps;
          interval_ns = interval_ns;
          a = ℤ.pos 0;
          b = ℤ.pos 0;
          budget = f.to_int (random_exponential_interval f i.draw (f.of_int interval_ns));
        }),
      )

  -- One step of the thread.
  unfoldable pub loop_step : Input F → Scheduler D → Pc → Scheduler D × Pc
  unfolding begin_round charge credit put_request message_all_workers wait_ns
  loop_step i s idle = (s, idle)
  loop_step i s begin = begin_round i s
  loop_step i s (test_running l) = (s, if is_running s.state then send l else test_paused)
  loop_step i s (send l) = (s, wait_start (charge i.now l))
  loop_step i s (wait_start l) = (s, waiting i.now l)
  loop_step i s (waiting start l) =
      (s, if wait_ns start (max_ℤ l.budget (ℤ.pos 0)) i.now then waiting start l else put l)
  loop_step i s (put l) = (put_request i.size s, test_rps (credit f i l))
  loop_step i s (test_rps l) =
      (s, if to_uint32 l.rps == s.rps then test_running l else reload_rps l)
  loop_step i s (reload_rps l) =
      let rps = to_int32 (ℤ.pos s.rps) in
      (s, test_running (record l { rps = rps; interval_ns = interval_of f rps }))
  loop_step i s test_paused = (s, if is_paused s.state then pause_start else test_stopping)
  loop_step i s pause_start = (s, pausing i.now)
  loop_step i s (pausing start) =
      (s, if wait_ns start (ℤ.pos 1000) i.now then pausing start else test_paused)
  loop_step i s test_stopping = (s, if is_stopping s.state then finish else begin)
  loop_step i s finish = (message_all_workers (bare EventType.stop) s, fulfil)
  loop_step i s fulfil = (record s { promise = true }, done)
  loop_step i s done = (s, done)
