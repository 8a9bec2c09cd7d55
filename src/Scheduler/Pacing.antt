-- ===== src/Scheduler/Pacing.antt =====
-- The loop keeps its schedule: what delays one request does not delay the next ones.
use treadmill.Prelude.{
  ℕ, ◌*◌, ◌≡◌, refl, sym, ap, subst, Bool, List, [], ◌∷◌, length, arith, false, Bool-cases, inl,
  inr, if-intro, ◌==◌,
}
use treadmill.Prelude.Int.{
  ℤ, pos, ◌+ℤ◌, ◌-ℤ◌, ◌≤ℤ◌, max_ℤ, to_uint32, to_int32, int_laws, +ℤ_parts, -ℤ_parts,
}
use treadmill.Double.{Double, IsNear}
use treadmill.Event.{Dynamic}
use treadmill.Result.{Result, ok, fatal, ok-injective, >>=-eq-ok}
use treadmill.Scheduler.{Scheduler, is_running, is_paused, is_stopping}
use treadmill.Scheduler.Loop.{
  Pc, Locals, Input, is_zero, random_exponential_interval, loop_step, charge, credit, interval_of,
  wait_ns,
}
use treadmill.Scheduler.System.{Action, starts, steps, calls, System, act, run_all, perform, start}
use treadmill.Scheduler.Pace.{
  Pace, due_after, interval, pace, Fits, IsModestStep, pace_action, reading, NoneEarly, FitsAll,
  pace_all, last_reading,
}

-- How far the loop may be from its schedule, in nanoseconds.
abbrev pub drift : List (ℤ × ℤ) → ℕ
drift ps = 2 * length ps

-- Between two requests: `a` and the budget say when the next one is due.
abbrev pub Credited : Locals → List (ℤ × ℤ) → ℤ → Type 0
Credited l [] due = (l.a ≡ pos 0) × (l.budget ≡ due)
Credited l (q ∷ ps) due = pos 1 ≤ℤ l.a × IsNear (drift (q ∷ ps)) (l.a +ℤ l.budget) due

-- From the reading of `b` to the next request: `b` and the budget say so.
abbrev pub Charged : Locals → List (ℤ × ℤ) → ℤ → Type 0
Charged l ps due = IsNear (drift ps) (l.b +ℤ l.budget) due

abbrev pub PacedAt : Pc → Pace → ℤ → Type 0
PacedAt (Pc.test_running l) p t = Credited l p.puts p.due
PacedAt (Pc.send l) p t = Credited l p.puts p.due
PacedAt (Pc.test_rps l) p t = Credited l p.puts p.due
PacedAt (Pc.reload_rps l) p t = Credited l p.puts p.due
PacedAt (Pc.wait_start l) p t = Charged l p.puts p.due × l.b ≤ℤ t
PacedAt (Pc.waiting start l) p t = Charged l p.puts p.due × l.b ≤ℤ start
PacedAt (Pc.put l) p t = Charged l p.puts p.due × l.b +ℤ l.budget ≤ℤ t
PacedAt _ p t = Unit

charge-Charged :
    (now : ℤ) (l : Locals) (ps : List (ℤ × ℤ)) (due : ℤ)
    → Credited l ps due
    → Charged (charge now l) ps (due_after now ps due)
unfolding charge
charge-Charged now l [] due c = rw (c.0, c.1) (omega int_laws)
charge-Charged now l (q ∷ ps) due c =
    let started : is_zero l.a ≡ false = ground arith in rw started (omega int_laws)

charge-now : (now : ℤ) (l : Locals) → (charge now l).b ≤ℤ now
unfolding charge
charge-now now l = omega arith

reload :
    (l : Locals) (ps : List (ℤ × ℤ)) (due rps interval_ns : ℤ)
    → Credited l ps due
    → Credited (record l { rps = rps; interval_ns = interval_ns }) ps due
reload l [] due rps interval_ns c = c
reload l (q ∷ ps) due rps interval_ns c = c

credit-Credited :
    {F : Type 0} (f : Double F) (i : Input F) (l : Locals) (ps : List (ℤ × ℤ)) (due : ℤ)
    → IsModestStep f i (Pc.put l)
    → pos 1 ≤ℤ i.now
    → Charged l ps due
    → Credited (credit f i l) ((due, i.now) ∷ ps) (due +ℤ interval f i l.interval_ns)
unfolding credit
credit-Credited f i l ps due m h c =
    let gap = random_exponential_interval f i.draw (f.of_int l.interval_ns) in
    let near = f.sum_near l.budget (i.now -ℤ l.b) gap m.0 m.1 m.2 in (h, omega (int_laws, near))

-- The wait ends no earlier than the budget says.
wait_ns-ended :
    (start now : ℤ) (l : Locals)
    → wait_ns start (max_ℤ l.budget (pos 0)) now ≡ false
    → l.b ≤ℤ start
    → l.b +ℤ l.budget ≤ℤ now
unfolding wait_ns
wait_ns-ended start now l e h = ground (arith, -ℤ_parts now start, +ℤ_parts l.b l.budget)

start-pc :
    {D : Type 0} (pc : Pc) (s : Scheduler D) (z : System D) → start pc s ≡ ok z → z.pc ≡ Pc.begin
unfolding start
start-pc {D = D} Pc.idle s z e = ap (λ (y : System D). y.pc) (sym (ok-injective e))
start-pc {D = D} _ s z e = cc

reading-pos :
    {F : Type 0} (f : Double F) (a : Action F) (pc : Pc) (t : ℤ)
    → Fits f a pc t
    → pos 1 ≤ℤ t
    → pos 1 ≤ℤ reading a t
reading-pos f (steps i) pc t m h = omega (arith, m.0)
reading-pos f starts pc t m h = h
reading-pos f (calls k) pc t m h = h

module _ {D F : Type 0} ⦃d : Dynamic D⦄ ⦃f : Double F⦄ where
  abbrev StepPaced : Input F → Scheduler D → Pc → Pace → Type 0
  StepPaced i s pc p =
      PacedAt (loop_step i s pc).1 (pace f s.rps i pc p) i.now
      × NoneEarly (pace f s.rps i pc p).puts

  loop_step-Paced :
      (i : Input F) (s : Scheduler D) (pc : Pc) (p : Pace) (t : ℤ)
      → Fits f (steps i) pc t
      → pos 1 ≤ℤ t
      → PacedAt pc p t
      → NoneEarly p.puts
      → StepPaced i s pc p
  unfolding loop_step
  loop_step-Paced i s Pc.begin p t m h c e = ((refl, refl), tt)
  loop_step-Paced i s (Pc.test_running l) p t m h c e =
      (if-intro (λ x. PacedAt x p i.now) (is_running s.state) c tt, e)
  loop_step-Paced i s (Pc.send l) p t m h c e =
      ((charge-Charged i.now l p.puts p.due c, charge-now i.now l), e)
  loop_step-Paced i s (Pc.wait_start l) p t m h c e = ((c.0, omega (arith, c.1, m.0)), e)
  loop_step-Paced i s (Pc.waiting from l) p t m h c e =
      elim (Bool-cases (wait_ns from (max_ℤ l.budget (pos 0)) i.now)) [
        | inl more ↦ rw more (c, e)
        | inr over ↦ rw over ((c.0, wait_ns-ended from i.now l over c.1), e)
      ]
  loop_step-Paced i s (Pc.put l) p t m h c e = (
    credit-Credited f i l p.puts p.due m.1 (omega (arith, h, m.0)) c.0,
    (omega (int_laws, c.0, c.1, m.0), e),
  )
  loop_step-Paced i s (Pc.test_rps l) p t m h c e =
      (if-intro (λ x. PacedAt x p i.now) (to_uint32 l.rps == s.rps) c c, e)
  loop_step-Paced i s (Pc.reload_rps l) p t m h c e =
      let rps = to_int32 (pos s.rps) in (reload l p.puts p.due rps (interval_of f rps) c, e)
  loop_step-Paced i s Pc.test_paused p t m h c e =
      (if-intro (λ x. PacedAt x p i.now) (is_paused s.state) tt tt, e)
  loop_step-Paced i s (Pc.pausing from) p t m h c e =
      (if-intro (λ x. PacedAt x p i.now) (wait_ns from (pos 1000) i.now) tt tt, e)
  loop_step-Paced i s Pc.test_stopping p t m h c e =
      (if-intro (λ x. PacedAt x p i.now) (is_stopping s.state) tt tt, e)
  loop_step-Paced i s Pc.idle p t m h c e = (tt, e)
  loop_step-Paced i s Pc.pause_start p t m h c e = (tt, e)
  loop_step-Paced i s Pc.finish p t m h c e = (tt, e)
  loop_step-Paced i s Pc.fulfil p t m h c e = (tt, e)
  loop_step-Paced i s Pc.done p t m h c e = (tt, e)

  module _ (w : Bool) where
    act-Paced :
        (a : Action F) (y z : System D) (p : Pace) (t : ℤ)
        → act w a y ≡ ok z
        → Fits f a y.pc t
        → pos 1 ≤ℤ t
        → PacedAt y.pc p t
        → NoneEarly p.puts
        → PacedAt z.pc (pace_action f y.scheduler.rps a y.pc p) (reading a t)
          × NoneEarly (pace_action f y.scheduler.rps a y.pc p).puts
    unfolding act
    act-Paced starts y z p t e m h c n =
        (subst (λ pc. PacedAt pc p t) (sym (start-pc y.pc y.scheduler z e)) tt, n)
    act-Paced (steps i) y z p t e m h c n =
        let (c', n') = loop_step-Paced i y.scheduler y.pc p t m h c n in
        (
          subst (λ (x : System D). PacedAt x.pc (pace f y.scheduler.rps i y.pc p) i.now)
              (ok-injective e) c',
          n',
        )
    act-Paced (calls k) y z p t e m h c n =
        let (s, q, r) = >>=-eq-ok (perform w k y.scheduler) _ e in
        (subst (λ (x : System D). PacedAt x.pc p t) (ok-injective r) c, n)

    -- In any history of a scheduler's thread and those who call it, as long as the clock does not
    -- go back and the loop's budget, waits and intervals stay below 2^51 ns: the k-th request of a
    -- round is put no more than 2(k - 1) ns before it is due by the schedule, the round's first
    -- reading of the clock and the sum of the intervals drawn; and however long messages and waits
    -- took, at the loop's test `a` and the budget are within 2k ns of when the next one is due.
    pub run_all-Paced :
        (as' : List (Action F)) (y z : System D) (p : Pace) (t : ℤ)
        → run_all w as' y ≡ ok z
        → FitsAll w as' y t
        → pos 1 ≤ℤ t
        → PacedAt y.pc p t
        → NoneEarly p.puts
        → PacedAt z.pc (pace_all w as' y p) (last_reading as' t)
          × NoneEarly (pace_all w as' y p).puts
    unfolding run_all
    run_all-Paced [] y z p t e m h c n =
        (subst (λ (x : System D). PacedAt x.pc p t) (ok-injective e) c, n)
    run_all-Paced (a ∷ as') y z p t e m h c n =
        let (x, q, r) = >>=-eq-ok (act w a y) (run_all w as') e in
        let (c', n') = act-Paced a y x p t q m.0 h c n in
        let fits =
          subst
            (λ (u : Result (System D)). elim u [
              | ok v ↦ FitsAll w as' v (reading a t)
              | fatal g ↦ Unit {0}
            ])
            q m.1 in
        rw (q, pace_all)
          (run_all-Paced as' x z (pace_action f y.scheduler.rps a y.pc p) (reading a t) r fits
            (reading-pos f a y.pc t m.0 h) c' n')
