-- ===== src/Scheduler/Pace.antt =====
-- Scheduler.cpp, loop(): the schedule that a round of the loop is meant to keep, written down beside
-- its run: when each request is due, and when it is put on its queue.
use treadmill.Prelude.{ℕ, ◌*◌, List, [], ◌∷◌, length, Bool}
use treadmill.Prelude.Int.{ℤ, pos, ◌+ℤ◌, ◌-ℤ◌, ◌≤ℤ◌, to_int32}
use treadmill.Double.{Double, IsModest}
use treadmill.Event.{Dynamic}
use treadmill.Result.{ok, fatal}
use treadmill.Scheduler.Loop.{Pc, Input, random_exponential_interval, interval_of}
use treadmill.Scheduler.System.{Action, steps, System, act}

-- When the next request of the round is due; when those before it were due and when they were put,
-- the newest first. Before the first request, `due` is the time to wait for it.
pub record Pace : Type 0 where
  pub due : ℤ
  pub puts : List (ℤ × ℤ)

-- Where the round has put no request yet, its first reading of the clock is `now`.
abbrev pub due_after : ℤ → List (ℤ × ℤ) → ℤ → ℤ
due_after now [] due = now +ℤ due
due_after now (q ∷ ps) due = due

module _ {F : Type 0} (f : Double F) where
  -- The random interval to the next request, in whole nanoseconds.
  abbrev pub interval : Input F → ℤ → ℤ
  interval i mean = f.to_int (random_exponential_interval f i.draw (f.of_int mean))

  -- The schedule: the first request is due one interval after the round's first reading of the
  -- clock, each further one an interval after the one before it.
  abbrev pub pace : ℕ → Input F → Pc → Pace → Pace
  pace rps i Pc.begin p = record {
    due = interval i (interval_of f (to_int32 (pos rps)));
    puts = [];
  }
  pace rps i (Pc.send l) p = record p { due = due_after i.now p.puts p.due }
  pace rps i (Pc.put l) p = record {
    due = p.due +ℤ interval i l.interval_ns;
    puts = (p.due, i.now) ∷ p.puts;
  }
  pace rps i _ p = p

  -- The clock does not go back, and what the loop computes with stays below 2^51 ns, or 26 days.
  abbrev pub IsModestStep : Input F → Pc → Type 0
  IsModestStep i (Pc.put l) =
      IsModest l.budget × IsModest (i.now -ℤ l.b) × IsModest (interval i l.interval_ns)
  IsModestStep i _ = Unit

  abbrev pub Fits : Action F → Pc → ℤ → Type 0
  Fits (steps i) pc t = t ≤ℤ i.now × IsModestStep i pc
  Fits _ pc t = Unit

  abbrev pub pace_action : ℕ → Action F → Pc → Pace → Pace
  pace_action rps (steps i) pc p = pace rps i pc p
  pace_action rps _ pc p = p

abbrev pub reading : {F : Type 0} → Action F → ℤ → ℤ
reading (steps i) t = i.now
reading _ t = t

abbrev pub last_reading : {F : Type 0} → List (Action F) → ℤ → ℤ
last_reading [] t = t
last_reading (a ∷ as') t = last_reading as' (reading a t)

-- No request is put before it is due, but for 2 ns for each request before it in the round.
abbrev pub NoneEarly : List (ℤ × ℤ) → Type 0
NoneEarly [] = Unit
NoneEarly ((due, put) ∷ ps) = due ≤ℤ put +ℤ pos (2 * length ps) × NoneEarly ps

module _ {D F : Type 0} ⦃d : Dynamic D⦄ ⦃f : Double F⦄ (w : Bool) where
  -- Each step of the history fits what came before; `t` is the last reading of the clock.
  abbrev pub FitsAll : List (Action F) → System D → ℤ → Type 0
  FitsAll [] y t = Unit
  FitsAll (a ∷ as') y t =
      Fits f a y.pc t × elim (act w a y) [ ok z ↦ FitsAll as' z (reading a t) | fatal e ↦ Unit {0} ]

  -- The schedule beside the history.
  abbrev pub pace_all : List (Action F) → System D → Pace → Pace
  pace_all [] y p = p
  pace_all (a ∷ as') y p = elim (act w a y) [
    | ok z ↦ pace_all as' z (pace_action f y.scheduler.rps a y.pc p)
    | fatal e ↦ p
  ]
