-- ===== src/Scheduler/Budget.antt =====
-- The time budget of the loop: how late one request is does not delay the next ones.
use treadmill.Prelude.{◌≡◌, ◌≢◌, arith, false}
use treadmill.Prelude.Int.{ℤ, ◌+ℤ◌, ◌-ℤ◌, ◌≤ℤ◌, max_ℤ, int_laws, +ℤ_parts, -ℤ_parts}
use treadmill.Double.{Double, IsSmall}
use treadmill.Scheduler.Loop.{Locals, Input, charge, credit, wait_ns, random_exponential_interval}

-- When the next request is due, seen from where the last one was put: a + budget.
abbrev pub due : Locals → ℤ
due l = l.a +ℤ l.budget

charge-budget : (b : ℤ) (l : Locals) → l.a ≢ ℤ.pos 0 → (charge b l).budget ≡ l.budget -ℤ (b -ℤ l.a)
unfolding charge
charge-budget b l h = ground arith

module _ {F : Type 0} (f : Double F) where
  exact :
      (x g t : ℤ)
      → IsSmall x
      → IsSmall g
      → IsSmall t
      → IsSmall (g -ℤ t)
      → IsSmall (x +ℤ (g -ℤ t))
      → f.to_int (f.add (f.of_int x) (f.sub (f.of_int g) (f.of_int t))) ≡ x +ℤ (g -ℤ t)
  exact x g t hx hg ht hgt h =
      rw (f.sub_exact g t hg ht, f.add_exact x (g -ℤ t) hx hgt) (f.to_int-of_int (x +ℤ (g -ℤ t)) h)

  -- One round of the loop after the first request: `b` is read, the wait is over, `a` is read. If
  -- the interval drawn is a whole number of nanoseconds and the budget, the interval, the time
  -- waited and their sums are below 2^53, then the next request is due exactly one interval after
  -- this one was, however long the message and the wait took.
  pub due-credit-charge :
      (l : Locals) (b : ℤ) (i : Input F) (gap : ℤ)
      → l.a ≢ ℤ.pos 0
      → random_exponential_interval f i.draw (f.of_int l.interval_ns) ≡ f.of_int gap
      → IsSmall (charge b l).budget
      → IsSmall gap
      → IsSmall (i.now -ℤ b)
      → IsSmall (gap -ℤ (i.now -ℤ b))
      → IsSmall ((charge b l).budget +ℤ (gap -ℤ (i.now -ℤ b)))
      → due (credit f i (charge b l)) ≡ due l +ℤ gap
  unfolding charge credit
  due-credit-charge l b i gap started drawn s1 s2 s3 s4 s5 =
      let paid : (charge b l).budget ≡ l.budget -ℤ (b -ℤ l.a) = charge-budget b l started in
      let whole : (credit f i (charge b l)).budget ≡ (charge b l).budget +ℤ (gap -ℤ (i.now -ℤ b)) =
        rw drawn (exact (charge b l).budget gap (i.now -ℤ b) s1 s2 s3 s4 s5) in
      rw whole (rw paid (omega int_laws))

-- The wait ends no earlier than the budget says, and a budget that is used up means no wait.
pub wait_ns_lem :
    (start budget now : ℤ)
    → wait_ns start (max_ℤ budget (ℤ.pos 0)) now ≡ false
    → start +ℤ budget ≤ℤ now
unfolding wait_ns
wait_ns_lem start budget now h = ground (arith, -ℤ_parts now start, +ℤ_parts start budget)
