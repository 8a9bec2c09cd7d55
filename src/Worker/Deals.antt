-- ===== src/Worker/Deals.antt =====
-- Requests dealt to the connections in turn, and those that effects send.
use treadmill.Prelude.{ℕ, zero, suc, ◌+◌, ◌%◌, ◌≡◌, refl, ap, List, [], ◌∷◌, ◌++◌, arith}
use native.Mathlib.Nat.{add-zero, zero-add}
use treadmill.Worker.{Effect, sends}

module _ {F Q R : Type 0} where
  -- The connection and the number of each request sent, in order.
  abbrev pub sent_by : List (Effect F Q R) → List (ℕ × ℕ)
  sent_by [] = []
  sent_by (sends conn number q ∷ es) = (conn, number) ∷ sent_by es
  sent_by (_ ∷ es) = sent_by es

  pub sent_by-append : (xs ys : List (Effect F Q R)) → sent_by (xs ++ ys) ≡ sent_by xs ++ sent_by ys
  sent_by-append [] ys = refl
  sent_by-append (sends conn number q ∷ xs) ys = ap (◌∷◌ (conn, number)) (sent_by-append xs ys)
  sent_by-append (_ ∷ xs) ys = sent_by-append xs ys

-- `count` requests from number `first` on, dealt to `n` connections in turn.
abbrev pub deal : ℕ → ℕ → ℕ → List (ℕ × ℕ)
deal n first zero = []
deal n first (suc count) = (first % n, first) ∷ deal n (suc first) count

suc_shift : (m n : ℕ) → m + suc n ≡ suc m + n
suc_shift m n = omega arith

suc_left : (m n : ℕ) → suc m + n ≡ suc (m + n)
suc_left m n = omega arith

pub deal-append : (n first a b : ℕ) → deal n first a ++ deal n (first + a) b ≡ deal n first (a + b)
deal-append n first zero b = rw (add-zero first, zero-add b)
deal-append n first (suc a) b =
    rw (suc_shift first a, suc_left a b)
      (ap (◌∷◌ (first % n, first)) (deal-append n (suc first) a b))
