-- ===== src/Random/Examples.antt =====
-- Two threads that draw in turn from counters in place of engines.
use treadmill.Prelude.{ℕ, suc, ◌+◌, ◌≡◌, refl, none, List, [], ◌∷◌}
use treadmill.Prelude.Int.{ℤ, pos}
use treadmill.Random.{
  Generator, thread_seed, seed_of, get, draw, thread_draw, integer, double, double_between,
  integer_between,
}
use treadmill.Random.Threads.{Request, asked_by, got_by, draw_all, draw_alone, got_by-draw_alone}

abbrev counting : Generator ℕ ℤ
counting = record {
  seeded = λ n. n;
  uniform_real = λ min max g. (pos g, suc g);
  uniform_int = λ min max g. (g, suc g);
}

abbrev ten : ℕ → ℕ
ten t = t + 10

abbrev requests : List (Request ℤ)
requests =
    record { thread = 1; now = 5; what = integer_between 0 9 }
    ∷ record { thread = 2; now = 6; what = integer_between 0 9 }
    ∷ record { thread = 1; now = 7; what = double_between (pos 0) (pos 1) }
    ∷ []

thread_draws :
    got_by 1 (draw_all counting ten 100 requests (λ u. none)) ≡ integer 111 ∷ double (pos 112) ∷ []
unfolding draw_all thread_draw thread_seed seed_of get draw
thread_draws = refl

got_by-draw_alone_example :
    got_by 1 (draw_all counting ten 100 requests (λ u. none))
    ≡ draw_alone counting ten 100 1 (asked_by 1 requests)
got_by-draw_alone_example = got_by-draw_alone counting ten 100 1 requests
