-- ===== src/Random/Seeds.antt =====
-- The seeds of the threads.
use treadmill.Prelude.{ℕ, ◌+◌, ◌^◌, ◌<◌, ◌≡◌, ◌≢◌, arith}
use treadmill.Random.{no_seed, seed_of, thread_seed}

-- With a seed given by the flag, two threads whose ids have different hashes have different seeds,
-- at whatever times they make their engines, and the sum may wrap around.
pub thread_seed-ne :
    (hasher : ℕ → ℕ) (flag now later t u : ℕ)
    → flag ≢ no_seed
    → hasher t < 2 ^ 64
    → hasher u < 2 ^ 64
    → hasher t ≢ hasher u
    → thread_seed hasher flag now t ≢ thread_seed hasher flag later u
unfolding thread_seed seed_of
thread_seed-ne hasher flag now later t u given ht hu other same = ground arith

-- With no seed given, the time takes its place: two threads may have the same seed, when the one
-- whose hash is less by some number makes its engine that many seconds later.
pub thread_seed-collides :
    (hasher : ℕ → ℕ) (now seconds t u : ℕ)
    → hasher t ≡ hasher u + seconds
    → thread_seed hasher no_seed now t ≡ thread_seed hasher no_seed (now + seconds) u
unfolding thread_seed seed_of
thread_seed-collides hasher now seconds t u h = ground arith
