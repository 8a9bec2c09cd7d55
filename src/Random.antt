-- ===== src/Random.antt =====
-- RandomEngine.h and RandomEngine.cpp: the random engine that the process shares, and the one that
-- each thread makes for itself. std::mt19937_64 and the uniform distributions, which keep nothing
-- between calls, are the standard library's: they are an argument, `Generator`. The clock and the
-- hash of a thread's id are arguments too.
pub mod Threads
pub mod Seeds
mod Examples
use treadmill.Prelude.{
  ℕ, ◌+◌, ◌-◌, ◌%◌, ◌^◌, Option, none, some, ◌==◌, if◌then◌else◌, List, [], ◌∷◌,
}
use treadmill.Double.{Double}

-- An engine G, and what the distributions draw from it: a number, and the engine after that.
pub record Generator (G F : Type 0) : Type 0 where
  pub seeded : ℕ → G
  pub uniform_real : F → F → G → F × G
  pub uniform_int : ℕ → ℕ → G → ℕ × G

-- ULLONG_MAX, which as the value of the flag treadmill_random_seed asks for the time.
abbrev pub no_seed : ℕ
no_seed = 2 ^ 64 - 1

unfoldable pub seed_of : (flag now : ℕ) → ℕ
seed_of flag now = if flag == no_seed then now else flag

module _ {G F : Type 0} (k : Generator G F) where
  -- RandomEngine::random_engine_, made when the program starts.
  unfoldable pub make_engine : (flag now : ℕ) → G
  unfolding seed_of
  make_engine flag now = k.seeded (seed_of flag now)

  -- RandomEngine::getDouble() and the three calls beside it.
  unfoldable pub get_double : Double F → G → F × G
  get_double f g = k.uniform_real (f.decimal 0 0) (f.decimal 1 0) g

  unfoldable pub get_double_between : F → F → G → F × G
  get_double_between min max g = k.uniform_real min max g

  unfoldable pub get_integer : G → ℕ × G
  get_integer g = k.uniform_int 0 no_seed g

  unfoldable pub get_integer_between : ℕ → ℕ → G → ℕ × G
  get_integer_between min max g = k.uniform_int min max g

-- The thread-local pointer: the engine of each thread that has one.
abbrev pub Engines : Type 0 → Type 0
Engines G = ℕ → Option G

abbrev pub reset : {G : Type 0} → Engines G → ℕ → G → Engines G
reset engines t g u = if t == u then some g else engines u

-- uint64_t, with its wrap-around.
unfoldable pub thread_seed : (hasher : ℕ → ℕ) (flag now t : ℕ) → ℕ
unfolding seed_of
thread_seed hasher flag now t = (hasher t + seed_of flag now) % 2 ^ 64

-- What a thread asks ThreadSafeRandomEngine for, and what it gets.
pub data Draw (F : Type 0) : Type 0 where
  double_between : F → F → Draw F
  integer_between : ℕ → ℕ → Draw F

pub data Drawn (F : Type 0) : Type 0 where
  double : F → Drawn F
  integer : ℕ → Drawn F

module _ {G F : Type 0} (k : Generator G F) (hasher : ℕ → ℕ) (flag : ℕ) where
  -- ThreadSafeRandomEngine::get(), called by the thread `t`: its engine, made at the first call.
  unfoldable pub get : (now t : ℕ) → Engines G → G × Engines G
  get now t engines = elim (engines t) [
    | some g ↦ (g, engines)
    | none ↦ let g = k.seeded (thread_seed hasher flag now t) in (g, reset engines t g)
  ]

  unfoldable pub draw : Draw F → G → Drawn F × G
  draw (double_between min max) g = let (x, g') = k.uniform_real min max g in (double x, g')
  draw (integer_between min max) g = let (n, g') = k.uniform_int min max g in (integer n, g')

  -- getDouble and getInteger: the draw advances the engine that get() refers to.
  unfoldable pub thread_draw : (now t : ℕ) → Draw F → Engines G → Drawn F × Engines G
  unfolding get draw
  thread_draw now t what engines =
      let (g, engines') = get now t engines in let (x, g') = draw what g in (x, reset engines' t g')
