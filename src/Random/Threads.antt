-- ===== src/Random/Threads.antt =====
-- Threads that draw at the same time do not disturb one another.
use treadmill.Prelude.{
  ℕ, ◌≡◌, refl, Option, none, some, List, [], ◌∷◌, ◌==◌, if◌then◌else◌, arith, Option-cases, inl,
  inr,
}
use native.Mathlib.Decide.{ℕ_discrete}
use treadmill.Random.{Generator, Engines, thread_seed, Draw, Drawn, get, draw, thread_draw}

-- A call: the thread that makes it, the time, and what it asks for.
pub record Request (F : Type 0) : Type 0 where
  pub thread : ℕ
  pub now : ℕ
  pub what : Draw F

module _ {F : Type 0} where
  -- What thread `t` asked for, and what it got.
  abbrev pub asked_by : ℕ → List (Request F) → List (Request F)
  asked_by t [] = []
  asked_by t (r ∷ rs) = if r.thread == t then r ∷ asked_by t rs else asked_by t rs

  abbrev pub got_by : ℕ → List (ℕ × Drawn F) → List (Drawn F)
  got_by t [] = []
  got_by t ((u, x) ∷ xs) = if u == t then x ∷ got_by t xs else got_by t xs

module _ {G F : Type 0} (k : Generator G F) (hasher : ℕ → ℕ) (flag : ℕ) where
  -- The calls of all threads, in the order in which they happen.
  unfoldable pub draw_all : List (Request F) → Engines G → List (ℕ × Drawn F)
  unfolding thread_draw
  draw_all [] engines = []
  draw_all (r ∷ rs) engines =
      let (x, engines') = thread_draw k hasher flag r.now r.thread r.what engines in
      (r.thread, x) ∷ draw_all rs engines'

  -- One engine, drawn from again and again: what a thread alone would get.
  unfoldable pub draw_from : G → List (Request F) → List (Drawn F)
  unfolding draw
  draw_from g [] = []
  draw_from g (r ∷ rs) = let (x, g') = draw k hasher flag r.what g in x ∷ draw_from g' rs

  unfoldable pub draw_alone : ℕ → List (Request F) → List (Drawn F)
  unfolding draw_from
  draw_alone t [] = []
  draw_alone t (r ∷ rs) = draw_from (k.seeded (thread_seed hasher flag r.now t)) (r ∷ rs)

  -- The same from a given engine of the thread, if it has one.
  abbrev alone_from : ℕ → Option G → List (Request F) → List (Drawn F)
  alone_from t none rs = draw_alone t rs
  alone_from t (some g) rs = draw_from g rs

  -- The engine that a call of get() refers to.
  abbrev engine_of : (now t : ℕ) → Option G → G
  engine_of now t none = k.seeded (thread_seed hasher flag now t)
  engine_of now t (some g) = g

  thread_draw_lem :
      (now t : ℕ) (what : Draw F) (engines : Engines G) (u : ℕ)
      → let (x, g') = draw k hasher flag what (engine_of now t (engines t)) in
        ((thread_draw k hasher flag now t what engines).0 ≡ x)
        × ((thread_draw k hasher flag now t what engines).1 u
            ≡ (if t == u then some g' else engines u))
  unfolding thread_draw get
  thread_draw_lem now t what engines u = elim (Option-cases (engines t)) [
    | inl e ↦ rw (e, get) (ground arith, ground arith)
    | inr (g, e) ↦ rw (e, get) (ground arith, ground arith)
  ]

  alone_from-cons :
      (r : Request F) (rs : List (Request F)) (o : Option G)
      → let (x, g') = draw k hasher flag r.what (engine_of r.now r.thread o) in
        alone_from r.thread o (r ∷ rs) ≡ x ∷ draw_from g' rs
  unfolding draw_alone draw_from
  alone_from-cons r rs none = refl
  alone_from-cons r rs (some g) = refl

  got_by-draw_all :
      (t : ℕ) (rs : List (Request F)) (engines : Engines G)
      → got_by t (draw_all rs engines) ≡ alone_from t (engines t) (asked_by t rs)
  unfolding draw_all draw_alone draw_from
  got_by-draw_all t [] engines = got_none (engines t)
    where
      got_none : (o : Option G) → [] ≡ alone_from t o []
      got_none none = refl
      got_none (some g) = refl
  got_by-draw_all t (r ∷ rs) engines =
      let engines' = (thread_draw k hasher flag r.now r.thread r.what engines).1 in
      let drawn = thread_draw_lem r.now r.thread r.what engines t in
      let ih = got_by-draw_all t rs engines' in
      elim (ℕ_discrete r.thread t) [
        | yes same ↦
            ground
              (arith, drawn.0, drawn.1, ih, alone_from-cons r (asked_by t rs) (engines r.thread))
        | no other ↦ ground (arith, drawn.1, ih)
      ]

  -- However the calls of the threads are interleaved, each thread gets from its engine exactly what
  -- it would get alone: the draws, one after another, from one engine seeded at its first call.
  pub got_by-draw_alone :
      (t : ℕ) (rs : List (Request F))
      → got_by t (draw_all rs (λ u. none)) ≡ draw_alone t (asked_by t rs)
  got_by-draw_alone t rs = got_by-draw_all t rs (λ u. none)
