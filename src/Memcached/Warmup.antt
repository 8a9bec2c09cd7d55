-- ===== src/Memcached/Warmup.antt =====
-- Every key has been written before the first one is read.
use treadmill.Prelude.{
  ℕ, suc, ◌≤◌, ◌<◌, ◌≡◌, ◌⊎◌, inl, inr, false, ap, Bool-cases, String, List, [], ◌∷◌, arith, ◌==◌,
}
use native.Mathlib.Decide.{ℕ_discrete}
use treadmill.Prelude.Int.{ℤ, pos, ◌-ℤ◌}
use treadmill.Worker.Uses.{Use, asks, resets, enters}
use treadmill.Memcached.{
  Operation, MemcachedRequest, MemcachedWorkload, State, warmup, reading, to_string, request,
  set_value, is, fresh_workload, reset, set_phase, make_request, get_next_request,
}

-- The workload, with the requests that it gave so far, the newest first.
abbrev pub Trace : Type 0
Trace = MemcachedWorkload × List MemcachedRequest

unfoldable pub use_workload : ℤ → Use → Trace → Trace
unfolding reset set_phase
use_workload number_of_keys asks (w, rs) =
    let (r, w') = get_next_request number_of_keys w in (w', r ∷ rs)
use_workload number_of_keys resets (w, rs) = (reset w, rs)
use_workload number_of_keys (enters phase) (w, rs) = (set_phase phase w, rs)

unfoldable pub use_all : ℤ → List Use → Trace → Trace
use_all number_of_keys [] t = t
use_all number_of_keys (u ∷ us) t = use_all number_of_keys us (use_workload number_of_keys u t)

abbrev pub Contains : MemcachedRequest → List MemcachedRequest → Type 0
Contains r [] = ⊥
Contains r (x ∷ xs) = (x ≡ r) ⊎ Contains r xs

-- The request that writes key `i`.
abbrev pub write : ℕ → MemcachedRequest
write i = set_value (to_string i) (request Operation.set (to_string i))

abbrev pub read : ℕ → MemcachedRequest
read i = request Operation.get (to_string i)

-- How many keys have been written, at least.
abbrev pub written : ℕ → State → ℕ → ℕ
written n warmup index = index
written n reading index = n

written-restart : (n : ℕ) (state : State) (i j : ℕ) → j < written n state 0 → j < written n state i
written-restart n warmup i j lt = absurd (omega arith)
written-restart n reading i j lt = lt

pub record IsWarm (n : ℕ) (t : Trace) : Type 0 where
  pub small : t.0.index ≤ n
  pub early : t.0.state ≡ warmup → t.0.index < n
  pub wrote : (i : ℕ) → i < written n t.0.state t.0.index → Contains (write i) t.1

pub is-last : (i n : ℕ) → 0 < n → is i (pos n -ℤ pos 1) ≡ (suc i == n)
unfolding ◌-ℤ◌
is-last i n h = ground arith

module _ (n : ℕ) (some' : 0 < n) where
  make_request-IsWarm :
      (phase : String) (state : State) (i : ℕ) (rs : List MemcachedRequest)
      → i < n
      → ((j : ℕ) → j < written n state i → Contains (write j) rs)
      → IsWarm n (
        record { phase = phase; state = (make_request (pos n) state i).1; index = suc i },
        (make_request (pos n) state i).0 ∷ rs,
      )
  unfolding make_request
  make_request-IsWarm phase warmup i rs lt h = elim (Bool-cases (suc i == n)) [
    | inl e ↦
        rw (is-last i n some', e)
          (record { small = omega arith; early = λ q. cc; wrote = λ j lt. new j (ground arith) })
    | inr e ↦
        rw (is-last i n some', e)
          (record { small = omega arith; early = λ q. ground arith; wrote = λ j lt. new j lt })
  ]
    where
      new : (j : ℕ) → j < suc i → Contains (write j) (write i ∷ rs)
      new j lt = elim (ℕ_discrete i j) [
        | yes same ↦ inl (ap write same)
        | no other ↦ inr (h j (omega arith))
      ]
  make_request-IsWarm phase reading i rs lt h = record {
    small = lt;
    early = λ q. cc;
    wrote = λ j lt. inr (h j lt);
  }

  pub use_workload-IsWarm : (u : Use) (t : Trace) → IsWarm n t → IsWarm n (use_workload (pos n) u t)
  unfolding use_workload get_next_request reset set_phase
  use_workload-IsWarm asks (w, rs) v = elim (Bool-cases (w.index == n)) [
    | inl e ↦ rw e (
        make_request-IsWarm w.phase w.state 0 rs some'
          (λ j lt. v.wrote j (written-restart n w.state w.index j lt)))
    | inr e ↦ rw e (make_request-IsWarm w.phase w.state w.index rs (inside w v e) v.wrote)
  ]
    where
      inside : (w : MemcachedWorkload) → IsWarm n (w, rs) → (w.index == n) ≡ false → w.index < n
      inside w v e = ground (arith, v.small)
  use_workload-IsWarm resets (w, rs) v = record {
    small = omega arith;
    early = λ q. some';
    wrote = λ j lt. v.wrote j (written-restart n w.state w.index j lt);
  }
  use_workload-IsWarm (enters phase) (w, rs) v = record {
    small = v.small;
    early = v.early;
    wrote = v.wrote;
  }

  use_all-IsWarm : (us : List Use) (t : Trace) → IsWarm n t → IsWarm n (use_all (pos n) us t)
  unfolding use_all
  use_all-IsWarm [] t v = v
  use_all-IsWarm (u ∷ us) t v =
      use_all-IsWarm us (use_workload (pos n) u t) (use_workload-IsWarm u t v)

  -- However a worker asks, resets and changes the phase: once the workload has left its warm-up, so
  -- before the first GET is given, a SET of each of the n keys has been given.
  pub reading-wrote :
      (us : List Use) (i : ℕ)
      → (use_all (pos n) us (fresh_workload, [])).0.state ≡ reading
      → i < n
      → Contains (write i) (use_all (pos n) us (fresh_workload, [])).1
  reading-wrote us i e lt =
      let v =
        use_all-IsWarm us (fresh_workload, [])
          (record {
            small = omega arith;
            early = λ q. some';
            wrote = λ j lt. absurd (omega arith);
          }) in
      v.wrote i (rw (e, written) lt)
