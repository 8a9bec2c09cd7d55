-- ===== src/Memcached/Sequence.antt =====
-- The requests that a workload gives when nothing resets it, seen at the Memcached client.
use treadmill.Prelude.{
  ℕ, zero, suc, ◌+◌, ◌%◌, ◌≤◌, ◌<◌, ◌≡◌, refl, ap, arith, ◌∙◌, if-cases, if◌then◌else◌, String, ltb,
  ◌==◌,
}
use native.Mathlib.Nat.{mod-eq_of_lt, mod-add-mod}
use treadmill.Prelude.Int.{ℤ, pos, ◌-ℤ◌, ◌≤ℤ◌}
use treadmill.Memcached.{
  MemcachedWorkload, State, warmup, reading, mc_get, mc_set, to_string, fresh_workload,
  make_request, get_next_request, send_request,
}
use treadmill.Memcached.Warmup.{is-last}

-- The workload after `k` requests.
abbrev pub after : ℤ → ℕ → MemcachedWorkload
after number_of_keys zero = fresh_workload
after number_of_keys (suc k) = (get_next_request number_of_keys (after number_of_keys k)).1

-- Where the workload stands after `k` requests.
record IsAt (n k : ℕ) (w : MemcachedWorkload) : Type 0 where
  state : w.state ≡ (if ltb k n then warmup else reading)
  index : w.index ≤ n
  turn : (if w.index == n then 0 else w.index) ≡ k % n

suc-mod : (n k : ℕ) → 0 < n → (k % n + 1) % n ≡ suc k % n
suc-mod n k h = rw (mod-add-mod k n 1) (ap (λ (x : ℕ). x % n) (omega arith))

wrap : (n i : ℕ) → i < n → (if suc i == n then 0 else suc i) ≡ (i + 1) % n
wrap n i h = grind arith

module _ (n : ℕ) (some' : 0 < n) where
  IsAt-make_request :
      (k i : ℕ) (phase : String) (state : State)
      → state ≡ (if ltb k n then warmup else reading)
      → i ≡ k % n
      → IsAt n
          (suc k)
          (record { phase = phase; state = (make_request (pos n) state i).1; index = suc i })
  unfolding make_request
  IsAt-make_request k i phase warmup e turn =
      let early : k < n = ground (arith, e) in
      let same : i ≡ k = turn ∙ mod-eq_of_lt early in
      rw (is-last i n some') (record {
        state = ground (arith, early, same);
        index = omega arith;
        turn = rw (wrap n i (omega arith), turn) (suc-mod n k some');
      })
  IsAt-make_request k i phase reading e turn = record {
    state = ground arith;
    index = omega arith;
    turn = rw (wrap n i (omega arith), turn) (suc-mod n k some');
  }

  IsAt-next :
      (k : ℕ) (phase : String) (state : State) (index : ℕ)
      → IsAt n k (record { phase = phase; state = state; index = index })
      → IsAt n
          (suc k)
          (get_next_request (pos n) (record { phase = phase; state = state; index = index })).1
  unfolding get_next_request
  IsAt-next k phase state index v =
      IsAt-make_request k (if index == n then 0 else index) phase state v.state v.turn

  IsAt-after : (k : ℕ) → IsAt n k (after (pos n) k)
  IsAt-after zero = record { state = ground arith; index = omega arith; turn = ground arith }
  IsAt-after (suc k) =
      let v = IsAt-after k in
      IsAt-next k (after (pos n) k).phase (after (pos n) k).state (after (pos n) k).index v

  -- Of n keys, one at least, the first n requests set key 0, 1, …, n - 1, each to its own name, and
  -- every request from then on gets a key, in the same order, again and again.
  pub send_request-after :
      (k : ℕ)
      → send_request (get_next_request (pos n) (after (pos n) k)).0
        ≡ (if ltb k n then mc_set (to_string k) (to_string k) else mc_get (to_string (k % n)))
  unfolding get_next_request make_request send_request
  send_request-after k =
      let v = IsAt-after k in
      let small : k < n → k % n ≡ k = λ lt. mod-eq_of_lt lt in
      rw v.turn (
        rw v.state (
          if-cases
            (λ (state : State). send_request (make_request (pos n) state (k % n)).0 ≡ (
              if ltb k n then mc_set (to_string k) (to_string k) else mc_get (to_string (k % n))))
            (ltb k n) (λ lt. rw (lt, small (ground arith)) refl) (λ ge. rw ge refl)))

-- With no keys at all, or a negative number of them, the warm-up never ends: no key is ever read.
pub after-warmup :
    (number_of_keys : ℤ) (k : ℕ) → number_of_keys ≤ℤ pos 0 → (after number_of_keys k).state ≡ warmup
unfolding get_next_request make_request ◌-ℤ◌
after-warmup number_of_keys zero h = refl
after-warmup number_of_keys (suc k) h = ground (arith, after-warmup number_of_keys k h)
