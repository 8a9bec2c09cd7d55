-- ===== src/Io/Names.antt =====
-- nsLookUp(): how often it tries.
use treadmill.Prelude.{
  ℕ, zero, suc, ◌+◌, ◌≤◌, ◌<◌, ◌≡◌, refl, Option, none, some, String, arith, ap, ◌∙◌,
}
use native.Mathlib.Decide.{ℕ_discrete}
use treadmill.Result.{ok, fatal, Fault}
use treadmill.Io.{look_up, ns_look_up}

module _ {A : Type 0} (getaddrinfo : ℕ → Option A) where
  look_up-first :
      (first left attempt : ℕ) (address : A)
      → first ≤ attempt
      → attempt < first + left
      → ((n : ℕ) → first ≤ n → n < attempt → getaddrinfo n ≡ none)
      → getaddrinfo attempt ≡ some address
      → look_up getaddrinfo first left ≡ some address
  unfolding look_up
  look_up-first first zero attempt address le lt earlier found = absurd (omega arith)
  look_up-first first (suc left) attempt address le lt earlier found =
      elim (ℕ_discrete first attempt) [
        | yes same ↦
            let now : getaddrinfo first ≡ some address = ap getaddrinfo same ∙ found in
            rw (now, look_up) refl
        | no other ↦
            rw (earlier first (omega arith) (omega arith), look_up)
              (look_up-first (suc first) left attempt address (omega arith) (omega arith)
                (λ n h k. earlier n (omega arith) k) found)
      ]

  look_up-none :
      (first left : ℕ)
      → ((n : ℕ) → first ≤ n → n < first + left → getaddrinfo n ≡ none)
      → look_up getaddrinfo first left ≡ none
  unfolding look_up
  look_up-none first zero failed = refl
  look_up-none first (suc left) failed =
      rw (failed first (omega arith) (omega arith), look_up)
        (look_up-none (suc first) left (λ n h k. failed n (omega arith) (omega arith)))

  -- The first attempt that succeeds gives the address, if it is among the first three.
  pub ns_look_up-ok :
      (inet_ntop : A → String) (attempt : ℕ) (address : A)
      → attempt < 3
      → ((n : ℕ) → n < attempt → getaddrinfo n ≡ none)
      → getaddrinfo attempt ≡ some address
      → ns_look_up getaddrinfo inet_ntop ≡ ok (inet_ntop address)
  unfolding ns_look_up
  ns_look_up-ok inet_ntop attempt address lt earlier found =
      rw
        (
          look_up-first 0 3 attempt address (omega arith) lt (λ n h k. earlier n k) found,
          ns_look_up,
        )
        refl

  -- If the first three attempts fail the process ends, whatever later ones would give.
  pub ns_look_up-fatal :
      (inet_ntop : A → String)
      → ((n : ℕ) → n < 3 → getaddrinfo n ≡ none)
      → ns_look_up getaddrinfo inet_ntop ≡ fatal Fault.log_fatal
  unfolding ns_look_up
  ns_look_up-fatal inet_ntop failed = rw (look_up-none 0 3 (λ n h k. failed n k), ns_look_up) refl
