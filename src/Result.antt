-- ===== src/Result.antt =====
-- What ends the process: a failed CHECK, LOG(FATAL) and abort(), as error values.
use treadmill.Prelude.{◌≡◌, refl, Bool, true, false, ◌⊎◌, inl, inr}

pub data Fault : Type 0 where
  check_failed : Fault
  log_fatal : Fault
  aborted : Fault
  uncaught : Fault  -- an exception that nothing catches

pub data Result {ℓ} (A : Type ℓ) : Type ℓ where
  ok : A → Result A
  fatal : Fault → Result A

-- What follows is skipped once the process has ended.
module _ {ℓ κ} {A : Type ℓ} {B : Type κ} where
  infixl 5 ◌>>=◌ ◌>>◌
  abbrev pub ◌>>=◌ : Result A → (A → Result B) → Result B
  fatal fault >>= next = fatal fault
  ok x >>= next = next x

  abbrev pub ◌>>◌ : Result A → Result B → Result B
  fatal fault >> next = fatal fault
  ok x >> next = next

-- CHECK(b)
abbrev pub check : Bool → Result (Unit {0})
check true = ok tt
check false = fatal check_failed

-- A sequence that comes to its end has a first part that did.
pub >>=-eq-ok {ℓ κ} :
    {A : Type ℓ} {B : Type κ} (first : Result A) (next : A → Result B) {y : B}
    → (first >>= next) ≡ ok y
    → (x : A) × (first ≡ ok x) × (next x ≡ ok y)
>>=-eq-ok (fatal fault) next e = cc
>>=-eq-ok (ok x) next e = (x, refl, e)

pub Result-cases {ℓ} :
    {A : Type ℓ} (m : Result A) → ((a : A) × (m ≡ ok a)) ⊎ ((e : Fault) × (m ≡ fatal e))
Result-cases (ok a) = inl (a, refl)
Result-cases (fatal e) = inr (e, refl)

pub ok-injective {ℓ} : {A : Type ℓ} {x y : A} → ok x ≡ ok y → x ≡ y
ok-injective e = cc
