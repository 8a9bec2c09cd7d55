-- ===== src/Prelude/Dict.antt =====
-- std::map and std::unordered_map with string keys: association lists with one entry for each key.
use Prim.Native.Nat.{ℕ, ◌+◌}
use Prim.Native.String.{String}
use mathlib.Core.Path.{◌≡◌, refl}
use mathlib.Core.Bool.{true}
use mathlib.Core.List.{List, [], ◌∷◌}
use mathlib.Core.Option.{Option, none, some}
use native.Mathlib.Omega.{arith}
use text.Mathlib.Text.{◌==◌ as str_eq}
use text.Mathlib.TextEquality.{eq_iff}
use treadmill.Prelude.Tests.{if◌then◌else◌}

abbrev pub Dict {ℓ} : Type ℓ → Type ℓ
Dict V = List (String × V)

pub str_eq_self : (k : String) → str_eq k k ≡ true
str_eq_self k = (eq_iff k k).1 refl

module _ {ℓ} {V : Type ℓ} where
  -- find
  unfoldable pub lookup : String → Dict V → Option V
  lookup k [] = none
  lookup k ((j, v) ∷ m) = if str_eq j k then some v else lookup k m

  -- insert_or_assign
  unfoldable pub insert : String → V → Dict V → Dict V
  insert k v [] = (k, v) ∷ []
  insert k v ((j, w) ∷ m) = if str_eq j k then (k, v) ∷ m else (j, w) ∷ insert k v m

  -- The key that was written has its new value, every other key what it had.
  pub lookup-insert :
      (written read : String) (value : V) (entries : Dict V)
      → lookup read (insert written value entries)
        ≡ (if str_eq written read then some value else lookup read entries)
  unfolding lookup insert
  lookup-insert written read value [] = refl
  lookup-insert written read value ((key, old) ∷ entries) = ground (
    arith,
    lookup-insert written read value entries,
    eq_iff key written,
    eq_iff written read,
    eq_iff key read,
  )

-- `m[k]++` on a map of counts, which starts a missing key at 0.
unfoldable pub bump : String → Dict ℕ → Dict ℕ
bump k [] = (k, 1) ∷ []
bump k ((j, n) ∷ m) = if str_eq j k then (j, n + 1) ∷ m else (j, n) ∷ bump k m

-- The sum of the counts.
unfoldable pub total : Dict ℕ → ℕ
total [] = 0
total ((k, n) ∷ m) = n + total m

-- The count of one key.
unfoldable pub count_of : String → Dict ℕ → ℕ
count_of c [] = 0
count_of c ((j, n) ∷ m) = if str_eq j c then n + count_of c m else count_of c m

pub count_of-bump :
    (c k : String) (m : Dict ℕ)
    → count_of c (bump k m) ≡ count_of c m + (if str_eq k c then 1 else 0)
unfolding count_of bump
count_of-bump c k [] = ground arith
count_of-bump c k ((j, n) ∷ m) =
    ground (arith, eq_iff k c, eq_iff j k, eq_iff j c, count_of-bump c k m)

pub count_of-empty : (c : String) → count_of c [] ≡ 0
unfolding count_of
count_of-empty c = refl

pub lookup-nil {ℓ} : (V : Type ℓ) (k : String) → lookup {V = V} k [] ≡ none
unfolding lookup
lookup-nil V k = refl
