-- ===== src/Statistics/Counts.antt =====
-- CounterStatistic.h: what the calls of increase() and getCount() do to the counts.
use text.Mathlib.Text.{◌==◌ as str_eq}
use text.Mathlib.TextEquality.{eq_iff}
use treadmill.Prelude.{
  ◌≡◌, refl, ap, sym, ◌∙◌, not, ◌&&◌, Bool-cases, is_empty, String, Option-cases, none, some, arith,
  inl, inr, if◌then◌else◌,
}
use treadmill.Prelude.Int.{ℤ, pos, ◌+ℤ◌}
use treadmill.Prelude.Dict.{Dict, lookup, insert, lookup-insert}
use treadmill.Statistics.{
  CounterStatistic, find_or_construct, increase, get_count, get_subkey_count,
}

-- The count of a key, which is 0 where there is none.
abbrev count_at : String → Dict ℤ → ℤ
count_at k m = elim (lookup k m) [ none ↦ pos 0 | some n ↦ n ]

count_at-insert :
    (k j : String) (v : ℤ) (m : Dict ℤ)
    → count_at j (insert k v m) ≡ (if str_eq k j then v else count_at j m)
count_at-insert k j v m = ground (arith, lookup-insert k j v m)

find_or_construct-count_at : (k : String) (m : Dict ℤ) → (find_or_construct k m).0 ≡ count_at k m
unfolding find_or_construct
find_or_construct-count_at k m = ground arith

count_at-find_or_construct :
    (k j : String) (m : Dict ℤ) → count_at j (find_or_construct k m).1 ≡ count_at j m
unfolding find_or_construct
count_at-find_or_construct k j m = elim (Option-cases (lookup k m)) [
  | inl e ↦ rw (e, find_or_construct) (ground (arith, e, lookup-insert k j (pos 0) m, eq_iff k j))
  | inr (n, e) ↦ rw (e, find_or_construct) refl
]

same_key :
    (k j : String) (n : ℤ) (m : Dict ℤ)
    → (if str_eq k j then count_at k m +ℤ n else count_at j m)
      ≡ (if str_eq k j then count_at j m +ℤ n else count_at j m)
same_key k j n m = elim (Bool-cases (str_eq k j)) [
  | inl e ↦ rw e (ap (λ (i : String). count_at i m +ℤ n) ((eq_iff k j).0 e))
  | inr e ↦ rw e refl
]

-- After a call of increase() the count is higher by n, and so is the count of the subkey, unless it
-- is empty; every other subkey has the count that it had. Asking for a count changes no count.
pub get_subkey_count-increase :
    (n : ℤ) (subkey other : String) (c : CounterStatistic)
    → (get_count (increase n subkey c) ≡ get_count c +ℤ n)
      × ((get_subkey_count other (increase n subkey c)).1 ≡ (
          if not (is_empty subkey) && str_eq subkey other
          then (get_subkey_count other c).1 +ℤ n
          else (get_subkey_count other c).1))
      × ((get_subkey_count other (get_subkey_count subkey c).0).1 ≡ (get_subkey_count other c).1)
      × (get_count (get_subkey_count subkey c).0 ≡ get_count c)
unfolding get_count increase get_subkey_count
get_subkey_count-increase n subkey other c = (
  refl,
  elim (Bool-cases (is_empty subkey)) [
    | inl e ↦ rw e refl
    | inr e ↦
        rw
          (
            e,
            find_or_construct-count_at other,
            find_or_construct-count_at other,
            find_or_construct-count_at subkey,
            count_at-insert subkey other,
          )
          (rw (count_at-find_or_construct subkey other c.subkey_count)
            (same_key subkey other n c.subkey_count))
  ],
  find_or_construct-count_at other _
      ∙ count_at-find_or_construct subkey other c.subkey_count
      ∙ sym (find_or_construct-count_at other c.subkey_count),
  refl,
)
