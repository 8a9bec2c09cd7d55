-- ===== src/Statistics/Registries.antt =====
-- StatisticsManager: a map of names to shared pointers, std::unordered_map<string, shared_ptr<A>>,
-- with what the pointers point to. A pointer is a place in the store.
use text.Mathlib.Text.{◌==◌ as str_eq}
use text.Mathlib.TextEquality.{eq_iff}
use treadmill.Prelude.{
  ℕ, ◌<◌, ◌≡◌, refl, ap, sym, ◌∙◌, String, Option-cases, none, some, List, [], ◌∷◌, ◌++◌, length,
  arith, inl, inr, if◌then◌else◌, get_or, modify, ◌==◌, ==_iff, get_or-modify_self,
  get_or-modify_ne, get_or-append, length-append, length-modify,
}
use native.Mathlib.Decide.{ℕ_discrete}
use treadmill.Prelude.Dict.{Dict, lookup, insert, lookup-insert, str_eq_self, lookup-nil}

pub record Registry (A : Type 0) : Type 0 where
  pub names : Dict ℕ
  pub store : List A

abbrev pub new_registry : {A : Type 0} → Registry A
new_registry = record { names = []; store = [] }

module _ {A : Type 0} where
  -- The pointer under a name, of a new `fresh` if there is none yet, and the registry after it.
  unfoldable pub find_or_make : A → String → Registry A → ℕ × Registry A
  find_or_make fresh name m = elim (lookup name m.names) [
    | some p ↦ (p, m)
    | none ↦ (
      length m.store,
      record { names = insert name (length m.store) m.names; store = m.store ++ fresh ∷ [] },
    )
  ]

  -- A call of a method through a pointer.
  unfoldable pub update_at : ℕ → (A → A) → Registry A → Registry A
  update_at p f m = record m { store = modify m.store p f }

  -- Every name has a value, and different names have different ones.
  pub record IsShared (m : Registry A) : Type 0 where
    pub there : (k : String) (p : ℕ) → lookup k m.names ≡ some p → p < length m.store
    pub apart :
        (j k : String) (p : ℕ) → lookup j m.names ≡ some p → lookup k m.names ≡ some p → j ≡ k

module _ {A : Type 0} (fresh : A) where
  pub find_or_make-IsShared :
      (name : String) (m : Registry A) → IsShared m → IsShared (find_or_make fresh name m).1
  unfolding find_or_make
  find_or_make-IsShared name m v = elim (Option-cases (lookup name m.names)) [
    | inr (p, e) ↦ rw (e, find_or_make) v
    | inl e ↦
        rw (e, find_or_make)
          (let n = length m.store in
            let found = λ (k : String). lookup-insert name k n m.names in
            let grown = length-append m.store (fresh ∷ []) in
            record {
              there = λ k p h. ground (arith, found k, grown, h, v.there k p);
              apart = λ j k p h g. ground (
                arith,
                found j,
                found k,
                h,
                g,
                v.apart j k p,
                v.there j p,
                v.there k p,
                eq_iff name j,
                eq_iff name k,
              );
            })
  ]

  pub has-find_or_make :
      (name : String) (m : Registry A)
      → lookup name (find_or_make fresh name m).1.names ≡ some (find_or_make fresh name m).0
  unfolding find_or_make
  has-find_or_make name m = elim (Option-cases (lookup name m.names)) [
    | inl e ↦
        rw (e, find_or_make)
          (ground (arith, lookup-insert name name (length m.store) m.names, str_eq_self name))
    | inr (p, e) ↦ rw (e, find_or_make) e
  ]

  pub keeps-find_or_make :
      (name other : String) (p : ℕ) (m : Registry A)
      → lookup other m.names ≡ some p
      → lookup other (find_or_make fresh name m).1.names ≡ some p
  unfolding find_or_make
  keeps-find_or_make name other p m h = elim (Option-cases (lookup name m.names)) [
    | inl e ↦
        rw (e, find_or_make)
          (ground
            (arith, lookup-insert name other (length m.store) m.names, eq_iff name other, h, e))
    | inr (q, e) ↦ rw (e, find_or_make) h
  ]

  pub same_pointer :
      (name other : String) (p q : ℕ) (m : Registry A)
      → IsShared m
      → lookup name m.names ≡ some p
      → lookup other m.names ≡ some q
      → (p == q) ≡ str_eq name other
  same_pointer name other p q m v has_p has_q =
      let back : p ≡ q → name ≡ other = λ e. v.apart name other p has_p (rw e has_q) in
      let forth : name ≡ other → p ≡ q =
        λ e. some_inj (sym has_p ∙ ap (λ (k : String). lookup k m.names) e ∙ has_q) in
      ground (arith, back, forth, eq_iff name other, ==_iff p q)
    where
      some_inj : {a b : ℕ} → some a ≡ some b → a ≡ b
      some_inj e = cc

  pub shares_value :
      (f : A → A) (name other : String) (p q : ℕ) (store : List A)
      → (p == q) ≡ str_eq name other
      → q < length store
      → get_or (modify store p f) q fresh
        ≡ (if str_eq name other then f (get_or store q fresh) else get_or store q fresh)
  shares_value f name other p q store same inside = rw (← same) (elim (ℕ_discrete p q) [
    | yes e ↦ ground (arith, e, get_or-modify_self store q f fresh)
    | no d ↦ ground (arith, get_or-modify_ne store p q f fresh d)
  ])

  -- A value stays where it is when another is made.
  pub get_or-find_or_make :
      (name : String) (p : ℕ) (m : Registry A)
      → p < length m.store
      → get_or (find_or_make fresh name m).1.store p fresh ≡ get_or m.store p fresh
  unfolding find_or_make
  get_or-find_or_make name p m h = elim (Option-cases (lookup name m.names)) [
    | inl e ↦ rw (e, find_or_make) (get_or-append m.store (fresh ∷ []) p fresh h)
    | inr (q, e) ↦ rw (e, find_or_make) refl
  ]

  pub update_at-IsShared :
      (p : ℕ) (f : A → A) (m : Registry A) → IsShared m → IsShared (update_at p f m)
  unfolding update_at
  update_at-IsShared p f m v = record {
    there = λ k q h. rw (length-modify m.store p f) (v.there k q h);
    apart = v.apart;
  }

  -- Who asks by a name again gets the same pointer; two names have the same one just when they are
  -- equal; and what is done through the pointer of one name is seen under that name, and no other.
  pub find_or_make-update_at :
      (name other : String) (f : A → A) (m : Registry A)
      → IsShared m
      → let p = (find_or_make fresh name m).0 in
        let m₁ = (find_or_make fresh name m).1 in
        let q = (find_or_make fresh other m₁).0 in
        let m₂ = (find_or_make fresh other m₁).1 in
        (find_or_make fresh name m₂ ≡ (p, m₂))
        × ((p == q) ≡ str_eq name other)
        × (get_or (update_at p f m₂).store q fresh
            ≡ (if str_eq name other then f (get_or m₂.store q fresh) else get_or m₂.store q fresh))
  unfolding update_at find_or_make
  find_or_make-update_at name other f m h =
      let p = (find_or_make fresh name m).0 in
      let m₁ = (find_or_make fresh name m).1 in
      let q = (find_or_make fresh other m₁).0 in
      let m₂ = (find_or_make fresh other m₁).1 in
      let v = find_or_make-IsShared other m₁ (find_or_make-IsShared name m h) in
      let has_p : lookup name m₂.names ≡ some p =
        keeps-find_or_make other name p m₁ (has-find_or_make name m) in
      let has_q : lookup other m₂.names ≡ some q = has-find_or_make other m₁ in
      let same = same_pointer name other p q m₂ v has_p has_q in
      (
        rw (has_p, find_or_make) refl,
        same,
        shares_value f name other p q m₂.store same (v.there other q has_q),
      )

pub new_registry-IsShared : (A : Type 0) → IsShared {A = A} new_registry
new_registry-IsShared A = record {
  there = λ k p h. ground (arith, lookup-nil ℕ k, h);
  apart = λ j k p h g. ground (arith, lookup-nil ℕ k, g);
}
