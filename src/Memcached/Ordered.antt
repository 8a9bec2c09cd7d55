-- ===== src/Memcached/Ordered.antt =====
-- The order of reads and writes at the targets of a Memcached worker.
use treadmill.Prelude.{
  ℕ, ◌<◌, ◌≡◌, ◌⊎◌, inl, inr, refl, sym, ap, ◌∙◌, subst, List, [], ◌∷◌, ◌++◌, arith,
}
use treadmill.Prelude.Int.{ℤ, pos}
use treadmill.Double.{Double}
use treadmill.Event.{Dynamic}
use treadmill.Worker.{begun, make_worker, set_off, sender_loop}
use treadmill.Worker.Histories.{Happening, history}
use treadmill.Worker.Uses.{
  Use, asks, resets, enters, requests_of, onto, onto-append, use_all-history,
}
use treadmill.Worker.Uses as Uses
use treadmill.Memcached.{
  Operation, MemcachedRequest, State, warmup, reading, fresh_workload, make_request,
  get_next_request, memcached_workload,
}
use treadmill.Memcached.Warmup.{
  Trace, use_workload, use_all, Contains, write, written, IsWarm, use_workload-IsWarm,
}

-- Of requests with the newest first: before each read, all of the `n` keys were written.
abbrev Ordered : ℕ → List MemcachedRequest → Type 0
Ordered n [] = Unit {0}
Ordered n (r ∷ rs) =
    (r.type ≡ Operation.get → (i : ℕ) → i < n → Contains (write i) rs) × Ordered n rs

Contains-onto :
    (r : MemcachedRequest) (xs ys : List MemcachedRequest)
    → Contains r (onto xs ys)
    → Contains r xs ⊎ Contains r ys
Contains-onto r [] ys c = inr c
Contains-onto r (x ∷ xs) ys c = elim (Contains-onto r xs (x ∷ ys) c) [
  | inl there ↦ inl (inr there)
  | inr (inl here) ↦ inl (inl here)
  | inr (inr there) ↦ inr there
]

Ordered-onto : (n : ℕ) (xs ys : List MemcachedRequest) → Ordered n (onto xs ys) → Ordered n ys
Ordered-onto n [] ys o = o
Ordered-onto n (x ∷ xs) ys o = (Ordered-onto n xs (x ∷ ys) o).1

module _ (n : ℕ) (some' : 0 < n) where
  make_request-Ordered :
      (state : State) (index i : ℕ) (rs : List MemcachedRequest)
      → ((j : ℕ) → j < written n state index → Contains (write j) rs)
      → Ordered n rs
      → Ordered n ((make_request (pos n) state i).0 ∷ rs)
  unfolding make_request
  make_request-Ordered warmup index i rs wrote o = (λ e. cc, o)
  make_request-Ordered reading index i rs wrote o = (λ e. wrote, o)

  use_workload-Ordered :
      (u : Use) (t : Trace) → IsWarm n t → Ordered n t.1 → Ordered n (use_workload (pos n) u t).1
  unfolding use_workload get_next_request
  use_workload-Ordered asks (w, rs) v o = make_request-Ordered w.state w.index _ rs v.wrote o
  use_workload-Ordered resets (w, rs) v o = o
  use_workload-Ordered (enters phase) (w, rs) v o = o

  use_all-Ordered :
      (us : List Use) (t : Trace) → IsWarm n t → Ordered n t.1 → Ordered n (use_all (pos n) us t).1
  unfolding use_all
  use_all-Ordered [] t v o = o
  use_all-Ordered (u ∷ us) t v o =
      use_all-Ordered us (use_workload (pos n) u t) (use_workload-IsWarm n some' u t v)
        (use_workload-Ordered u t v o)

module _ {D : Type 0} (object : D) (number_of_keys : ℤ) where
  use_once-eq :
      (u : Use) (t : Trace)
      → Uses.use_once (memcached_workload object number_of_keys) u t
        ≡ use_workload number_of_keys u t
  unfolding memcached_workload use_workload
  use_once-eq asks t = refl
  use_once-eq _ t = refl

  use_all-eq :
      (us : List Use) (t : Trace)
      → Uses.use_all (memcached_workload object number_of_keys) us t ≡ use_all number_of_keys us t
  unfolding use_all
  use_all-eq [] t = refl
  use_all-eq (u ∷ us) t =
      use_all-eq us (Uses.use_once (memcached_workload object number_of_keys) u t)
      ∙ ap (use_all number_of_keys us) (use_once-eq u t)

-- Whatever happens to a worker of the Memcached service, resets of its workload, late replies and
-- failures included: before the first GET that it sends, and so before each, it has sent a SET of
-- each of the n keys.
pub history-writes :
    {D F R : Type 0} (d : Dynamic D) (f : Double F) (object : D) (n : ℕ) (hs : List (Happening D R))
    (now id workers : ℤ) (connections : ℕ) (limit : ℤ) (config : D)
    (before after : List MemcachedRequest) (q : MemcachedRequest) (i : ℕ)
    → 0 < n
    → let k = memcached_workload object (pos n) in
      requests_of (history d f k hs (begun now k id workers connections limit config)).1
        ≡ before ++ q ∷ after
      → q.type ≡ Operation.get
      → i < n
      → Contains (write i) before
unfolding make_worker set_off sender_loop memcached_workload
history-writes {F = F} {R = R} d f object n hs now id workers connections limit config before after
      q i some' sent read lt =
    let k = memcached_workload object (pos n) in
    let w = begun now k id workers connections limit config in
    let (us, e) = use_all-history F R k d f hs w in
    let made : use_all (pos n) us (fresh_workload, [])
        ≡ ((history d f k hs w).0.workload, onto after (q ∷ onto before [])) =
      sym (use_all-eq object (pos n) us (fresh_workload, []))
      ∙ e
      ∙ ap (λ qs. ((history d f k hs w).0.workload, qs))
          (ap (λ qs. onto qs []) sent ∙ onto-append before (q ∷ after) []) in
    let o =
      use_all-Ordered n some' us (fresh_workload, [])
        (record { small = omega arith; early = λ p. some'; wrote = λ j l. absurd (omega arith) })
        tt in
    let ordered =
      Ordered-onto n after (q ∷ onto before []) (subst (λ (t : Trace). Ordered n t.1) made o) in
    elim (Contains-onto (write i) before [] (ordered.0 read i lt)) [ inl c ↦ c | inr c ↦ absurd c ]
