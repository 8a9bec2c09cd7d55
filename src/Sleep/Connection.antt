-- ===== src/Sleep/Connection.antt =====
-- services/sleep/Connection.h: the connection to a sleep server and the statistic that it keeps. The
-- thrift client is another library's; its answers are arguments.
use treadmill.Prelude.{
  ℕ, suc, ◌+◌, ◌≡◌, refl, ap, sym, ◌∙◌, Option, some, String, List, [], ◌∷◌, arith,
}
use treadmill.Prelude.Int.{ℤ, pos}
use treadmill.Double.{Double}
use treadmill.Result.{Result, ok, ok-injective, ◌>>=◌, >>=-eq-ok}
use treadmill.Io.{ns_look_up}
use treadmill.Statistics.{
  Histogram, StatisticsManager, new_manager, get_continuous_stat, add_value_at,
}
use treadmill.Prelude.Dict.{lookup}
use treadmill.Statistics.Registries.{find_or_make, update_at, has-find_or_make}
use treadmill.Statistics.Sharing.{Use, use_all}
use treadmill.Statistics.Logged.{size_at}
use treadmill.Statistics.Observed.{observe_all, number_of, logged_count-print}
use treadmill.Statistics.Printing.{print, logged_count}
use treadmill.Worker.{Try, value, exception}
use treadmill.Sleep.{on_answer}

abbrev pub sleep_time_stat : String
sleep_time_stat = "SleepTime"

-- How many requests did not fail.
abbrev pub successes : List (Try ℤ) → ℕ
successes [] = 0
successes (value z ∷ ts) = suc (successes ts)
successes (exception x ∷ ts) = successes ts

-- Where the client connects to, and the pointer histo_.
pub record SleepConnection : Type 0 where
  pub host : String
  pub port : ℤ
  pub histo : ℕ

module _ {F H : Type 0} (f : Double F) (e : Histogram f H) where
  -- The constructor, and the manager after it.
  unfoldable pub connect :
      {A : Type 0}
      → (ℕ → Option A)
      → (A → String)
      → ℤ
      → StatisticsManager H
      → Result (SleepConnection × StatisticsManager H)
  connect getaddrinfo inet_ntop port m = do
    let (p, m₁) = get_continuous_stat e sleep_time_stat m
    host ← ns_look_up getaddrinfo inet_ntop
    ok (record { host = host; port = port; histo = p }, m₁)

  unfoldable pub add_values : ℕ → List F → StatisticsManager H → StatisticsManager H
  add_values p [] m = m
  add_values p (v ∷ vs) m = add_values p vs (add_value_at e p v m)

  -- What the callbacks of the connection do to the manager, for answers in the order in which they
  -- come.
  unfoldable pub take_answers :
      SleepConnection → List (Try ℤ) → StatisticsManager H → StatisticsManager H
  unfolding on_answer add_values
  take_answers c [] m = m
  take_answers c (t ∷ ts) m = take_answers c ts (add_values c.histo (on_answer f t).1 m)

  abbrev slept : List (Try ℤ) → List (String × F)
  slept [] = []
  slept (value z ∷ ts) = (sleep_time_stat, f.of_int z) ∷ slept ts
  slept (exception x ∷ ts) = slept ts

  number_of-slept : (ts : List (Try ℤ)) → number_of f e sleep_time_stat (slept ts) ≡ successes ts
  number_of-slept [] = refl
  number_of-slept (value z ∷ ts) = omega (arith, number_of-slept ts)
  number_of-slept (exception x ∷ ts) = number_of-slept ts

  get_continuous_stat-there :
      (k : String) (p : ℕ) (m : StatisticsManager H)
      → lookup k m.histo_map.names ≡ some p
      → get_continuous_stat e k m ≡ (p, m)
  unfolding get_continuous_stat find_or_make
  get_continuous_stat-there k p m h = rw (h, find_or_make) refl

  take_answers-observe_all :
      (c : SleepConnection) (ts : List (Try ℤ)) (m : StatisticsManager H)
      → lookup sleep_time_stat m.histo_map.names ≡ some c.histo
      → take_answers c ts m ≡ observe_all f e (slept ts) m
  unfolding take_answers observe_all add_value_at update_at
  take_answers-observe_all c [] m h = refl
  take_answers-observe_all c (exception x ∷ ts) m h = take_answers-observe_all c ts m h
  take_answers-observe_all c (value z ∷ ts) m h =
      take_answers-observe_all c ts (add_value_at e c.histo (f.of_int z) m) h
      ∙ ap
          (λ (x : ℕ × StatisticsManager H).
            observe_all f e (slept ts) (add_value_at e x.0 (f.of_int z) x.1))
          (sym (get_continuous_stat-there sleep_time_stat c.histo m h))

  -- However the manager was used before a connection to a sleep server was made: when answers have
  -- come, print() writes as the count of SleepTime the values that were there and one for each
  -- answer that is a time; a request that failed adds nothing.
  pub logged_count-take_answers :
      {A : Type 0} (us : List (Use F)) (getaddrinfo : ℕ → Option A) (inet_ntop : A → String)
      (port : ℤ) (c : SleepConnection) (m : StatisticsManager H) (ts : List (Try ℤ))
      → connect getaddrinfo inet_ntop port (use_all e us new_manager) ≡ ok (c, m)
      → logged_count sleep_time_stat (print f e (take_answers c ts m)).0
        ≡ some (f.of_int (pos (size_at f e m.histo_map c.histo + successes ts)))
  unfolding connect get_continuous_stat
  logged_count-take_answers us getaddrinfo inet_ntop port c m ts made =
      let start = use_all e us new_manager in
      let got = get_continuous_stat e sleep_time_stat start in
      let (host, p, q) = >>=-eq-ok (ns_look_up getaddrinfo inet_ntop) _ made in
      let pointer : got.0 ≡ c.histo =
        ap (λ (x : SleepConnection × StatisticsManager H). x.0.histo) (ok-injective q) in
      let after : got.1 ≡ m =
        ap (λ (x : SleepConnection × StatisticsManager H). x.1) (ok-injective q) in
      let found : lookup sleep_time_stat got.1.histo_map.names ≡ some got.0 =
        has-find_or_make e.fresh sleep_time_stat start.histo_map in
      let there : lookup sleep_time_stat m.histo_map.names ≡ some c.histo =
        sym (ap (λ (x : StatisticsManager H). lookup sleep_time_stat x.histo_map.names) after)
        ∙ found
        ∙ ap some pointer in
      let seen = number_of f e sleep_time_stat (slept ts) in
      ap (λ x. logged_count sleep_time_stat (print f e x).0) (take_answers-observe_all c ts m there)
      ∙ ap (λ x. logged_count sleep_time_stat (print f e (observe_all f e (slept ts) x)).0)
          (sym after)
      ∙ (logged_count-print f e us sleep_time_stat (slept ts)).0
      ∙ ap (λ n. some (f.of_int (pos n)))
          (ap (λ (x : StatisticsManager H). size_at f e x.histo_map got.0 + seen) after
            ∙ ap (λ x. size_at f e m.histo_map x + seen) pointer
            ∙ ap (λ n. size_at f e m.histo_map c.histo + n) (number_of-slept ts))
