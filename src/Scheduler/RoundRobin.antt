-- ===== src/Scheduler/RoundRobin.antt =====
-- The requests are dealt to the workers in turn.
use treadmill.Prelude.{
  ℕ, suc, ◌+◌, ◌%◌, ◌^◌, ◌≤◌, ◌<◌, ◌≡◌, refl, inl, inr, Bool, List, [], ◌∷◌, ◌++◌, length, get_or,
  length-map, length-modify, get_or-map, get_or-modify_self, get_or-modify_ne, length-replicate,
  get_or-replicate, ltb, ◌==◌, if◌then◌else◌, arith, ap,
}
use native.Mathlib.Decide.{ℕ_discrete}
use treadmill.Double.{Double}
use treadmill.Event.{Dynamic, Event, EventType, bare}
use treadmill.Result.{ok}
use treadmill.Scheduler.{Scheduler, make, run, message_all_workers}
use treadmill.Scheduler.Loop.{Pc, Input, loop_step, put_request, begin_round}
use treadmill.Scheduler.Calls.{IsSetting, IsCall, perform-IsCall}
use treadmill.Scheduler.System.{Action, System, idle_system, run_all, run_all_keeps}

abbrev pub tally : EventType → ℕ → ℕ
tally EventType.reset n = 0
tally EventType.send_request n = suc n
tally _ n = n

tally-setting : (t : EventType) (n : ℕ) → IsSetting t → tally t n ≡ n
tally-setting EventType.set_phase n h = refl
tally-setting EventType.set_max_outstanding n h = refl
tally-setting EventType.stop n h = refl
tally-setting EventType.reset n h = absurd h
tally-setting EventType.send_request n h = absurd h

module _ {D : Type 0} where
  abbrev pub sent_from : ℕ → List (Event D) → ℕ
  sent_from n [] = n
  sent_from n (e ∷ q) = sent_from (tally e.event_type n) q

  -- The requests in a queue since its last RESET.
  abbrev pub sent : List (Event D) → ℕ
  sent q = sent_from 0 q

  sent_from-append :
      (n : ℕ) (q : List (Event D)) (e : Event D)
      → sent_from n (q ++ e ∷ []) ≡ tally e.event_type (sent_from n q)
  sent_from-append n [] e = refl
  sent_from-append n (x ∷ q) e = sent_from-append (tally x.event_type n) q e

  sent-append :
      (q : List (Event D)) (e : Event D) → sent (q ++ e ∷ []) ≡ tally e.event_type (sent q)
  sent-append q e = sent_from-append 0 q e

  -- Queue `i` of the scheduler.
  abbrev pub queue : Scheduler D → ℕ → List (Event D)
  queue s i = get_or s.queues i []

  -- After `rounds` full rounds the workers before `next` have had one request more.
  record IsDealt (n : ℕ) (s : Scheduler D) : Type 0 where
    count : length s.queues ≡ n
    turn : s.next < n
    rounds : ℕ
    shares : (i : ℕ) → i < n → sent (queue s i) ≡ (if ltb i s.next then suc rounds else rounds)

  queue-message_all :
      (e : Event D) (s : Scheduler D) (i : ℕ)
      → i < length s.queues
      → sent (queue (message_all_workers e s) i) ≡ tally e.event_type (sent (queue s i))
  unfolding message_all_workers
  queue-message_all e s i h =
      rw (get_or-map s.queues (λ q. q ++ e ∷ []) i [] [] h) (sent-append (queue s i) e)

  -- A message that is neither RESET nor a request.
  message_all-IsDealt :
      (n : ℕ) (e : Event D) (s t : Scheduler D)
      → ((k : ℕ) → tally e.event_type k ≡ k)
      → t.queues ≡ (message_all_workers e s).queues
      → t.next ≡ s.next
      → IsDealt n s
      → IsDealt n t
  unfolding message_all_workers
  message_all-IsDealt n e s t h q x v = record {
    count = omega (arith, ap length q, length-map s.queues (λ q. q ++ e ∷ []), v.count);
    turn = omega (arith, v.turn);
    rounds = v.rounds;
    shares = λ i lt. ground (
      arith,
      ap (λ (qs : List (List (Event D))). sent (get_or qs i [])) q,
      queue-message_all e s i,
      h (sent (queue s i)),
      v.shares i lt,
    );
  }

module _ {D : Type 0} ⦃d : Dynamic D⦄ where
  send : List (Event D) → List (Event D)
  send q = q ++ bare EventType.send_request ∷ []

  put_request-length :
      (size : ℕ) (s : Scheduler D) → length (put_request size s).queues ≡ length s.queues
  unfolding put_request
  put_request-length size s =
      length-modify s.queues s.next (λ q. q ++ bare EventType.send_request ∷ [])

  put_request-next :
      (size : ℕ) (s : Scheduler D)
      → (put_request size s).next
        ≡ (if (s.next + 1) % 2 ^ 32 == length s.queues then 0 else (s.next + 1) % 2 ^ 32)
  unfolding put_request
  put_request-next size s = refl

  sent-put_request :
      (size : ℕ) (s : Scheduler D) (i : ℕ)
      → s.next < length s.queues
      → sent (queue (put_request size s) i)
        ≡ (if s.next == i then suc (sent (queue s i)) else sent (queue s i))
  unfolding put_request send
  sent-put_request size s i h = elim (ℕ_discrete s.next i) [
    | yes e ↦ ground (
      arith,
      ap sent (get_or-modify_self s.queues s.next send [] h),
      sent-append (queue s s.next) (bare EventType.send_request),
    )
    | no e ↦ ground (arith, ap sent (get_or-modify_ne s.queues s.next i send [] e))
  ]

  put_request-IsDealt :
      (n size : ℕ) (s : Scheduler D) → n < 2 ^ 32 → IsDealt n s → IsDealt n (put_request size s)
  put_request-IsDealt n size s few v = record {
    count = omega (arith, put_request-length size s, v.count);
    turn = ground (arith, put_request-next size s, v.count, v.turn);
    rounds = if s.next + 1 == n then suc v.rounds else v.rounds;
    shares = λ i lt.
        ground (
          arith,
          put_request-next size s,
          sent-put_request size s i,
          v.count,
          v.turn,
          v.shares i lt,
        );
  }

module _ {D : Type 0} where
  IsCall-IsDealt : (n : ℕ) (s t : Scheduler D) → IsCall s t → IsDealt n s → IsDealt n t
  unfolding message_all_workers
  IsCall-IsDealt n s t c v = elim c.adds [
    | inl e ↦ record {
      count = rw e v.count;
      turn = rw c.next v.turn;
      rounds = v.rounds;
      shares = rw (e, c.next) v.shares;
    }
    | inr (e, setting, added) ↦
        message_all-IsDealt n e s t (λ k. tally-setting e.event_type k setting) added c.next v
  ]

make-IsDealt :
    (D : Type 0) (n : ℕ) → 0 < n → (w : Bool) (rps m l : ℕ) → IsDealt {D = D} n (make w rps n m l)
unfolding make
make-IsDealt D n some' w rps m l = record {
  count = length-replicate n [];
  turn = some';
  rounds = 0;
  shares = λ i lt. rw (get_or-replicate {A = List (Event D)} n i []) (ground arith);
}

module _ {D F : Type 0} ⦃d : Dynamic D⦄ ⦃f : Double F⦄ (n : ℕ) (some' : 0 < n)
    (few : n < 2 ^ 32) where
  begin_round-IsDealt :
      (i : Input F) (s : Scheduler D) → IsDealt n s → IsDealt n (begin_round i s).0
  unfolding begin_round
  begin_round-IsDealt i s v = record {
    count = omega (arith, length-map s.queues (λ q. q ++ bare EventType.reset ∷ []), v.count);
    turn = some';
    rounds = 0;
    shares = λ j lt. ground (arith, queue-message_all (bare EventType.reset) s j, v.count);
  }

  loop_step-IsDealt :
      (i : Input F) (s : Scheduler D) (pc : Pc) → IsDealt n s → IsDealt n (loop_step i s pc).0
  unfolding loop_step
  loop_step-IsDealt i s Pc.begin v = begin_round-IsDealt i s v
  loop_step-IsDealt i s (Pc.put l) v = put_request-IsDealt n i.size s few v
  loop_step-IsDealt i s Pc.finish v =
      message_all-IsDealt n (bare EventType.stop) s _ (λ k. refl) refl refl v
  loop_step-IsDealt i s Pc.fulfil v = record {
    count = v.count;
    turn = v.turn;
    rounds = v.rounds;
    shares = v.shares;
  }
  loop_step-IsDealt i s _ v = v

  -- At any moment of any history, of two workers the one with the lower number has had as many
  -- requests since the last RESET as the other, or one more: the load is even to within one
  -- request.
  pub round_robin :
      (w : Bool) (rps m l : ℕ) (as' : List (Action F)) (y : System D) (i j : ℕ)
      → run_all w as' (idle_system (make w rps n m l)) ≡ ok y
      → i ≤ j
      → j < n
      → (sent (queue y.scheduler j) ≤ sent (queue y.scheduler i))
        × (sent (queue y.scheduler i) ≤ sent (queue y.scheduler j) + 1)
  unfolding run
  round_robin w rps m l as' y i j e le lt =
      let v : IsDealt n y.scheduler =
        run_all_keeps w (λ s pc. IsDealt n s)
          (λ s h. record { count = h.count; turn = h.turn; rounds = h.rounds; shares = h.shares })
          loop_step-IsDealt (λ c s t pc e h. IsCall-IsDealt n s t (perform-IsCall w c s t e) h) as'
          _ y e (make-IsDealt D n some' w rps m l) in
      (ground (arith, v.shares i, v.shares j), ground (arith, v.shares i, v.shares j))
