-- ===== src/Worker.antt =====
-- Worker.h: the state of a worker and its handlers. The handlers run on the worker's own event
-- base, one at a time; each gives the new state and the effects that it has, in order. The clock
-- and what futures deliver are arguments. The workload is code that each service supplies:
-- `Workload`.
pub mod Handlers
pub mod Histories
pub mod Quiet
pub mod Sound
pub mod Limit
pub mod Accounting
pub mod Unfailed
pub mod Uses
pub mod Deals
pub mod Connections
pub mod Stopping
pub mod Starting
pub mod Readiness
pub mod Outputs
pub mod Latencies
pub mod Starved
mod Examples
use treadmill.Prelude.{
  ℕ, suc, ◌+◌, ◌%◌, Bool, true, false, not, ◌&&◌, ◌||◌, String, Option, none, some, List, [], ◌∷◌,
  ◌++◌, map, ◌==◌, if◌then◌else◌,
}
use treadmill.Prelude.Int.{ℤ, ◌+ℤ◌, ◌-ℤ◌, ◌*ℤ◌, ltb_ℤ, to_int32}
use treadmill.Prelude.Dict.{Dict, bump}
use treadmill.Double.{Double}
use treadmill.Event.{Dynamic, Event, EventType}

-- What Workload.h asks of a service: W is its state, Q a request. A request of `none` is a null
-- pointer: the workload has no more.
pub record Workload (D W Q : Type 0) : Type 0 where
  pub make : D → W
  pub reset : W → W
  pub set_phase : String → W → W
  pub get_next_request : W → Option Q × W
  pub make_config_outputs : W → List W → D

-- A request whose reply is not there yet: its number and when it was sent.
pub record InFlight : Type 0 where
  pub number : ℕ
  pub send_time : ℤ

pub record Worker (W : Type 0) : Type 0 where
  pub worker_id : ℤ
  pub number_of_workers : ℤ
  pub number_of_connections : ℕ
  pub max_outstanding_requests : ℤ
  pub workload : W
  pub running : Bool
  pub consuming : Bool
  pub last_throughput_time : ℤ
  pub n_throughput_requests : ℕ
  pub n_exceptions_by_type : Dict ℕ
  pub n_uncaught_exceptions_by_type : Dict ℕ
  pub conn_idx : ℕ
  pub outstanding_requests : ℤ
  -- The requests sent so far number the next one; in C++ a request is known by its closure.
  pub sent : ℕ
  pub in_flight : List InFlight

-- folly::Try: a value, or an exception, of which the code uses the class name.
pub data Try (R : Type 0) : Type 0 where
  value : R → Try R
  exception : String → Try R

-- What a handler does outside the worker's own fields.
pub data Effect (F Q R : Type 0) : Type 0 where
  sends : (conn number : ℕ) → Q → Effect F Q R
  sets_value : ℕ → R → Effect F Q R
  sets_exception : ℕ → String → Effect F Q R
  adds_latency : F → Effect F Q R
  adds_throughput : F → Effect F Q R
  adds_outstanding : F → Effect F Q R
  increases_exceptions : ℕ → String → Effect F Q R
  increases_uncaught : ℕ → String → Effect F Q R
  sets_counter : ℤ → Effect F Q R
  terminates_early : Effect F Q R
  stops_consuming : Effect F Q R
  terminates_loop : Effect F Q R

-- The worker as constructed; its connections are counted.
unfoldable pub make_worker : {D W Q : Type 0} → Workload D W Q → ℤ → ℤ → ℕ → ℤ → D → Worker W
make_worker k worker_id number_of_workers number_of_connections max_outstanding_requests config =
    record {
      worker_id = worker_id;
      number_of_workers = number_of_workers;
      number_of_connections = number_of_connections;
      max_outstanding_requests = max_outstanding_requests;
      workload = k.make config;
      running = false;
      consuming = false;
      last_throughput_time = ℤ.pos 0;
      n_throughput_requests = 0;
      n_exceptions_by_type = [];
      n_uncaught_exceptions_by_type = [];
      conn_idx = 0;
      outstanding_requests = ℤ.pos 0;
      sent = 0;
      in_flight = [];
    }

unfoldable pub find : ℕ → List InFlight → Option InFlight
find n [] = none
find n (x ∷ xs) = if x.number == n then some x else find n xs

unfoldable pub remove : ℕ → List InFlight → List InFlight
remove n [] = []
remove n (x ∷ xs) = if x.number == n then xs else x ∷ remove n xs

unfoldable pub has_more_work : {W : Type 0} → Worker W → Bool
has_more_work w = w.running || ltb_ℤ (ℤ.pos 0) w.outstanding_requests

-- The sender thread has started: senderLoop() up to its endless loop.
unfoldable pub sender_loop : {W : Type 0} → ℤ → Worker W → Worker W
sender_loop now w = record w { last_throughput_time = now; consuming = true }

-- run() once the connections are ready.
unfoldable pub set_off : {W : Type 0} → Worker W → Worker W
set_off w = record w { running = true }

-- A new worker after run(), whose thread has begun to consume messages at the time `now`.
abbrev pub begun : {D W Q : Type 0} → ℤ → Workload D W Q → ℤ → ℤ → ℕ → ℤ → D → Worker W
begun now k worker_id number_of_workers number_of_connections max_outstanding_requests config =
    sender_loop now (
      set_off (
        make_worker k worker_id number_of_workers number_of_connections max_outstanding_requests
          config))

-- The callback of thenError on the future that the workload gave.
unfoldable pub on_uncaught : {W : Type 0} → String → Worker W → Worker W
on_uncaught c w = record w {
  n_uncaught_exceptions_by_type = bump c w.n_uncaught_exceptions_by_type;
}

module _ {F Q R : Type 0} where
  abbrev pub exception_effects : Dict ℕ → List (Effect F Q R)
  exception_effects m = map (λ p. increases_exceptions p.1 p.0) m

  abbrev pub uncaught_effects : Dict ℕ → List (Effect F Q R)
  uncaught_effects m = map (λ p. increases_uncaught p.1 p.0) m

module _ {F W Q R : Type 0} where
  -- stop()
  unfoldable pub stop : Worker W → Worker W × List (Effect F Q R)
  stop w = (record w { running = false }, terminates_loop ∷ [])

  -- The callback of thenTry for a request that is in flight.
  unfoldable pub complete :
      Double F → InFlight → ℤ → Try R → Worker W → Worker W × List (Effect F Q R)
  complete f x recv_time t w =
      let w' : Worker W = record w {
        n_throughput_requests = suc w.n_throughput_requests;
        n_exceptions_by_type = elim t [
          | value r ↦ w.n_exceptions_by_type
          | exception c ↦ bump c w.n_exceptions_by_type
        ];
        outstanding_requests = w.outstanding_requests -ℤ ℤ.pos 1;
        in_flight = remove x.number w.in_flight;
      } in
      (
        w',
        (if w.running
              then adds_latency
                  (f.div (f.of_int (recv_time -ℤ x.send_time)) (f.of_int (ℤ.pos 1000)))
                ∷ []
              else [])
            ++ elim t [ value r ↦ sets_value x.number r | exception c ↦ sets_exception x.number c ]
              ∷ sets_counter w'.outstanding_requests
              ∷ [],
      )

  -- The future of a request completes, once: a number that is not in flight has no callback left.
  unfoldable pub on_reply : Double F → ℕ → ℤ → Try R → Worker W → Worker W × List (Effect F Q R)
  unfolding complete
  on_reply f n recv_time t w = elim (find n w.in_flight) [
    | none ↦ (w, [])
    | some x ↦ complete f x recv_time t w
  ]

  -- The throughput and the outstanding requests, at most ten times a second.
  unfoldable pub estimate : Double F → ℤ → Worker W → Worker W × List (Effect F Q R)
  estimate f t w =
      let delta = f.div (f.of_int (t -ℤ w.last_throughput_time)) (f.of_int (ℤ.pos 1_000_000_000)) in
      if f.less delta (f.decimal 1 1) then (w, []) else (
        record w { n_throughput_requests = 0; last_throughput_time = t },
        adds_throughput (
              f.mul (f.div (f.of_int (ℤ.pos w.n_throughput_requests)) delta)
                (f.of_int w.number_of_workers))
            ∷ adds_outstanding (f.of_int (w.outstanding_requests *ℤ w.number_of_workers))
            ∷ [],
      )

  -- The exceptions counted since the last call go to the statistics.
  unfoldable pub flush_exceptions : Worker W → Worker W × List (Effect F Q R)
  flush_exceptions w = (
    record w { n_exceptions_by_type = []; n_uncaught_exceptions_by_type = [] },
    exception_effects w.n_exceptions_by_type ++ uncaught_effects w.n_uncaught_exceptions_by_type,
  )

  -- The end of sendRequest(), which every call but one that finds no request reaches.
  unfoldable pub report : Double F → ℤ → Worker W → Worker W × List (Effect F Q R)
  report f t w =
      let (w₁, es₁) = estimate f t w in
      let (w₂, es₂) = flush_exceptions w₁ in
      (w₂, es₁ ++ es₂ ++ sets_counter w₂.outstanding_requests ∷ [])

  -- The request goes to the next connection.
  unfoldable pub dispatch : ℤ → Q → W → Worker W → Worker W × List (Effect F Q R)
  dispatch send_time q k w = (
    record w {
      workload = k;
      outstanding_requests = w.outstanding_requests +ℤ ℤ.pos 1;
      conn_idx = (w.conn_idx + 1) % w.number_of_connections;
      sent = suc w.sent;
      in_flight = record { number = w.sent; send_time = send_time } ∷ w.in_flight;
    },
    sends w.conn_idx w.sent q ∷ [],
  )
