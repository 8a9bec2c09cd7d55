-- ===== src/Worker/Handlers.antt =====
-- Worker.h: sendRequest() and messageAvailable(), which make up a worker's turn, and run().
use treadmill.Prelude.{
  ℕ, zero, suc, is_empty, Bool, true, false, not, ◌&&◌, ◌||◌, String, Option, none, some, List, [],
  ◌∷◌, ◌++◌, if◌then◌else◌,
}
use treadmill.Prelude.Int.{ℤ, ltb_ℤ, to_int32}
use treadmill.Double.{Double}
use treadmill.Event.{Dynamic, Event, EventType}
use treadmill.Result.{Result, ok, fatal, Fault}
use treadmill.Worker.{
  Workload, Worker, Try, Effect, terminates_early, stops_consuming, dispatch, on_reply, on_uncaught,
  report, set_off,
}

-- What one turn gets from outside: two readings of the clock; the reply, if the future that the
-- connection gave was already complete; an exception on the workload's future, likewise.
pub record Turn (R : Type 0) : Type 0 where
  pub send_time : ℤ
  pub recv_time : ℤ
  pub now : ℤ
  pub ready : Option (Try R)
  pub escaped : Option String

module _ {F W Q R : Type 0} where
  -- One handler after another, the effects in order.
  infixl 5 ◌>>◌
  abbrev pub ◌>>◌ :
      Worker W × List (Effect F Q R)
      → (Worker W → Worker W × List (Effect F Q R))
      → Worker W × List (Effect F Q R)
  m >> g = let (w, es) = g m.0 in (w, m.1 ++ es)

  abbrev pub on_ready :
      Double F → ℕ → ℤ → Option (Try R) → Worker W → Worker W × List (Effect F Q R)
  on_ready f n recv_time none w = (w, [])
  on_ready f n recv_time (some t) w = on_reply f n recv_time t w

  abbrev pub on_escaped : Option String → Worker W → Worker W × List (Effect F Q R)
  on_escaped none w = (w, [])
  on_escaped (some c) w = (on_uncaught c w, [])

  -- What follows workload_.getNextRequest().
  unfoldable pub send_next :
      Double F → Turn R → Option Q × W → Worker W → Worker W × List (Effect F Q R)
  send_next f i (none, k) w = (record w { workload = k; running = false }, terminates_early ∷ [])
  send_next f i (some q, k) w =
      dispatch i.send_time q k w
      >> on_ready f w.sent i.recv_time i.ready
      >> on_escaped i.escaped
      >> report f i.now

  module _ {D : Type 0} (f : Double F) (k : Workload D W Q) where
    unfoldable pub send_request : Turn R → Worker W → Worker W × List (Effect F Q R)
    send_request i w =
        if ltb_ℤ w.outstanding_requests w.max_outstanding_requests && w.running
        then send_next f i (k.get_next_request w.workload) w
        else report f i.now w

    -- The branches of messageAvailable() for a worker that runs.
    unfoldable pub on_event :
        Dynamic D → Turn R → EventType → D → Worker W → Worker W × List (Effect F Q R)
    on_event d i EventType.stop x w =
        (record w { consuming = false; running = false }, stops_consuming ∷ [])
    on_event d i EventType.reset x w = (record w { workload = k.reset w.workload }, [])
    on_event d i EventType.send_request x w = send_request i w
    on_event d i EventType.set_max_outstanding x w =
        if d.is_int x
        then (record w { max_outstanding_requests = to_int32 (d.as_int x) }, [])
        else (w, [])
    on_event d i EventType.set_phase x w =
        if d.is_string x
        then (record w { workload = k.set_phase (d.as_string x) w.workload }, [])
        else (w, [])

    unfoldable pub message_available :
        Dynamic D → Turn R → Event D → Worker W → Worker W × List (Effect F Q R)
    message_available d i e w =
        if w.running
        then on_event d i e.event_type e.extra_data w
        else (record w { consuming = false; running = false }, stops_consuming ∷ [])

-- The flags that run() reads.
pub record TargetFlags : Type 0 where
  pub wait_for_target_ready : Bool
  pub counter_name : String
  pub counter_threshold : ℤ

-- `while (!conn->isReady()) sleep(1)` for each connection in turn: the answers of isReady(), in
-- order, and how many connections are left; `none` says that the answers ran out.
unfoldable pub wait_ready : List Bool → ℕ → Option (List Bool)
wait_ready answers zero = some answers
wait_ready [] (suc n) = none
wait_ready (true ∷ answers) (suc n) = wait_ready answers n
wait_ready (false ∷ answers) (suc n) = wait_ready answers (suc n)

unfoldable pub run : {W : Type 0} → TargetFlags → List Bool → Worker W → Result (Option (Worker W))
unfolding wait_ready
run flags answers w =
    if not (is_empty flags.counter_name)
      && (not flags.wait_for_target_ready || ltb_ℤ flags.counter_threshold (ℤ.pos 0))
    then fatal Fault.log_fatal
    else ok
        (elim (if flags.wait_for_target_ready
          then wait_ready answers w.number_of_connections
          else some answers) [ none ↦ none | some rest ↦ some (set_off w) ])
