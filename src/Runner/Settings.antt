-- ===== src/Runner/Settings.antt =====
-- What a client sets while the run goes on, from the scheduler's call to the worker.
use treadmill.Prelude.{◌≡◌, refl, Bool, true, String, [], ◌∷◌, ◌++◌, map, arith}
use treadmill.Prelude.Int.{ℤ, pos, IsInt32, to_uint32, to_int32-to_uint32}
use treadmill.Double.{Double}
use treadmill.Event.{Dynamic, Event, EventType}
use treadmill.Result.{ok}
use treadmill.Scheduler.{Scheduler, set_max_outstanding_requests, set_phase, message_all_workers}
use treadmill.Worker.{Workload, Worker}
use treadmill.Worker.Handlers.{Turn, on_event, message_available}

module _ {D F W Q R : Type 0} (d : Dynamic D) (f : Double F) (k : Workload D W Q) where
  -- What a worker that runs becomes when it takes the event.
  abbrev pub taken : Turn R → Event D → Worker W → Worker W
  taken i e w = (message_available {F = F} f k d i e w).0

  -- Whatever int32_t a client sets as the limit, a negative one too, comes to each worker that
  -- runs, through the scheduler's uint32_t field and the payload of the message that every queue
  -- gets: the worker's limit is that number, and nothing else of it changes.
  pub taken-set_max_outstanding_requests :
      (s : Scheduler D) (m : ℤ) (i : Turn R) (w : Worker W)
      → IsInt32 m
      → w.running ≡ true
      → let t : Scheduler D = set_max_outstanding_requests ⦃d = d⦄ m s in
        let e : Event D = record {
          event_type = EventType.set_max_outstanding;
          extra_data = d.of_int (pos t.max_outstanding_requests);
        } in
        (t.queues ≡ map (λ q. q ++ e ∷ []) s.queues)
        × (taken i e w ≡ record w { max_outstanding_requests = m })
  unfolding set_max_outstanding_requests message_available on_event message_all_workers
  taken-set_max_outstanding_requests s m i w h running = (
    refl,
    ground (
      arith,
      running,
      d.is_int-of_int (pos (to_uint32 m)),
      d.as_int-of_int (pos (to_uint32 m)),
      to_int32-to_uint32 m h,
    ),
  )

  -- A phase that is set comes to the workload of each worker that runs.
  pub taken-set_phase :
      (s t : Scheduler D) (waits : Bool) (phase : String) (i : Turn R) (w : Worker W)
      → set_phase ⦃d = d⦄ waits phase s ≡ ok t
      → w.running ≡ true
      → let e : Event D = record {
        event_type = EventType.set_phase;
        extra_data = d.of_string phase;
      } in
        (t.queues ≡ map (λ q. q ++ e ∷ []) s.queues)
        × (taken i e w ≡ record w { workload = k.set_phase phase w.workload })
  unfolding set_phase message_available on_event message_all_workers
  taken-set_phase s t waits phase i w set running = (
    ground (arith, set),
    ground (arith, running, d.is_string-of_string phase, d.as_string-of_string phase),
  )
