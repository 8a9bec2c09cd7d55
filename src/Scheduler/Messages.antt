-- ===== src/Scheduler/Messages.antt =====
-- What the setters store in the uint32_t fields and what the getters make of it.
use treadmill.Prelude.{◌≡◌, refl}
use treadmill.Prelude.Int.{ℤ, IsInt32, to_int32-to_uint32}
use treadmill.Event.{Dynamic}
use treadmill.Scheduler.{
  Scheduler, get_rps, set_rps, get_max_outstanding_requests, set_max_outstanding_requests,
}

-- Every int32_t that is set, negative ones too, is what the getter gives back, and neither setter
-- touches the other's value, the run state or the turn.
pub get-set :
    {D : Type 0} ⦃d : Dynamic D⦄ (s : Scheduler D) (rps m : ℤ)
    → IsInt32 rps
    → IsInt32 m
    → let t : Scheduler D = set_max_outstanding_requests m (set_rps rps s) in
      (get_rps t ≡ rps)
      × (get_max_outstanding_requests t ≡ m)
      × (set_rps rps (set_max_outstanding_requests m s) ≡ t)
      × (t.state ≡ s.state)
      × (t.next ≡ s.next)
unfolding get_rps set_rps get_max_outstanding_requests set_max_outstanding_requests
get-set s rps m hr hm = (to_int32-to_uint32 rps hr, to_int32-to_uint32 m hm, refl, refl, refl)
