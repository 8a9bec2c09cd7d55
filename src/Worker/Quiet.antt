-- ===== src/Worker/Quiet.antt =====
-- The parts of a turn that leave the requests alone.
use treadmill.Prelude.{◌≡◌, arith}
use treadmill.Prelude.Int.{ℤ}
use treadmill.Double.{Double}
use treadmill.Worker.{Worker, estimate, flush_exceptions, report}

pub record IsQuiet {W : Type 0} (w w' : Worker W) : Type 0 where
  pub outstanding_requests : w'.outstanding_requests ≡ w.outstanding_requests
  pub in_flight : w'.in_flight ≡ w.in_flight
  pub sent : w'.sent ≡ w.sent
  pub conn_idx : w'.conn_idx ≡ w.conn_idx
  pub number_of_connections : w'.number_of_connections ≡ w.number_of_connections
  pub max_outstanding_requests : w'.max_outstanding_requests ≡ w.max_outstanding_requests
  pub running : w'.running ≡ w.running

pub report-IsQuiet :
    {F W : Type 0} (Q R : Type 0) (f : Double F) (t : ℤ) (w : Worker W)
    → IsQuiet w (report {Q = Q} {R = R} f t w).0
unfolding report estimate flush_exceptions
report-IsQuiet Q R f t w = ground arith
