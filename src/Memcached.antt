-- ===== src/Memcached.antt =====
-- services/memcached: the requests, the workload and the connection of the Memcached service.
-- `number_of_keys` is the flag, an int64_t. index_ is an int that only grows from 0, so it is a ℕ.
pub mod Warmup
pub mod Sequence
pub mod Ordered
pub mod Connection
mod Examples
use Prim.Native.String.{◌++◌ as ◌then◌}
use treadmill.Prelude.{
  ℕ, zero, suc, ◌+◌, ◌/◌, ◌%◌, Bool, true, false, String, Option, none, some, List, [], ◌∷◌, ltb,
  ◌==◌, if◌then◌else◌,
}
use treadmill.Prelude.Int.{ℤ, pos, ◌-ℤ◌}
use treadmill.Event.{Dynamic}
use treadmill.Worker.{Workload}

pub data Operation : Type 0 where
  get : Operation
  set : Operation
  delete : Operation

pub record MemcachedRequest : Type 0 where
  pub type : Operation
  pub key : String
  pub value : String

-- The constructor leaves the value empty.
abbrev pub request : Operation → String → MemcachedRequest
request type key = record { type = type; key = key; value = "" }

abbrev pub set_value : String → MemcachedRequest → MemcachedRequest
set_value value r = record r { value = value }

pub data State : Type 0 where
  warmup : State
  reading : State  -- GET in the source

pub record MemcachedWorkload : Type 0 where
  pub phase : String
  pub state : State
  pub index : ℕ

abbrev digit : ℕ → String
digit zero = "0"
digit (suc zero) = "1"
digit (suc (suc zero)) = "2"
digit (suc (suc (suc zero))) = "3"
digit (suc (suc (suc (suc zero)))) = "4"
digit (suc (suc (suc (suc (suc zero))))) = "5"
digit (suc (suc (suc (suc (suc (suc zero)))))) = "6"
digit (suc (suc (suc (suc (suc (suc (suc zero))))))) = "7"
digit (suc (suc (suc (suc (suc (suc (suc (suc zero)))))))) = "8"
digit _ = "9"

decimal : ℕ → ℕ → String
decimal zero n = ""
decimal (suc fuel) n =
    let front = decimal fuel (n / 10) in if ltb n 10 then digit n else ◌then◌ front (digit (n % 10))

-- std::to_string. A number has at most as many digits as its value plus one.
unfoldable pub to_string : ℕ → String
unfolding decimal
to_string n = decimal (suc n) n

-- index_ == k
abbrev pub is : ℕ → ℤ → Bool
is n (ℤ.pos k) = n == k
is n (ℤ.negsuc k) = false

abbrev pub fresh_workload : MemcachedWorkload
fresh_workload = record { phase = ""; state = warmup; index = 0 }

unfoldable pub reset : MemcachedWorkload → MemcachedWorkload
reset w = record w { index = 0 }

-- WorkloadBase::setPhase and getPhase
unfoldable pub set_phase : String → MemcachedWorkload → MemcachedWorkload
set_phase phase w = record w { phase = phase }

unfoldable pub get_phase : MemcachedWorkload → String
get_phase w = w.phase

-- The request for `index`, and the state after it.
unfoldable pub make_request : ℤ → State → ℕ → MemcachedRequest × State
make_request number_of_keys warmup index = (
  set_value (to_string index) (request set (to_string index)),
  if is index (number_of_keys -ℤ pos 1) then reading else warmup,
)
make_request number_of_keys reading index = (request get (to_string index), reading)

unfoldable pub get_next_request : ℤ → MemcachedWorkload → MemcachedRequest × MemcachedWorkload
unfolding make_request
get_next_request number_of_keys w =
    let index = if is w.index number_of_keys then 0 else w.index in
    let (r, state) = make_request number_of_keys w.state index in
    (r, record w { state = state; index = suc index })

-- What the service supplies to a worker; `object` is the empty folly::dynamic object.
unfoldable pub memcached_workload :
    {D : Type 0} → D → ℤ → Workload D MemcachedWorkload MemcachedRequest
memcached_workload object number_of_keys = record {
  make = λ config. fresh_workload;
  reset = reset;
  set_phase = set_phase;
  get_next_request =
      λ w. (some (get_next_request number_of_keys w).0, (get_next_request number_of_keys w).1);
  make_config_outputs = λ w ws. object;
}

-- What Connection::sendRequest asks of the client for a request.
pub data McCall : Type 0 where
  mc_get : String → McCall
  mc_set : String → String → McCall
  mc_delete : String → McCall

unfoldable pub send_by : Operation → MemcachedRequest → McCall
send_by get r = mc_get r.key
send_by set r = mc_set r.key r.value
send_by delete r = mc_delete r.key

unfoldable pub send_request : MemcachedRequest → McCall
unfolding send_by
send_request r = send_by r.type r
