-- ===== src/Memcached/Connection.antt =====
-- services/memcached/Connection.h: the connection to a Memcached server. AsyncMcClient and the fibers
-- are other libraries': `A` is the type of what client_->sendSync() gives back.
use treadmill.Prelude.{
  ℕ, ◌≡◌, refl, ap, ◌∙◌, is_empty, false, Option, none, String, List, [], ◌∷◌, ◌++◌, map, All,
}
use treadmill.Prelude.Int.{ℤ, pos, ◌+ℤ◌, int_laws}
use treadmill.Double.{Double}
use treadmill.Event.{Dynamic, Event}
use treadmill.Result.{Result, ok, ◌>>=◌}
use treadmill.Io.{ns_look_up}
use treadmill.Statistics.{CounterStatistic}
use treadmill.Worker.{begun, Try, value}
use treadmill.Worker.Histories.{Happening, receives, replies, is_stopped, history}
use treadmill.Worker.Accounting.{waiting}
use treadmill.Worker.Unfailed.{IsCalm, unreported}
use treadmill.Reports.{record_effects, count_of_class, count-record_effects}
use treadmill.Memcached.{MemcachedRequest, McCall, send_request, memcached_workload}

-- The options of the client, whose protocol is mc_ascii_protocol, and the tasks of the fiber manager
-- that are still to run: the call of a task, under the number of its request.
pub record McConnection : Type 0 where
  pub host : String
  pub port : ℤ
  pub tasks : List (ℕ × McCall)

-- The constructor: with no address for the host the process ends.
unfoldable pub connect : {A : Type 0} → (ℕ → Option A) → (A → String) → ℤ → Result McConnection
connect getaddrinfo inet_ntop port = do
  host ← ns_look_up getaddrinfo inet_ntop
  ok (record { host = host; port = port; tasks = [] })

-- sendRequest(): a task for the call.
unfoldable pub add_request : ℕ → MemcachedRequest → McConnection → McConnection
add_request n r c = record c { tasks = c.tasks ++ (n, send_request r) ∷ [] }

pub data MemcachedReply : Type 0 where
  memcached_reply : MemcachedReply

-- The end of a task, at what sendSync() gave it: p->setValue(Reply()).
unfoldable pub end_task : {A : Type 0} → A → Try MemcachedReply
end_task answer = value memcached_reply

-- What happens to a worker whose connections are these. The tasks run after the turn that adds them.
pub data McHappening (D A : Type 0) : Type 0 where
  gets : ℤ → ℤ → ℤ → Event D → McHappening D A
  ends : ℕ → ℤ → A → McHappening D A
  halts : McHappening D A

unfoldable pub happening : {D A : Type 0} → McHappening D A → Happening D MemcachedReply
unfolding end_task
happening (gets send_time recv_time now e) =
    receives
      (record {
        send_time = send_time;
        recv_time = recv_time;
        now = now;
        ready = none;
        escaped = none;
      })
      e
happening (ends n recv_time answer) = replies n recv_time (end_task answer)
happening halts = is_stopped

happening-IsCalm : {D A : Type 0} (hs : List (McHappening D A)) → All IsCalm (map happening hs)
unfolding happening
happening-IsCalm [] = tt
happening-IsCalm (gets send_time recv_time now e ∷ hs) = ((refl, refl), happening-IsCalm hs)
happening-IsCalm (ends n recv_time answer ∷ hs) = (tt, happening-IsCalm hs)
happening-IsCalm (halts ∷ hs) = (tt, happening-IsCalm hs)

-- Whatever the Memcached client answers to the requests of a worker, errors and timeouts too: the
-- counter to which the worker reports keeps its count of every class of exceptions, and no exception
-- waits to be reported.
pub count-happening :
    {D F A : Type 0} (c : String) (d : Dynamic D) (f : Double F) (object : D) (number_of_keys : ℤ)
    (hs : List (McHappening D A)) (now id workers : ℤ) (connections : ℕ) (limit : ℤ) (config : D)
    (s : CounterStatistic)
    → is_empty c ≡ false
    → let k = memcached_workload object number_of_keys in
      let m = history d f k (map happening hs) (begun now k id workers connections limit config) in
      (count_of_class c (record_effects m.1 s) ≡ count_of_class c s) × (waiting c m.0 ≡ 0)
count-happening c d f object number_of_keys hs now id workers connections limit config s named =
    let k = memcached_workload object number_of_keys in
    let m = history d f k (map happening hs) (begun now k id workers connections limit config) in
    let (unsaid, done) =
      unreported c d f k (map happening hs) now id workers connections limit config
        (happening-IsCalm hs) in
    (
      count-record_effects c named m.1 s
          ∙ ap (λ (n : ℕ). count_of_class c s +ℤ pos n) unsaid
          ∙ plus_zero (count_of_class c s),
      done,
    )
  where
    plus_zero : (z : ℤ) → z +ℤ pos 0 ≡ z
    plus_zero z = omega int_laws
