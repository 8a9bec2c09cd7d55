-- ===== src/Sleep.antt =====
-- services/sleep: the requests and replies of the sleep service, its workload and connection, and
-- the handler of its server. `timersub` is the macro of sys/time.h, an argument with its documented
-- law; times are in microseconds.
pub mod Replies
pub mod Connection
mod Examples
use treadmill.Prelude.{ℕ, ◌≡◌, String, Option, none, some, List, [], ◌∷◌}
use treadmill.Prelude.Int.{ℤ, pos, ◌+ℤ◌, ◌-ℤ◌, ◌*ℤ◌}
use treadmill.Double.{Double}
use treadmill.Worker.{Workload, Try, value, exception}

pub record SleepRequest : Type 0 where
  pub sleep_time : ℤ

-- The reply keeps its time in a double.
pub record SleepReply (F : Type 0) : Type 0 where
  pub kept : F

unfoldable pub make_reply : {F : Type 0} → Double F → ℤ → SleepReply F
make_reply f sleep_time = record { kept = f.of_int sleep_time }

unfoldable pub reply_time : {F : Type 0} → Double F → SleepReply F → ℤ
reply_time f r = f.to_int r.kept

-- The workload has no state but its phase; every request sleeps for the time of the flag.
unfoldable pub sleep_workload : {D : Type 0} → D → ℤ → Workload D String SleepRequest
sleep_workload object sleep_time = record {
  make = λ config. "";
  reset = λ w. w;
  set_phase = λ phase w. phase;
  get_next_request = λ w. (some (record { sleep_time = sleep_time }), w);
  make_config_outputs = λ w ws. object;
}

pub record Time : Type 0 where
  pub tv_sec : ℤ
  pub tv_usec : ℤ

abbrev pub micros : Time → ℤ
micros t = t.tv_sec *ℤ pos 1_000_000 +ℤ t.tv_usec

-- timersub(end, start, result) gives the time between.
abbrev pub IsTimersub : (Time → Time → Time) → Type 0
IsTimersub timersub = (end start : Time) → micros (timersub end start) ≡ micros end -ℤ micros start

-- What the handler's promise gets: diff_time.tv_sec * 1e6 + diff_time.tv_usec, in doubles, which
-- setValue makes an int64_t.
unfoldable pub go_sleep : {F : Type 0} → Double F → (Time → Time → Time) → Time → Time → ℤ
go_sleep f timersub start end =
    let diff = timersub end start in
    f.to_int
      (f.add (f.mul (f.of_int diff.tv_sec) (f.of_int (pos 1_000_000))) (f.of_int diff.tv_usec))

-- The callback of Connection::sendRequest(): the reply, and what is added to the statistic.
-- t.value() throws the exception that the call failed with, before anything is added.
unfoldable pub on_answer : {F : Type 0} → Double F → Try ℤ → Try (SleepReply F) × List F
unfolding make_reply
on_answer f (value t) = (value (make_reply f t), f.of_int t ∷ [])
on_answer f (exception c) = (exception c, [])
