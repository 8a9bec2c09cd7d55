-- ===== src/Control.antt =====
-- TreadmillFB303.h and TreadmillFB303.cpp: the service through which a run is controlled. A handler
-- gives the new state; the clock (in seconds) is an argument of those that read it. A call is
-- one step. fb_status is a type of fb303, an argument here.
pub mod Configuration
pub mod Resume
pub mod Watchdog
pub mod Requests
pub mod Clients
pub mod Going
pub mod Contact
mod Examples
use text.Mathlib.Text.{◌==◌ as str_eq}
use treadmill.Prelude.{
  ℕ, Bool, true, false, not, ◌&&◌, String, Option, none, some, List, [], ◌∷◌, if◌then◌else◌, ltb,
}
use treadmill.Prelude.Int.{ℤ, ◌-ℤ◌, ltb_ℤ}
use treadmill.Prelude.Dict.{Dict, lookup, insert}
use treadmill.Event.{Dynamic}
use treadmill.Result.{Result, ok, fatal, Fault, ◌>>=◌}
use treadmill.Scheduler.{
  Scheduler, pause, resume, is_running_now, set_phase, get_rps, set_rps,
  get_max_outstanding_requests, set_max_outstanding_requests,
}

-- The flags that the handlers and the scheduler read.
pub record Flags : Type 0 where
  pub require_configuration_on_resume : Bool
  pub enable_watchdog_timer : Bool
  pub wait_for_runner_ready : Bool

pub record Control (D S : Type 0) : Type 0 where
  pub status : S
  pub alive_since : ℤ
  pub scheduler : Scheduler D
  pub configuration : Dict String
  pub watchdog_duration_sec : ℕ
  pub last_heartbeat : ℤ

pub record RateResponse : Type 0 where
  pub scheduler_running : Bool
  pub rps : ℤ
  pub max_outstanding : ℤ

abbrev pub is_nil : Dict String → Bool
is_nil [] = true
is_nil (p ∷ m) = false

abbrev or_else : Option String → String → String
or_else none default = default
or_else (some v) default = v

module _ {D S : Type 0} where
  -- The constructor; `starting` is fb_status::STARTING.
  unfoldable pub make_control : S → ℤ → Scheduler D → Control D S
  make_control starting time scheduler = record {
    status = starting;
    alive_since = time;
    scheduler = scheduler;
    configuration = [];
    watchdog_duration_sec = 0;
    last_heartbeat = ℤ.pos 0;
  }

  unfoldable pub set_status : S → Control D S → Control D S
  set_status status c = record c { status = status }

  unfoldable pub get_status : Control D S → S
  get_status c = c.status

  -- enumNameOrThrow is the library's: it has no name for a value that the enum does not list.
  unfoldable pub get_status_details : (S → Option String) → Control D S → Result String
  unfolding get_status
  get_status_details enum_name c = elim (enum_name (get_status c)) [
    | none ↦ fatal Fault.uncaught
    | some name ↦ ok name
  ]

  unfoldable pub alive_since_of : Control D S → ℤ
  alive_since_of c = c.alive_since

  unfoldable pub watchdog_update : Flags → ℤ → Control D S → Control D S
  watchdog_update flags now c =
      if flags.enable_watchdog_timer && ltb 0 c.watchdog_duration_sec
      then record c { last_heartbeat = now }
      else c

  -- With `raise` a timeout ends the process.
  unfoldable pub watchdog_timeout_check : Flags → ℤ → Bool → Control D S → Result Bool
  watchdog_timeout_check flags now raise c =
      if flags.enable_watchdog_timer && ltb 0 c.watchdog_duration_sec
      then if ltb_ℤ c.last_heartbeat (now -ℤ ℤ.pos c.watchdog_duration_sec)
        then if raise then fatal Fault.aborted else ok true
        else ok false
      else ok false

  unfoldable pub pause_run : Control D S → Control D S × Bool
  pause_run c = (record c { scheduler = pause c.scheduler; watchdog_duration_sec = 0 }, true)

  unfoldable pub resume_run : Flags → ℤ → Control D S → Control D S × Bool
  resume_run flags now c =
      let c' : Control D S = watchdog_update flags now c in
      let (s, running) = resume c'.scheduler in
      if flags.require_configuration_on_resume && is_nil c'.configuration
      then (c', false)
      else (record c' { scheduler = s }, running)

  unfoldable pub set_run_rps : Flags → ℤ → ℤ → Control D S → Control D S
  set_run_rps flags now rps c =
      let c' : Control D S = watchdog_update flags now c in
      record c' { scheduler = set_rps rps c'.scheduler }

  unfoldable pub get_rate : Control D S → RateResponse
  get_rate c = record {
    scheduler_running = is_running_now c.scheduler;
    rps = get_rps c.scheduler;
    max_outstanding = get_max_outstanding_requests c.scheduler;
  }

  -- A missing key has the empty value.
  unfoldable pub get_configuration : Flags → ℤ → String → Control D S → Control D S × String
  get_configuration flags now key c =
      let c' : Control D S = watchdog_update flags now c in
      (c', or_else (lookup key c'.configuration) "")

  -- `try_to_uint32` is folly::tryTo<uint32_t>.
  unfoldable pub set_configuration :
      (String → Option ℕ) → Flags → ℤ → String → String → Control D S → Control D S
  set_configuration try_to_uint32 flags now key value c =
      let c₁ : Control D S = watchdog_update flags now c in
      let c₂ : Control D S = record c₁ { configuration = insert key value c₁.configuration } in
      if flags.enable_watchdog_timer && str_eq key "watchdog_sec"
      then record c₂ {
        watchdog_duration_sec = elim (try_to_uint32 value) [ none ↦ 0 | some n ↦ n ];
      }
      else c₂

  -- The two overloads of getConfigurationValue.
  unfoldable pub get_configuration_uint32 : (String → Option ℕ) → String → ℕ → Control D S → ℕ
  get_configuration_uint32 try_to_uint32 key default c = elim (lookup key c.configuration) [
    | none ↦ default
    | some v ↦ elim (try_to_uint32 v) [ none ↦ default | some n ↦ n ]
  ]

  unfoldable pub get_configuration_string : String → String → Control D S → String
  get_configuration_string key default c = or_else (lookup key c.configuration) default

  unfoldable pub clear_configuration : Flags → ℤ → Control D S → Control D S
  clear_configuration flags now c = record (watchdog_update flags now c) { configuration = [] }

  unfoldable pub configuration_empty : Control D S → Bool
  configuration_empty c = is_nil c.configuration

  -- The instance that the process holds.
  unfoldable pub get_global : Option (Control D S) → Result (Control D S)
  get_global none = fatal Fault.log_fatal
  get_global (some c) = ok c

  unfoldable pub make_global :
      S → ℤ → Scheduler D → Option (Control D S) → Result (Option (Control D S))
  unfolding make_control
  make_global starting time scheduler none = ok (some (make_control starting time scheduler))
  make_global starting time scheduler (some c) = fatal Fault.log_fatal

module _ {D S : Type 0} ⦃d : Dynamic D⦄ where
  -- resume2: the phase is set first, which may end the process.
  unfoldable pub resume_phase :
      Flags → ℤ → Option String → Control D S → Result (Control D S × Bool)
  resume_phase flags now request c =
      let c' : Control D S = watchdog_update flags now c in
      do
        s ← set_phase flags.wait_for_runner_ready (or_else request "UNKNOWN_PHASE") c'.scheduler
        let (t, running) = resume s
        ok (record c' { scheduler = t }, running)

  unfoldable pub set_max_outstanding : Flags → ℤ → ℤ → Control D S → Control D S
  set_max_outstanding flags now m c =
      let c' : Control D S = watchdog_update flags now c in
      record c' { scheduler = set_max_outstanding_requests m c'.scheduler }
