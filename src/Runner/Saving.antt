-- ===== src/Runner/Saving.antt =====
-- Treadmill.h: the end of run(), which exports the configuration of the workloads to a file.
use treadmill.Prelude.{
  ◌≡◌, refl, ap, ◌∙◌, is_empty, Bool, true, false, String, Option, inl, inr, some, List, [], ◌∷◌,
  arith, if◌then◌else◌,
}
use treadmill.Prelude.Dict.{Dict, str_eq_self}
use treadmill.Result.{Result, ok, fatal, Fault, Result-cases}
use treadmill.Files.{Writing, content, write_dynamic_to_file}
use treadmill.Files.RoundTrip.{content-write_dynamic_to_file, read_dynamic-content}
use treadmill.Worker.{Workload, Worker}
use treadmill.Worker.Outputs.{make_config_outputs}
use treadmill.Runner.{RunnerFlags, Runner, parsed, read_dynamic, load_config}

-- The files after the export. workers[0] needs a worker, which number_of_workers gives; without one
-- the behaviour is undefined, which `aborted` stands for.
unfoldable pub save_config :
    {D W Q : Type 0}
    → Workload D W Q
    → (D → Option String)
    → Writing
    → RunnerFlags
    → Runner D W
    → Dict String
    → Result (Dict String)
save_config k to_json writing flags r files =
    if is_empty flags.config_out_file then ok files else elim r.workers [
      | [] ↦ fatal Fault.aborted
      | w ∷ ws ↦
          write_dynamic_to_file to_json writing flags.config_out_file
            (make_config_outputs k w (w ∷ ws)) files
    ]

from_file :
    {D : Type 0} (parse_json : String → Option D) (read_file : String → Option String)
    (update : D → D → Option D) (flags : RunnerFlags) (object : D) (json : String)
    → is_empty flags.config_in_file ≡ false
    → is_empty flags.config_in_json ≡ true
    → read_dynamic parse_json read_file flags.config_in_file ≡ parsed parse_json json
    → load_config parse_json read_file update flags object ≡ parsed parse_json json
unfolding load_config
from_file parse_json read_file update flags object json filled blank back =
    elim (Result-cases (parsed parse_json json)) [
      | inl (x, e) ↦ rw (filled, blank, back, e) refl
      | inr (fault, e) ↦ rw (filled, blank, back, e) refl
    ]

-- A run with a worker and a file named for its configuration, whose export does not end the process:
-- what its first worker makes of the workloads of all workers has a JSON form. A later run that is
-- given this file, which it can read, and no other configuration starts with what folly::parseJson
-- has of that form, whatever the file held before, or ends at the exception that parseJson throws.
pub load_config-save_config :
    {D W Q : Type 0} (k : Workload D W Q) (to_json : D → Option String)
    (parse_json : String → Option D) (update : D → D → Option D) (writing : Writing)
    (flags next : RunnerFlags) (r : Runner D W) (w : Worker W) (ws : List (Worker W))
    (files after : Dict String) (object : D)
    → r.workers ≡ w ∷ ws
    → is_empty flags.config_out_file ≡ false
    → next.config_in_file ≡ flags.config_out_file
    → next.config_in_json ≡ ""
    → save_config k to_json writing flags r files ≡ ok after
    → (json : String) × (to_json (make_config_outputs k w (w ∷ ws)) ≡ some json)
      × (load_config parse_json (content true after) update next object ≡ parsed parse_json json)
unfolding save_config load_config
load_config-save_config k to_json parse_json update writing flags next r w ws files after object has
      given same_file no_json e =
    let x = make_config_outputs k w (w ∷ ws) in
    let written : write_dynamic_to_file to_json writing flags.config_out_file x files ≡ ok after =
      ground (arith, has, given) in
    let (json, made, holds) =
      content-write_dynamic_to_file to_json writing flags.config_out_file x files after written in
    let filled : is_empty next.config_in_file ≡ false = ap is_empty same_file ∙ given in
    let blank : is_empty next.config_in_json ≡ true = ap is_empty no_json in
    let file = flags.config_out_file in
    let there : content true after file ≡ some json =
      holds file
      ∙ ap (λ (b : Bool). if b then some json else content true files file) (str_eq_self file) in
    let back = read_dynamic-content parse_json (content true after) file json there in
    (
      json,
      made,
      from_file parse_json (content true after) update next object json filled blank
          (ap (read_dynamic parse_json (content true after)) same_file ∙ back),
    )
