-- ===== src/Files.antt =====
-- Util.cpp: whole files written and read, and the folly::dynamic that they hold as JSON. The file
-- system is a dictionary of contents. How the operating system fares at a write or a read is an
-- argument; folly::toJson is one too.
pub mod RoundTrip
mod Examples
use treadmill.Prelude.{Bool, true, false, ◌&&◌, String, Option, none, some, if◌then◌else◌}
use treadmill.Prelude.Dict.{Dict, lookup, insert}
use treadmill.Result.{Result, ok, fatal, Fault}

-- The file cannot be opened; or it was emptied when it was opened, and only some text reached it;
-- or all of the text did.
pub data Writing : Type 0 where
  not_opened : Writing
  cut_short : String → Writing
  complete : Writing

-- writeStringToFile(): its answer, and the file system after it.
unfoldable pub write_string_to_file : Writing → String → String → Dict String → Bool × Dict String
write_string_to_file not_opened txt filename files = (false, files)
write_string_to_file (cut_short part) txt filename files = (false, insert filename part files)
write_string_to_file complete txt filename files = (true, insert filename txt files)

-- readFileToString(): its answer, and `txt` after it, which a failure leaves as it was. `readable`
-- says if the operating system reads the file, where there is one.
unfoldable pub read_file_to_string : Bool → Dict String → String → String → Bool × String
read_file_to_string readable files filename txt = elim (lookup filename files) [
  | none ↦ (false, txt)
  | some content ↦ if readable then (true, content) else (false, txt)
]

-- The text that readDynamicFromFile() has to parse, if it gets one.
unfoldable pub content : Bool → Dict String → String → Option String
unfolding read_file_to_string
content readable files filename =
    let (good, s) = read_file_to_string readable files filename "" in if good then some s else none

-- writeDynamicToFile(): the files after it. folly::toJson throws on what JSON cannot hold, and
-- then the file is not opened.
unfoldable pub write_dynamic_to_file :
    {D : Type 0} → (D → Option String) → Writing → String → D → Dict String → Result (Dict String)
unfolding write_string_to_file
write_dynamic_to_file to_json writing filename object files = elim (to_json object) [
  | none ↦ fatal Fault.uncaught
  | some json ↦
      let (good, files') = write_string_to_file writing json filename files in
      if good then ok files' else fatal Fault.log_fatal
]
