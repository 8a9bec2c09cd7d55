-- ===== src/Files/Examples.antt =====
-- A text, in place of a folly::dynamic, written to a file that is there already.
use text.Mathlib.Text.{◌==◌ as str_eq}
use treadmill.Prelude.{◌≡◌, refl, true, String, Option, none, some, [], ◌∷◌, if◌then◌else◌}
use treadmill.Prelude.Dict.{Dict, lookup, insert}
use treadmill.Result.{ok, fatal, Fault}
use treadmill.Files.{
  complete, content, read_file_to_string, write_string_to_file, write_dynamic_to_file,
}
use treadmill.Runner.{read_dynamic}

abbrev quoted : String → Option String
quoted s = if str_eq s "nan" then none else some s

abbrev disk : Dict String
disk = ("out.json", "old") ∷ ("in.json", "kept") ∷ []

abbrev disk_after : Dict String
disk_after = ("out.json", "new") ∷ ("in.json", "kept") ∷ []

written : write_dynamic_to_file quoted complete "out.json" "new" disk ≡ ok disk_after
unfolding write_dynamic_to_file write_string_to_file insert
written = refl

-- What JSON cannot hold ends the process before the file is opened.
thrown : write_dynamic_to_file quoted complete "out.json" "nan" disk ≡ fatal Fault.uncaught
unfolding write_dynamic_to_file
thrown = refl

reads_back : read_dynamic some (content true disk_after) "out.json" ≡ ok "new"
unfolding read_dynamic content read_file_to_string lookup
reads_back = refl
