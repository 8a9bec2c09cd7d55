-- ===== src/Files/RoundTrip.antt =====
-- Util.cpp: what was written to a file is read back from it.
use text.Mathlib.Text.{◌==◌ as str_eq}
use treadmill.Prelude.{
  ◌≡◌, refl, ap, sym, ◌∙◌, true, String, Option, Option-cases, inl, inr, some, arith, if◌then◌else◌,
}
use treadmill.Prelude.Dict.{Dict, lookup, insert, lookup-insert}
use treadmill.Result.{ok, fatal, Fault, ok-injective}
use treadmill.Files.{
  Writing, not_opened, cut_short, complete, content, read_file_to_string, write_string_to_file,
  write_dynamic_to_file,
}
use treadmill.Runner.{parsed, read_dynamic}

content-lookup : (files : Dict String) (k : String) → content true files k ≡ lookup k files
unfolding content read_file_to_string
content-lookup files k = elim (Option-cases (lookup k files)) [
  | inl e ↦ rw (e, content, read_file_to_string) refl
  | inr (x, e) ↦ rw (e, content, read_file_to_string) refl
]

content-insert :
    (k j text : String) (files : Dict String)
    → content true (insert k text files) j
      ≡ (if str_eq k j then some text else content true files j)
content-insert k j text files =
    rw (content-lookup (insert k text files) j, content-lookup files j)
      (lookup-insert k j text files)

written :
    (writing : Writing) (json filename : String) (files after : Dict String)
    → (if (write_string_to_file writing json filename files).0
        then ok (write_string_to_file writing json filename files).1
        else fatal Fault.log_fatal)
      ≡ ok after
    → after ≡ insert filename json files
unfolding write_string_to_file
written not_opened json filename files after e = cc
written (cut_short part) json filename files after e = cc
written complete json filename files after e = sym (ok-injective e)

-- After a write of an object that did not end the process, the file holds the object's JSON, from
-- whatever it held before, and every other file holds what it held.
pub content-write_dynamic_to_file :
    {D : Type 0} (to_json : D → Option String) (writing : Writing) (filename : String) (object : D)
    (files after : Dict String)
    → write_dynamic_to_file to_json writing filename object files ≡ ok after
    → (json : String) × (to_json object ≡ some json)
      × ((other : String)
          → content true after other
            ≡ (if str_eq filename other then some json else content true files other))
unfolding write_dynamic_to_file
content-write_dynamic_to_file to_json writing filename object files after e =
    elim (Option-cases (to_json object)) [
      | inl n ↦ ground (arith, e, n)
      | inr (json, n) ↦
          let done = written writing json filename files after (ground (arith, e, n)) in
          (
            json,
            n,
            λ other. ap (λ m. content true m other) done ∙ content-insert filename other json files,
          )
    ]

-- What readDynamicFromFile() has of a file is what folly::parseJson has of its text.
pub read_dynamic-content :
    {D : Type 0} (parse_json : String → Option D) (read_file : String → Option String)
    (filename json : String)
    → read_file filename ≡ some json
    → read_dynamic parse_json read_file filename ≡ parsed parse_json json
unfolding read_dynamic
read_dynamic-content parse_json read_file filename json e = rw (e, read_dynamic) refl
