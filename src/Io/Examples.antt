-- ===== src/Io/Examples.antt =====
-- Runs of the loops over a file descriptor.
use treadmill.Prelude.{
  ◌<◌, zero, suc, String, ℕ, ◌≡◌, refl, true, false, Option, none, some, List, [], ◌∷◌, replicate,
  arith,
}
use treadmill.Result.{ok, fatal, Fault}
use treadmill.Io.{
  Answer, failed, moved, done, going, read_block, write_block, Line, read_byte, test_line,
  line_goes_on, read_line,
}
use treadmill.Io.Blocks.{read_block-going}
use treadmill.Io.Lines.{Ends, read_line-Ends}

read_block_fails : read_block 8 (moved 3 ∷ failed ∷ []) 0 ≡ fatal Fault.log_fatal
unfolding read_block
read_block_fails = refl

abbrev answers : List Answer
answers = moved 3 ∷ moved 1 ∷ moved 9 ∷ moved 1 ∷ []

answers_move : (read_block 4 answers 0 ≡ ok (done 4)) × (write_block 4 answers 0 ≡ ok (done 4))
unfolding read_block write_block
answers_move = (refl, refl)

read_block-going_example : read_block 8 (replicate 5 (moved 0)) 3 ≡ ok (going 3)
read_block-going_example = read_block-going 8 3 5 (omega arith)

-- "ok\r\n" and room for eight bytes.
abbrev bytes : List (Option ℕ)
bytes = some 111 ∷ some 107 ∷ some 13 ∷ some 10 ∷ none ∷ none ∷ none ∷ none ∷ []

abbrev empty_line : Line
empty_line = record { buffer = replicate 8 0; total_bytes_read = 0; out_of_bounds = false }

abbrev line : Line
line = record {
  buffer = 111 ∷ 107 ∷ 13 ∷ 10 ∷ 0 ∷ 0 ∷ 0 ∷ 0 ∷ [];
  total_bytes_read = 4;
  out_of_bounds = true;
}

line_is_read : read_line 0 8 bytes empty_line ≡ some line
unfolding read_line read_byte test_line line_goes_on
line_is_read = refl

read_line-Ends_example : Ends 0 8 (read_line 0 8 bytes empty_line)
read_line-Ends_example = read_line-Ends 0 8 bytes empty_line (omega arith) (omega arith)

-- The second attempt succeeds.
abbrev second_time : ℕ → Option ℕ
second_time zero = none
second_time (suc n) = some 7

abbrev print : ℕ → String
print n = "10.0.0.7"

failed_once : (n : ℕ) → n < 1 → second_time n ≡ none
failed_once zero h = refl
failed_once (suc n) h = absurd (omega arith)
