-- ===== src/Io.antt =====
-- Util.cpp: the loops over a file descriptor, and the attempts to look up a host. What read() and
-- write() of the operating system give is an argument, one answer for each call.
pub mod Blocks
pub mod Lines
pub mod Names
mod Examples
use treadmill.Prelude.{
  ℕ, zero, suc, ◌+◌, ◌-◌, Bool, true, false, not, ◌&&◌, ◌||◌, Option, none, some, List, [], ◌∷◌,
  ltb, ◌==◌, if◌then◌else◌, get_or, set, String,
}
use treadmill.Prelude.Int.{ℤ, pos}
use treadmill.Result.{Result, ok, fatal, Fault}

-- What one call of read() or write() gives: -1, or how many bytes it moved. A call moves at most as
-- many bytes as it was asked for, `moved n asked` being so capped.
pub data Answer : Type 0 where
  failed : Answer
  moved : ℕ → Answer

abbrev pub at_most : ℕ → ℕ → ℕ
at_most bound n = if ltb bound n then bound else n

-- How a loop leaves off: with the bytes moved, or still going when the answers ran out.
pub data Progress : Type 0 where
  done : ℕ → Progress
  going : ℕ → Progress

-- readBlock(): the loop; `total` bytes are there so far. The check after the loop is never true.
unfoldable pub read_block : ℕ → List Answer → ℕ → Result Progress
read_block buffer_size [] total = if total == buffer_size then ok (done total) else ok (going total)
read_block buffer_size (failed ∷ answers) total =
    if total == buffer_size then ok (done total) else fatal Fault.log_fatal
read_block buffer_size (moved n ∷ answers) total =
    let rest = read_block buffer_size answers (total + at_most (buffer_size - total) n) in
    if total == buffer_size then ok (done total) else rest

-- writeBlock()
unfoldable pub write_block : ℕ → List Answer → ℕ → Result Progress
write_block buffer_size [] total =
    if total == buffer_size then ok (done total) else ok (going total)
write_block buffer_size (failed ∷ answers) total =
    if total == buffer_size then ok (done total) else fatal Fault.log_fatal
write_block buffer_size (moved n ∷ answers) total =
    let rest = write_block buffer_size answers (total + at_most (buffer_size - total) n) in
    if total == buffer_size then ok (done total) else rest

-- The state of readLine(): the buffer, how often read() was called, and whether the test of the
-- loop has looked outside of the buffer. A byte is a number; read() of one byte that gives none,
-- at the end of the file or on an error, leaves the buffer as it is.
pub record Line : Type 0 where
  pub buffer : List ℕ
  pub total_bytes_read : ℕ
  pub out_of_bounds : Bool

abbrev store : Option ℕ → ℕ → List ℕ → List ℕ
store none i buffer = buffer
store (some byte) i buffer = set buffer i byte

-- One round: the byte goes to its place, and the count goes up whatever read() gave.
unfoldable pub read_byte : Option ℕ → Line → Line
read_byte byte l = record l {
  buffer = store byte l.total_bytes_read l.buffer;
  total_bytes_read = suc l.total_bytes_read;
}

-- buffer[total - 2] != '\r' || buffer[total - 1] != '\n'; `before` is what stands before the
-- buffer.
unfoldable pub line_goes_on : ℕ → Line → Bool
line_goes_on before l =
    let n = l.total_bytes_read in
    not ((if n == 1 then before else get_or l.buffer (n - 2) 0) == 13)
    || not (get_or l.buffer (n - 1) 0 == 10)

-- The test of the loop, which reads outside of the buffer when one byte has been asked for.
unfoldable pub test_line : ℕ → ℕ → Line → Bool × Line
unfolding line_goes_on
test_line before buffer_size l =
    let more = ltb l.total_bytes_read buffer_size in
    (
      more && line_goes_on before l,
      record l { out_of_bounds = l.out_of_bounds || (more && (l.total_bytes_read == 1)) },
    )

-- readLine(); `none` says that the answers ran out first.
unfoldable pub read_line : ℕ → ℕ → List (Option ℕ) → Line → Option Line
unfolding read_byte test_line
read_line before buffer_size [] l = none
read_line before buffer_size (byte ∷ bytes) l =
    let (goes_on, l') = test_line before buffer_size (read_byte byte l) in
    let rest = read_line before buffer_size bytes l' in if goes_on then rest else some l'

-- The attempts of nsLookUp(): the next one is number `attempt`, and `left` may still be made.
unfoldable pub look_up : {A : Type 0} → (ℕ → Option A) → (attempt left : ℕ) → Option A
look_up getaddrinfo attempt zero = none
look_up getaddrinfo attempt (suc left) = elim (getaddrinfo attempt) [
  | none ↦ look_up getaddrinfo (suc attempt) left
  | some address ↦ some address
]

-- nsLookUp(): getaddrinfo() of the operating system gives `none` for an error; `inet_ntop` prints
-- an address.
unfoldable pub ns_look_up : {A : Type 0} → (ℕ → Option A) → (A → String) → Result String
unfolding look_up
ns_look_up getaddrinfo inet_ntop = elim (look_up getaddrinfo 0 3) [
  | none ↦ fatal Fault.log_fatal
  | some address ↦ ok (inet_ntop address)
]
