-- ===== src/Io/Blocks.antt =====
-- readBlock() and writeBlock(): when they end, and when they do not.
use treadmill.Prelude.{
  ℕ, zero, suc, ◌+◌, ◌≤◌, ◌<◌, ◌≡◌, refl, List, [], ◌∷◌, length, replicate, arith, All, ◌==◌,
  if-cases, ◌-◌,
}
use treadmill.Result.{Result, ok}
use treadmill.Io.{at_most, Answer, failed, moved, Progress, done, going, read_block, write_block}

-- The call moved something.
abbrev pub IsFruitful : Answer → Type 0
IsFruitful failed = ⊥
IsFruitful (moved n) = 0 < n

at_most-le : (bound n : ℕ) → at_most bound n ≤ bound
at_most-le bound n = ground arith

at_most-pos : (bound n : ℕ) → 0 < bound → 0 < n → 0 < at_most bound n
at_most-pos bound n h k = ground arith

same_loop :
    (size : ℕ) (answers : List Answer) (total : ℕ)
    → write_block size answers total ≡ read_block size answers total
unfolding read_block write_block
same_loop size [] total = refl
same_loop size (failed ∷ answers) total = refl
same_loop size (moved n ∷ answers) total = rw (same_loop size answers _)

read_block-enough :
    (size : ℕ) (answers : List Answer) (total : ℕ)
    → All IsFruitful answers
    → total ≤ size
    → size ≤ total + length answers
    → read_block size answers total ≡ ok (done size)
unfolding read_block
read_block-enough size [] total fruitful le enough = ground arith
read_block-enough size (failed ∷ answers) total fruitful le enough = absurd fruitful.0
read_block-enough size (moved n ∷ answers) total fruitful le enough =
    if-cases (λ (m : Result Progress). m ≡ ok (done size)) (total == size) (λ e. ground arith)
      (λ e.
        let less = at_most-le (size - total) n in
        let more = at_most-pos (size - total) n (ground arith) fruitful.0 in
        read_block-enough size answers (total + at_most (size - total) n) fruitful.1 (omega arith)
          (omega arith))

-- If each call moves at least one byte, both loops end with the whole block moved, after at most as
-- many calls as the block has bytes.
pub read_block-done :
    (size : ℕ) (answers : List Answer)
    → All IsFruitful answers
    → size ≤ length answers
    → (read_block size answers 0 ≡ ok (done size)) × (write_block size answers 0 ≡ ok (done size))
read_block-done size answers fruitful enough =
    let e = read_block-enough size answers 0 fruitful (omega arith) (omega arith) in
    (e, rw (same_loop size answers 0) e)

-- At the end of a file, where every call gives 0, the loop of readBlock() never ends: however many
-- calls were made, it is still going, with the bytes that it had.
pub read_block-going :
    (size total calls : ℕ)
    → total < size
    → read_block size (replicate calls (moved 0)) total ≡ ok (going total)
unfolding read_block
read_block-going size total zero lt = ground arith
read_block-going size total (suc calls) lt = ground (arith, read_block-going size total calls lt)
