-- ===== src/Io/Lines.antt =====
-- readLine(): it ends, what it gives, and the byte before the buffer that it looks at.
use treadmill.Prelude.{
  ℕ, suc, ◌+◌, ◌≤◌, ◌<◌, ◌≡◌, refl, Bool, true, false, ◌&&◌, Option, some, List, [], ◌∷◌, length,
  arith, inl, inr, ltb, ◌⊎◌, if-cases,
}
use treadmill.Io.{Line, read_byte, line_goes_on, test_line, read_line}

-- What readLine() gives: a line that ends with "\r\n", or a full buffer.
abbrev pub IsLine : ℕ → ℕ → Line → Type 0
IsLine before buffer_size l = (l.total_bytes_read ≡ buffer_size) ⊎ (line_goes_on before l ≡ false)

-- The loop has come to its end, with such a line.
pub record Ends (before buffer_size : ℕ) (o : Option Line) : Type 0 where
  pub result : Line
  pub reads : o ≡ some result
  pub within : result.total_bytes_read ≤ buffer_size
  pub complete : IsLine before buffer_size result

-- What the test of the loop says when it stops it.
ended :
    (n size : ℕ) (goes_on : Bool)
    → n ≤ size
    → (ltb n size && goes_on) ≡ false
    → (n ≡ size) ⊎ (goes_on ≡ false)
ended n size true le e = inl (ground arith)
ended n size false le e = inr refl

-- From any state with room left, readLine() ends after at most as many calls as there is room, with
-- at most buffer_size bytes: with a line that the test of the loop takes to end
-- in "\r\n", or with a full buffer.
pub read_line-Ends :
    (before buffer_size : ℕ) (bytes : List (Option ℕ)) (l : Line)
    → l.total_bytes_read < buffer_size
    → buffer_size ≤ l.total_bytes_read + length bytes
    → Ends before buffer_size (read_line before buffer_size bytes l)
unfolding read_line test_line read_byte line_goes_on
read_line-Ends before buffer_size [] l lt enough = absurd (omega arith)
read_line-Ends before buffer_size (byte ∷ bytes) l lt enough =
    let l₁ = read_byte byte l in
    let l₂ = (test_line before buffer_size l₁).1 in
    if-cases (Ends before buffer_size)
      (ltb (suc l.total_bytes_read) buffer_size && line_goes_on before l₁)
      (λ e. read_line-Ends before buffer_size bytes l₂ (ground arith) (omega arith))
      (λ e. record {
        result = l₂;
        reads = refl;
        within = lt;
        complete = ended (suc l.total_bytes_read) buffer_size (line_goes_on before l₁) lt e;
      })

stays_out :
    (before buffer_size : ℕ) (bytes : List (Option ℕ)) (l result : Line)
    → l.out_of_bounds ≡ true
    → read_line before buffer_size bytes l ≡ some result
    → result.out_of_bounds ≡ true
unfolding read_line test_line read_byte
stays_out before buffer_size [] l result out e = cc
stays_out before buffer_size (byte ∷ bytes) l result out e =
    let l₁ = read_byte byte l in
    let l₂ = (test_line before buffer_size l₁).1 in
    let out₂ : l₂.out_of_bounds ≡ true = ground (arith, out) in
    if-cases (λ (o : Option Line). o ≡ some result → result.out_of_bounds ≡ true)
      (ltb (suc l.total_bytes_read) buffer_size && line_goes_on before l₁)
      (λ g h. stays_out before buffer_size bytes l₂ result out₂ h) (λ g h. ground (arith, out₂, h))
      e

-- With room for more than one byte, every call of readLine() looks at the byte before its buffer.
pub read_line-out_of_bounds :
    (before buffer_size : ℕ) (bytes : List (Option ℕ)) (l result : Line)
    → 1 < buffer_size
    → l.total_bytes_read ≡ 0
    → read_line before buffer_size bytes l ≡ some result
    → result.out_of_bounds ≡ true
unfolding read_line test_line read_byte
read_line-out_of_bounds before buffer_size [] l result room start e = cc
read_line-out_of_bounds before buffer_size (byte ∷ bytes) l result room start e =
    let l₁ = read_byte byte l in
    let l₂ = (test_line before buffer_size l₁).1 in
    let out₂ : l₂.out_of_bounds ≡ true = ground (arith, start, room) in
    if-cases (λ (o : Option Line). o ≡ some result → result.out_of_bounds ≡ true)
      (ltb (suc l.total_bytes_read) buffer_size && line_goes_on before l₁)
      (λ g h. stays_out before buffer_size bytes l₂ result out₂ h) (λ g h. ground (arith, out₂, h))
      e
