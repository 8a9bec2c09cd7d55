-- ===== src/Sleep/Replies.antt =====
-- The time that a client of the sleep service is told.
use treadmill.Prelude.{◌≡◌, refl, ap, sym, ◌∙◌, [], ◌∷◌, arith}
use treadmill.Prelude.Int.{ℤ, pos, ◌-ℤ◌, ◌*ℤ◌}
use treadmill.Double.{Double, IsSmall}
use treadmill.Worker.{value}
use treadmill.Sleep.{Time, micros, IsTimersub, make_reply, reply_time, go_sleep, on_answer}

module _ {F : Type 0} (f : Double F) where
  -- The server's answer is the time in microseconds between its two readings of the clock, and the
  -- client, whose request does not fail, gets it as it was sent, and adds it to the statistic,
  -- although it is kept in a double on the way: where the seconds between, these in microseconds,
  -- and the whole time are below 2^53.
  pub reply_time-go_sleep :
      (timersub : Time → Time → Time) (start end : Time)
      → IsTimersub timersub
      → IsSmall (timersub end start).tv_sec
      → IsSmall ((timersub end start).tv_sec *ℤ pos 1_000_000)
      → IsSmall (timersub end start).tv_usec
      → IsSmall (micros (timersub end start))
      → let sent = go_sleep f timersub start end in
        (sent ≡ micros end -ℤ micros start)
        × (on_answer f (value sent) ≡ (value (make_reply f sent), f.of_int sent ∷ []))
        × (reply_time f (make_reply f sent) ≡ sent)
  unfolding go_sleep on_answer reply_time make_reply
  reply_time-go_sleep timersub start end law s0 s1 s2 s3 =
      let diff = timersub end start in
      let product = f.mul_exact diff.tv_sec (pos 1_000_000) s0 (omega arith) s1 in
      let sum = f.add_exact (diff.tv_sec *ℤ pos 1_000_000) diff.tv_usec s1 s2 s3 in
      let sent : go_sleep f timersub start end ≡ micros diff =
        ap (λ (x : F). f.to_int (f.add x (f.of_int diff.tv_usec))) product
        ∙ ap f.to_int sum
        ∙ f.to_int-of_int (micros diff) s3 in
      (
        sent ∙ law end start,
        refl,
        ap (λ (x : ℤ). f.to_int (f.of_int x)) sent ∙ f.to_int-of_int (micros diff) s3 ∙ sym sent,
      )
