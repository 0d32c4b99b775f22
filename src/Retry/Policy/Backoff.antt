-- ===== src/Retry/Policy/Backoff.antt =====
-- What GetRetryDelay computes.
use Prim.Native.Nat.{min}
use native.Mathlib.Nat.{pow-suc}
use lan_file_share.Common.{ℕ, zero, suc, ◌*◌, ◌^◌, ◌≤◌, ◌≡◌, arith, ◌∙◌, ap}
use lan_file_share.Common.Int.{ℤ, pos, negsuc, ◌≤ℤ◌, ◌<ℤ◌}
use lan_file_share.Retry.Policy.{RetryPolicy, delay_loop, get_retry_delay}

delay_loop-le :
    (p : RetryPolicy) (rounds : ℕ) (delay : ℤ) → delay_loop p (suc rounds) delay ≤ℤ p.max_delay
unfolding delay_loop
delay_loop-le p zero delay = ground arith
delay_loop-le p (suc rounds) delay = ground (arith, delay_loop-le p rounds (p.scale delay))

-- From the first retry on the delay never passes the maximum, whatever the factor is.
get_retry_delay-le :
    (p : RetryPolicy) (count : ℤ) → pos 0 <ℤ count → get_retry_delay p count ≤ℤ p.max_delay
unfolding get_retry_delay
get_retry_delay-le p (pos zero) h = absurd (omega arith)
get_retry_delay-le p (pos (suc n)) h = ground (arith, delay_loop-le p n p.initial_delay)
get_retry_delay-le p (negsuc n) h = absurd (omega arith)

le-mul_pow : (a n : ℕ) → a ≤ a * 2 ^ n
le-mul_pow a zero = omega arith
le-mul_pow a (suc n) = omega (arith, le-mul_pow a n, ap (λ (t : ℕ). a * t) (pow-suc 2 n))

mul_pow-suc : (a n : ℕ) → a * 2 ^ suc n ≡ 2 * a * 2 ^ n
mul_pow-suc a n = omega (arith, ap (λ (t : ℕ). a * t) (pow-suc 2 n))

module _ (p : RetryPolicy) (limit : ℕ) (capped : p.max_delay ≡ pos limit)
    (doubles : (d : ℕ) → d ≤ limit → p.scale (pos d) ≡ pos (2 * d)) where
  delay_loop-doubles :
      (rounds d : ℕ) → d ≤ limit → delay_loop p rounds (pos d) ≡ pos (min (d * 2 ^ rounds) limit)
  unfolding delay_loop
  delay_loop-doubles zero d h = ap pos (omega arith)
  delay_loop-doubles (suc rounds) d h = ground (
    arith,
    capped,
    doubles d h,
    delay_loop-doubles rounds (2 * d),
    mul_pow-suc d rounds,
    le-mul_pow (2 * d) rounds,
  )

  -- Where the factor doubles, the delay is the initial one times 2 ^ count, cut at the maximum.
  get_retry_delay-doubles :
      (first : ℕ) (count : ℕ)
      → p.initial_delay ≡ pos first
      → first ≤ limit
      → get_retry_delay p (pos count) ≡ pos (min (first * 2 ^ count) limit)
  unfolding get_retry_delay
  get_retry_delay-doubles first zero e h = e ∙ ap pos (omega arith)
  get_retry_delay-doubles first (suc count) e h =
      ground (arith, e, delay_loop-doubles (suc count) first h)
