-- ===== src/Retry/Policy.antt =====
-- RetryPolicy of pkg/transfer/status.go.
pub mod Backoff
use lan_file_share.Common.{
  ℕ, zero, suc, ◌*◌, ◌^◌, Bool, false, true, List, [], ◌∷◌, String, Option, none, some,
  if◌then◌else◌, ltb, map,
}
use lan_file_share.Common.Int.{ℤ, pos, pos_part, neg_part, ltb_ℤ, leb_ℤ}
use lan_file_share.Common.Text.{codes, to_lower, contains_any}
use lan_file_share.Errors.{Error, error_text}

-- Durations are int64 nanoseconds. The float64 `BackoffFactor` enters only by the function
-- `scale`: it stands for `d ↦ time.Duration(float64(d) * BackoffFactor)`.
pub record RetryPolicy : Type 0 where
  pub max_retries : ℤ
  pub initial_delay : ℤ
  pub scale : ℤ → ℤ
  pub max_delay : ℤ
  pub retryable_errors : List String

abbrev pub second : ℕ
second = 1_000_000_000

-- DefaultRetryPolicy, whose BackoffFactor is 2.0.
abbrev pub default_retry_policy : (ℤ → ℤ) → RetryPolicy
default_retry_policy doubled = record {
  max_retries = pos 3;
  initial_delay = pos second;
  scale = doubled;
  max_delay = pos (30 * second);
  retryable_errors =
      "connection timeout" ∷ "temporary failure" ∷ "network unreachable" ∷ "connection reset" ∷ [];
}

-- The loop of GetRetryDelay with its rounds left.
delay_loop : RetryPolicy → ℕ → ℤ → ℤ
delay_loop p zero delay = delay
delay_loop p (suc rounds) delay =
    let next = p.scale delay in
    let rest = delay_loop p rounds next in if ltb_ℤ p.max_delay next then p.max_delay else rest

unfoldable pub get_retry_delay : RetryPolicy → ℤ → ℤ
unfolding delay_loop
get_retry_delay p count =
    if leb_ℤ count (pos 0) then p.initial_delay else delay_loop p (pos_part count) p.initial_delay

-- RetryPolicy.IsRetryable
unfoldable pub policy_is_retryable : RetryPolicy → Option Error → Bool
policy_is_retryable p none = false
policy_is_retryable p (some err) =
    contains_any (to_lower (error_text err)) (map (λ s. to_lower (codes s)) p.retryable_errors)
