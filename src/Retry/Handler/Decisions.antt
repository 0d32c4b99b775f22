-- ===== src/Retry/Handler/Decisions.antt =====
-- What DefaultErrorHandler decides (pkg/transfer/error_handler.go).
use lan_file_share.Common.{◌≡◌, refl, ◌↔◌, ◌⊎◌, ◌≢◌, List, ℕ, some, none, true, arith, Option}
use lan_file_share.Common.Int.{ℤ, pos, ◌<ℤ◌}
use lan_file_share.Common.Text.{codes, to_lower, contains_any, contains_any-append, to_lower-append}
use lan_file_share.Errors.{Error, error_text, wrapped}
use lan_file_share.Retry.Policy.{RetryPolicy}
use lan_file_share.Retry.Handler.{
  recoverable, non_recoverable, system, retry, fail, pause, cancel, categorize_error, handle_error,
  non_recoverable_patterns, by_message,
}

-- HandleError answers "retry" exactly for a recoverable error under the retry limit, or for a
-- system error at the count 0.
pub handle_error-retry_iff :
    (p : RetryPolicy) (err : Error) (count : ℤ)
    → (handle_error p (some err) count ≡ retry) ↔ (
        ((categorize_error (some err) ≡ recoverable) × (count <ℤ p.max_retries))
        ⊎ ((categorize_error (some err) ≡ system) × (count ≡ pos 0)))
unfolding handle_error
handle_error-retry_iff p err count = ground arith

-- It answers "pause" exactly for a system error at a count other than 0, and never "cancel".
handle_error-pause_iff :
    (p : RetryPolicy) (err : Option Error) (count : ℤ)
    → ((handle_error p err count ≡ pause) ↔ ((categorize_error err ≡ system) × (count ≢ pos 0)))
      × (handle_error p err count ≢ cancel)
unfolding handle_error categorize_error
handle_error-pause_iff p none count = ground arith
handle_error-pause_iff p (some err) count = ground arith

by_message-non_recoverable :
    (text : List ℕ) (err : Error)
    → contains_any text non_recoverable_patterns ≡ true
    → by_message text err ≡ non_recoverable
unfolding by_message
by_message-non_recoverable text err h = rw h

message_kept :
    (text : List ℕ) (err : Error)
    → contains_any (to_lower (error_text err)) non_recoverable_patterns ≡ true
    → contains_any (to_lower (error_text (wrapped text err))) non_recoverable_patterns ≡ true
unfolding error_text
message_kept text err h =
    rw (to_lower-append text, to_lower-append (codes ": "))
      (contains_any-append (to_lower text) _ _ (contains_any-append (to_lower (codes ": ")) _ _ h))

-- However often an error whose message names a non-recoverable condition is wrapped, by texts of
-- any kind, it is never retried.
handle_error-wrapped :
    (p : RetryPolicy) (text : List ℕ) (err : Error) (count : ℤ)
    → contains_any (to_lower (error_text err)) non_recoverable_patterns ≡ true
    → handle_error p (some (wrapped text err)) count ≡ fail
unfolding handle_error categorize_error
handle_error-wrapped p text err count h =
    rw (by_message-non_recoverable _ (wrapped text err) (message_kept text err h)) refl
