-- ===== src/Retry/Handler.antt =====
-- DefaultErrorHandler of pkg/transfer/error_handler.go.
pub mod Decisions
use lan_file_share.Common.{
  ℕ, ◌+◌, Bool, false, true, List, [], ◌∷◌, String, Option, none, some, if◌then◌else◌, map, Eq,
  ◌==◌, nat_eq, leb, ltb,
}
use lan_file_share.Common.Int.{ℤ, pos, negsuc, pos_part, neg_part, leb_ℤ}
use lan_file_share.Common.Text.{codes, to_lower, contains_any}
use lan_file_share.Errors.{
  Error, Sentinel, error_text, errors_is, transfer_not_found, invalid_state_transition,
  transfer_already_exists, session_not_found, max_transfers_exceeded, invalid_configuration,
  transfer_cancelled,
}
use lan_file_share.Retry.Policy.{RetryPolicy, get_retry_delay}

pub data ErrorCategory : Type 0 where
  recoverable non_recoverable system : ErrorCategory

pub data ErrorAction : Type 0 where
  retry fail pause cancel : ErrorAction

-- ErrorAction.String
unfoldable pub action_to_string : ErrorAction → String
action_to_string retry = "retry"
action_to_string fail = "fail"
action_to_string pause = "pause"
action_to_string cancel = "cancel"

abbrev pub non_recoverable_patterns : List (List ℕ)
non_recoverable_patterns = map codes (
    "file not found" ∷ "no such file" ∷ "permission denied" ∷ "access denied" ∷ "disk full"
    ∷ "no space left" ∷ "invalid file format" ∷ "authentication failed" ∷ "unauthorized"
    ∷ "forbidden" ∷ "file too large" ∷ "invalid checksum" ∷ "corrupted" ∷ [])

abbrev pub system_error_patterns : List (List ℕ)
system_error_patterns = map codes (
    "out of memory" ∷ "database connection" ∷ "configuration error" ∷ "service unavailable"
    ∷ "internal server error" ∷ "panic" ∷ "deadlock" ∷ [])

abbrev pub recoverable_patterns : List (List ℕ)
recoverable_patterns = map codes (
    "connection timeout" ∷ "temporary failure" ∷ "network unreachable" ∷ "connection reset"
    ∷ "connection refused" ∷ "timeout" ∷ "rate limit" ∷ "throttled" ∷ "busy" ∷ "try again"
    ∷ "temporary" ∷ [])

-- The `switch` on `errors.Is`, with the default after it.
by_error_type : Error → ErrorCategory
by_error_type err =
    if errors_is err transfer_not_found
    then non_recoverable
    else if errors_is err invalid_state_transition
    then non_recoverable
    else if errors_is err transfer_already_exists
    then non_recoverable
    else if errors_is err session_not_found
    then non_recoverable
    else if errors_is err max_transfers_exceeded
    then recoverable
    else if errors_is err invalid_configuration
    then system
    else if errors_is err transfer_cancelled
    then non_recoverable
    else recoverable

by_message : List ℕ → Error → ErrorCategory
unfolding by_error_type
by_message text err =
    if contains_any text non_recoverable_patterns
    then non_recoverable
    else if contains_any text system_error_patterns
    then system
    else if contains_any text recoverable_patterns
    then recoverable
    else by_error_type err

-- `none` is a nil error.
unfoldable pub categorize_error : Option Error → ErrorCategory
unfolding by_message
categorize_error none = recoverable
categorize_error (some err) = by_message (to_lower (error_text err)) err

abbrev category_code : ErrorCategory → ℕ
category_code recoverable = 0
category_code non_recoverable = 1
category_code system = 2

-- DefaultErrorHandler.IsRetryable
unfoldable pub is_retryable : Option Error → ℤ → ℤ → Bool
is_retryable none count max = false
is_retryable (some err) count max =
    if leb_ℤ max count then false else category_code (categorize_error (some err)) == 0

abbrev is_zero : ℤ → Bool
is_zero z = pos_part z + neg_part z == 0

-- The `switch` of HandleError.
act_on : ErrorCategory → RetryPolicy → Error → ℤ → ErrorAction
act_on recoverable p err count = if is_retryable (some err) count p.max_retries then retry else fail
act_on non_recoverable p err count = fail
act_on system p err count = if is_zero count then retry else pause

-- DefaultErrorHandler.HandleError; the handler's only field is its policy.
unfoldable pub handle_error : RetryPolicy → Option Error → ℤ → ErrorAction
unfolding act_on is_retryable
handle_error p none count = retry
handle_error p (some err) count = act_on (categorize_error (some err)) p err count
