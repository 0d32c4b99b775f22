-- ===== src/Tests/Policies.antt =====
-- States, retry decisions, back-off, histories and configurations at concrete inputs.
use lan_file_share.Common.{
  ◌≡◌, ◌≢◌, ◌↔◌, ◌⊎◌, ◌^◌, ◌-◌, refl, true, some, List, [], ◌∷◌, arith, string_eq,
}
use lan_file_share.Common.Int.{pos, ◌<ℤ◌, ◌≤ℤ◌, add64, wrap64, ◌+ℤ◌}
use lan_file_share.Common.Maps.{lookup, insert}
use lan_file_share.Common.Text.{contains_any, contains, to_lower}
use lan_file_share.Errors.{Error, sentinel, transfer_not_found, error_text}
use lan_file_share.State.{state_eq}
use lan_file_share.Retry.Policy.{get_retry_delay}
use lan_file_share.Retry.Handler.{retry, recoverable, system, categorize_error, handle_error}
use lan_file_share.Retry.Handler.Decisions.{handle_error-retry_iff}
use lan_file_share.Retry.History.{ErrorContext, add_error, get_error_pattern, repeated_error}
use lan_file_share.Retry.Scheduler.{RetryTask, schedule_retry}
use lan_file_share.Retry.Scheduler.Histories.{Call, schedule, after_calls-never_repeated}
use lan_file_share.Config.{
  TransferConfig, default_transfer_config, validate, get_chunk_size_for_file, is_valid_chunk_size,
}
use lan_file_share.Config.ChunkSize.{
  get_chunk_size_for_file_bounds, get_chunk_size_for_file_overflow,
}
use lan_file_share.Tests.Samples.{policy, doubling, refused}

handle_error-retry_iff_example : (handle_error policy (some refused) (pos 2) ≡ retry) ↔ (
    ((categorize_error (some refused) ≡ recoverable) × (pos 2 <ℤ pos 3))
    ⊎ ((categorize_error (some refused) ≡ system) × (pos 2 ≡ pos 0)))
handle_error-retry_iff_example = handle_error-retry_iff policy refused (pos 2)

abbrev no_history : ErrorContext
no_history = record {
  file_path = "a";
  session_id = "s";
  retry_count = pos 0;
  max_retries = pos 3;
  last_attempt = pos 0;
  total_bytes = pos 0;
  bytes_sent = pos 0;
  error_history = [];
}

abbrev other : Error
other = sentinel transfer_not_found

abbrev calls : List Call
calls =
    schedule "a" refused (pos 1) (pos 10)
    ∷ schedule "a" refused (pos 1) (pos 20)
    ∷ schedule "a" refused (pos 1) (pos 30)
    ∷ []

-- The task of "a" that the calls leave.
abbrev task_a : RetryTask
task_a = record {
  file_path = "a";
  retry_count = pos 1;
  next_attempt = pos 2_000_000_030;
  last_error = refused;
  error_context = record no_history {
    error_history = refused ∷ [];
    last_attempt = pos 10;
    retry_count = pos 1;
  };
}

after_calls-never_repeated_example : get_error_pattern task_a.error_context ≢ repeated_error
unfolding lookup insert schedule_retry handle_error categorize_error contains_any contains to_lower
    error_text add64 wrap64 ◌+ℤ◌ get_retry_delay add_error
after_calls-never_repeated_example = after_calls-never_repeated policy "s" calls "a" task_a refl

abbrev tc : TransferConfig
tc = default_transfer_config doubling

abbrev huge : TransferConfig
huge = record tc { chunk_size = pos (2 ^ 30); max_chunk_size = pos (2 ^ 31 - 1) }

get_chunk_size_for_file_overflow_example : get_chunk_size_for_file huge (pos (2 ^ 30)) <ℤ pos 0
unfolding validate
get_chunk_size_for_file_overflow_example =
    get_chunk_size_for_file_overflow huge (pos (2 ^ 30)) refl (omega arith) (omega arith)
      (omega arith)

get_chunk_size_for_file_bounds_example :
    (pos 0 ≤ℤ get_chunk_size_for_file tc (pos 300_000_000))
    × (get_chunk_size_for_file tc (pos 300_000_000) ≤ℤ tc.max_chunk_size)
    × ((is_valid_chunk_size tc (get_chunk_size_for_file tc (pos 300_000_000)) ≡ true)
        ↔ (tc.min_chunk_size ≤ℤ pos 300_000_000))
unfolding validate
get_chunk_size_for_file_bounds_example =
    get_chunk_size_for_file_bounds tc (pos 300_000_000) refl (ground arith) (ground arith)
