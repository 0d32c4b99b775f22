-- ===== src/Retry/Scheduler.antt =====
-- The queue of RetryScheduler (pkg/transfer/retry_scheduler.go). Its errors are not nil: with a nil
-- error ScheduleRetry stops with a panic at the second call. The timer of a task is armed while
-- the task is in the queue; that it fires is `execute_retry` of the transfer manager.
pub mod Histories
use lan_file_share.Common.{
  ℕ, suc, Bool, true, false, not, ◌||◌, ◌*◌, String, Option, none, some, List, [], ◌∷◌, length,
  ◌==◌, string_eq, if◌then◌else◌, ltb, leb,
}
use lan_file_share.Common.Int.{ℤ, pos, pos_part, neg_part, add64, ltb_ℤ}
use lan_file_share.Common.Maps.{Map, lookup, insert, delete}
use lan_file_share.Common.Text.{text_eq}
use lan_file_share.Errors.{Error, error_text}
use lan_file_share.Retry.Policy.{RetryPolicy, get_retry_delay, second}
use lan_file_share.Retry.Handler.{ErrorAction, retry, fail, pause, cancel, handle_error}
use lan_file_share.Retry.History.{ErrorContext, add_error}

pub record RetryTask : Type 0 where
  pub file_path : String
  pub retry_count : ℤ
  pub next_attempt : ℤ
  pub last_error : Error
  pub error_context : ErrorContext

abbrev pub RetryQueue : Type 0
RetryQueue = Map String RetryTask

abbrev pub is_retry : ErrorAction → Bool
is_retry retry = true
is_retry fail = false
is_retry pause = false
is_retry cancel = false

-- The context that a new task starts with.
abbrev new_context : RetryPolicy → String → String → ErrorContext
new_context p session path = record {
  file_path = path;
  session_id = session;
  retry_count = pos 0;
  max_retries = p.max_retries;
  last_attempt = pos 0;
  total_bytes = pos 0;
  bytes_sent = pos 0;
  error_history = [];
}

abbrev context_of : RetryPolicy → String → String → Option RetryTask → ErrorContext
context_of p session path none = new_context p session path
context_of p session path (some task) = task.error_context

-- ErrorHistory[len-1]
abbrev pub newest : List Error → Option Error
newest [] = none
newest (e ∷ []) = some e
newest (e ∷ f ∷ es) = newest (f ∷ es)

abbrev is_repeat : Option Error → Error → Bool
is_repeat none err = false
is_repeat (some last) err = error_text last == error_text err

-- The error is added unless the last one has the same text.
note_error : ErrorContext → Error → ℤ → ErrorContext
note_error ec err now = if is_repeat (newest ec.error_history) err then ec else add_error ec err now

-- ScheduleRetry for a policy, by which the handler decides too: the queue after it, and whether
-- the retry was scheduled.
unfoldable pub schedule_retry :
    RetryPolicy → String → RetryQueue → String → Error → ℤ → ℤ → RetryQueue × Bool
unfolding note_error
schedule_retry p session queue path err count now =
    if not (is_retry (handle_error p (some err) count))
    then (queue, false)
    else (let ec = note_error (context_of p session path (lookup path queue)) err now in
        (
          insert path
              (record {
                file_path = path;
                retry_count = count;
                next_attempt = add64 now (get_retry_delay p count);
                last_error = err;
                error_context = record ec { retry_count = count };
              })
              queue,
          true,
        ))

-- CancelRetry
unfoldable pub cancel_retry : RetryQueue → String → RetryQueue
cancel_retry queue path = delete path queue

-- The loop of CancelSession over the paths of GetAllRetryTasks.
unfoldable pub cancel_all : RetryQueue → RetryQueue → RetryQueue
unfolding cancel_retry
cancel_all queue [] = queue
cancel_all queue ((path, task) ∷ tasks) = cancel_all (cancel_retry queue path) tasks

-- GetRetryStatus
unfoldable pub get_retry_status : RetryQueue → String → Option RetryTask
get_retry_status queue path = lookup path queue

abbrev pub max_task_age : ℤ
max_task_age = pos (24 * 3600 * second)

-- cleanupExpiredTasks
unfoldable pub cleanup_expired_tasks : RetryQueue → ℤ → RetryQueue
cleanup_expired_tasks [] now = []
cleanup_expired_tasks ((path, task) ∷ queue) now =
    let rest = cleanup_expired_tasks queue now in
    if ltb_ℤ (add64 task.error_context.last_attempt max_task_age) now
    then rest
    else (path, task) ∷ rest

-- RetryStatistics, less the average, which is total_retry_count over total_scheduled.
pub record RetryStatistics : Type 0 where
  pub total_scheduled : ℤ
  pub pending_retries : ℤ
  pub overdue_retries : ℤ
  pub max_retry_count : ℤ
  pub total_retry_count : ℤ

count_task : RetryStatistics → RetryTask → ℤ → RetryStatistics
count_task st task now =
    let st' =
      if ltb_ℤ now task.next_attempt
      then record st { pending_retries = add64 st.pending_retries (pos 1) }
      else record st { overdue_retries = add64 st.overdue_retries (pos 1) } in
    record st' {
      max_retry_count =
          if ltb_ℤ st'.max_retry_count task.retry_count
          then task.retry_count
          else st'.max_retry_count;
      total_retry_count = add64 st'.total_retry_count task.retry_count;
    }

count_tasks : RetryStatistics → RetryQueue → ℤ → RetryStatistics
unfolding count_task
count_tasks st [] now = st
count_tasks st ((path, task) ∷ queue) now = count_tasks (count_task st task now) queue now

-- GetRetryStatistics
unfoldable pub get_retry_statistics : RetryQueue → ℤ → RetryStatistics
unfolding count_tasks
get_retry_statistics queue now =
    count_tasks
      (record {
        total_scheduled = pos (length queue);
        pending_retries = pos 0;
        overdue_retries = pos 0;
        max_retry_count = pos 0;
        total_retry_count = pos 0;
      })
      queue now
