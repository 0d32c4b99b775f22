-- ===== src/Manager/Transfers.antt =====
-- The operations of UnifiedTransferManager on the file in transfer (pkg/transfer/unified_manager.go),
-- and executeRetry of pkg/transfer/retry_scheduler.go, which calls them.
use lan_file_share.Common.{String, Option, none, some, ◌==◌, string_eq, if◌then◌else◌}
use lan_file_share.Common.Int.{ℤ, pos, add64, sub64, leb_ℤ}
use lan_file_share.Errors.{Error, sentinel, transfer_not_found, invalid_state_transition}
use lan_file_share.State.{TransferState, state_eq, StatusSessionState}
use lan_file_share.FileNode.{FileNode, info}
use lan_file_share.FileStructure.{get_file, get_file_count, get_total_size}
use lan_file_share.Queue.{pending, completed, failed, move_file_in_queue}
use lan_file_share.Retry.History.{should_escalate}
use lan_file_share.Retry.Scheduler.{RetryTask, schedule_retry, cancel_retry, get_retry_status}
use lan_file_share.Session.{
  Float64, TransferStatus, SessionTransferStatus, calculate_metrics,
  get_session_progress_percentage, is_session_complete,
}
use lan_file_share.StatusManager.{new_transfer_status}
use lan_file_share.Manager.{UnifiedTransferManager, with_queue_counts}

-- The current file if its path is the one given: the check that the operations begin with.
abbrev pub current_at :
    {F : Type 0} → Option (TransferStatus F) → String → Option (TransferStatus F)
current_at none path = none
current_at (some file) path = if file.file_path == path then some file else none

abbrev pub Utm : Float64 → Type 0 → Type 0
Utm fl C = UnifiedTransferManager fl.Float C

abbrev pub Answer : Float64 → Type 0 → Type 0
Answer fl C = Utm fl C × Option Error

abbrev pub Body : Float64 → Type 0 → Type 0
Body fl C = TransferStatus fl.Float → Answer fl C

with_progress : (fl : Float64) → SessionTransferStatus fl.Float → SessionTransferStatus fl.Float
with_progress fl s = record s { overall_progress = get_session_progress_percentage fl s }

module _ (fl : Float64) {C : Type 0} where
  -- updateSessionTotals
  update_session_totals : Utm fl C → SessionTransferStatus fl.Float → SessionTransferStatus fl.Float
  unfolding with_queue_counts get_file_count get_total_size
  update_session_totals u s = record (with_queue_counts s u.queues) {
    total_files = get_file_count u.structure;
    total_bytes = get_total_size u.structure;
  }

  unfoldable pub start_found : Utm fl C → String → ℤ → Option FileNode → Answer fl C
  unfolding update_session_totals
  start_found u path now none = (u, some (sentinel transfer_not_found))
  start_found u path now (some n) =
      let s = u.session_status in
      (
        record u {
          session_status = update_session_totals u (record s {
            current_file =
                some
                  (new_transfer_status fl path s.session_id (info n).size u.policy.max_retries now);
            last_update_time = now;
          });
        },
        none,
      )

  -- StartTransfer
  unfoldable pub start_transfer :
      UnifiedTransferManager fl.Float C
      → String
      → ℤ
      → UnifiedTransferManager fl.Float C × Option Error
  unfolding start_found get_file
  start_transfer u path now = start_found u path now (get_file u.structure path)

  unfoldable pub on_file : Utm fl C → Body fl C → Option (TransferStatus fl.Float) → Answer fl C
  on_file u body none = (u, some (sentinel transfer_not_found))
  on_file u body (some file) = body file

  unfoldable pub at_current : Utm fl C → String → Body fl C → Answer fl C
  unfolding on_file
  at_current u path body = on_file u body (current_at u.session_status.current_file path)

  -- UpdateProgress
  unfoldable pub update_transfer :
      UnifiedTransferManager fl.Float C
      → String
      → ℤ
      → ℤ
      → UnifiedTransferManager fl.Float C × Option Error
  unfolding at_current with_progress
  update_transfer u path sent now = at_current u path (λ file.
      let file' =
        calculate_metrics fl (record file { bytes_sent = sent; last_update_time = now }) now in
      let s = with_progress fl (record u.session_status { current_file = some file' }) in
      (record u { session_status = record s { last_update_time = now } }, none))

  unfoldable pub complete_file : Utm fl C → String → ℤ → Body fl C
  unfolding with_progress is_session_complete
  complete_file u path now file =
      let s = u.session_status in
      let t = with_progress fl (record s {
        completed_files = add64 s.completed_files (pos 1);
        pending_files = sub64 s.pending_files (pos 1);
        bytes_completed = add64 s.bytes_completed file.total_bytes;
        current_file = none;
        last_update_time = now;
      }) in
      (
        record u {
          queues = (move_file_in_queue u.queues path pending completed).0;
          session_status =
              if is_session_complete t
              then record t { completion_time = some now; state = StatusSessionState.completed }
              else t;
        },
        none,
      )

  -- CompleteTransfer
  unfoldable pub complete_transfer :
      UnifiedTransferManager fl.Float C
      → String
      → ℤ
      → UnifiedTransferManager fl.Float C × Option Error
  unfolding at_current complete_file
  complete_transfer u path now = at_current u path (complete_file u path now)

  -- FailTransfer where no retry was scheduled.
  unfoldable pub give_up : Utm fl C → String → ℤ → Answer fl C
  unfolding with_progress
  give_up u path now =
      let s = u.session_status in
      let t = with_progress fl (record s {
        failed_files = add64 s.failed_files (pos 1);
        pending_files = sub64 s.pending_files (pos 1);
        current_file = none;
        last_update_time = now;
      }) in
      (
        record u {
          queues = (move_file_in_queue u.queues path pending failed).0;
          session_status =
              if leb_ℤ t.total_files t.failed_files
              then record t { completion_time = some now; state = StatusSessionState.failed }
              else t;
        },
        none,
      )

  -- FailTransfer where a retry was scheduled.
  unfoldable pub release : Utm fl C → ℤ → Utm fl C
  release u now = record u {
    session_status = record u.session_status { current_file = none; last_update_time = now };
  }

  unfoldable pub fail_file : Utm fl C → String → Error → ℤ → Body fl C
  unfolding give_up release
  fail_file u path cause now file =
      let count = add64 file.retry_count (pos 1) in
      let (queue, scheduled) =
        schedule_retry u.policy u.session_status.session_id u.retry_queue path cause count now in
      let u' = record u { retry_queue = queue } in
      if scheduled then (release u' now, none) else give_up u' path now

  -- FailTransfer; its error is not nil.
  unfoldable pub fail_transfer :
      UnifiedTransferManager fl.Float C
      → String
      → Error
      → ℤ
      → UnifiedTransferManager fl.Float C × Option Error
  unfolding at_current fail_file
  fail_transfer u path cause now = at_current u path (fail_file u path cause now)

  move_file : Utm fl C → TransferState → TransferState → ℤ → Body fl C
  move_file u from to now file =
      if file.state == from
      then (
        record u {
          session_status = record u.session_status {
            current_file = some (record file { state = to; last_update_time = now });
            last_update_time = now;
          };
        },
        none,
      )
      else (u, some (sentinel invalid_state_transition))

  -- PauseTransfer
  unfoldable pub pause_transfer :
      UnifiedTransferManager fl.Float C
      → String
      → ℤ
      → UnifiedTransferManager fl.Float C × Option Error
  unfolding at_current move_file
  pause_transfer u path now =
      at_current u path (move_file u TransferState.active TransferState.paused now)

  -- ResumeTransfer
  unfoldable pub resume_transfer :
      UnifiedTransferManager fl.Float C
      → String
      → ℤ
      → UnifiedTransferManager fl.Float C × Option Error
  unfolding at_current move_file
  resume_transfer u path now =
      at_current u path (move_file u TransferState.paused TransferState.active now)

  -- ScheduleRetry after a restart that failed, and FailTransfer, its error unread, if it refuses.
  retry_again : Utm fl C → RetryTask → Error → ℤ → Utm fl C
  unfolding fail_transfer
  retry_again u task cause now =
      let (queue, scheduled) =
        schedule_retry u.policy u.session_status.session_id u.retry_queue task.file_path cause
          (add64 task.retry_count (pos 1)) now in
      if scheduled
      then record u { retry_queue = queue }
      else (fail_transfer u task.file_path cause now).0

  unfoldable pub restart : Utm fl C → RetryTask → ℤ → Utm fl C
  unfolding start_transfer retry_again
  restart u task now =
      let (u', failure) = start_transfer u task.file_path now in
      elim failure [ none ↦ u' | some e ↦ retry_again u' task e now ]

  retry_task : Utm fl C → String → RetryTask → ℤ → Utm fl C
  unfolding restart fail_transfer
  retry_task u path task now =
      if should_escalate task.error_context
      then (fail_transfer u path task.last_error now).0
      else restart u (record task { file_path = path }) now

  unfoldable pub retry_found : Utm fl C → String → Option RetryTask → ℤ → Utm fl C
  unfolding retry_task cancel_retry
  retry_found u path none now = u
  retry_found u path (some task) now =
      retry_task (record u { retry_queue = cancel_retry u.retry_queue path }) path task now

  -- executeRetry
  unfoldable pub execute_retry :
      UnifiedTransferManager fl.Float C → String → ℤ → UnifiedTransferManager fl.Float C
  unfolding retry_found get_retry_status
  execute_retry u path now = retry_found u path (get_retry_status u.retry_queue path) now
