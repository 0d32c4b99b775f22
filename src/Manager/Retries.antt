-- ===== src/Manager/Retries.antt =====
-- How UnifiedTransferManager and its RetryScheduler retry (pkg/transfer/unified_manager.go,
-- pkg/transfer/retry_scheduler.go).
use lan_file_share.Common.{
  ◌≢◌, false, ◌≡◌, refl, true, String, Option, none, some, arith, inl, ◌==◌, string_eq,
}
use lan_file_share.Common.Int.{ℤ, pos, add64, add64_exact, ◌<ℤ◌}
use lan_file_share.Common.Maps.{lookup, lookup-insert_self}
use lan_file_share.Errors.{Error, sentinel, transfer_not_found}
use lan_file_share.FileNode.{FileNode}
use lan_file_share.FileStructure.{get_file}
use lan_file_share.Retry.Handler.{retry, recoverable, categorize_error, handle_error}
use lan_file_share.Retry.Handler.Decisions.{handle_error-retry_iff}
use lan_file_share.Retry.Policy.{RetryPolicy}
use lan_file_share.Retry.History.{should_escalate}
use lan_file_share.Retry.Scheduler.{
  RetryTask, RetryQueue, schedule_retry, cancel_retry, get_retry_status,
}
use lan_file_share.Session.{Float64}
use lan_file_share.Manager.{UnifiedTransferManager}
use lan_file_share.Manager.Transfers.{
  restart, complete_transfer, current_at, start_transfer, fail_transfer, execute_retry,
}

-- The retry count of a task, if there is one.
abbrev pub count_of : Option RetryTask → Option ℤ
count_of none = none
count_of (some task) = some task.retry_count

schedule_first :
    (p : RetryPolicy) (session path : String) (queue : RetryQueue) (cause : Error) (now : ℤ)
    → handle_error p (some cause) (pos 1) ≡ retry
    → let answer = schedule_retry p session queue path cause (pos 1) now in
      (answer.1 ≡ true) × (count_of (lookup path answer.0) ≡ some (pos 1))
unfolding schedule_retry
schedule_first p session path queue cause now h = rw h (refl, rw (lookup-insert_self path) refl)

-- A transfer that is started and then fails with a recoverable error is scheduled for a retry with
-- the count 1 and its queue is unchanged, whatever attempts and retries went before, as long as the
-- retry limit is more than 1.
fail-start :
    (fl : Float64) {C : Type 0} (u : UnifiedTransferManager fl.Float C) (path : String)
    (n : FileNode) (cause : Error) (now later : ℤ)
    → get_file u.structure path ≡ some n
    → categorize_error (some cause) ≡ recoverable
    → pos 1 <ℤ u.policy.max_retries
    → let u' = (fail_transfer fl (start_transfer fl u path now).0 path cause later).0 in
      (u'.queues ≡ u.queues) × (count_of (get_retry_status u'.retry_queue path) ≡ some (pos 1))
unfolding fail_transfer start_transfer get_retry_status
fail-start fl u path n cause now later found recovers allowed =
    let action = (handle_error-retry_iff u.policy cause (pos 1)).1 (inl (recovers, allowed)) in
    let first =
      schedule_first u.policy u.session_status.session_id path u.retry_queue cause later action in
    let same : path == path ≡ true = ground (arith, string_eq.beq_iff path path) in
    let one : add64 (pos 0) (pos 1) ≡ pos 1 = add64_exact 0 1 (omega arith) in
    rw (found, same, one, first.0) (refl, first.1)

-- A retry that is due and should be escalated, while the file is not the one in transfer, takes the
-- task off the retry queue and changes nothing else: the file is not marked as failed.
execute_retry-escalated :
    (fl : Float64) {C : Type 0} (u : UnifiedTransferManager fl.Float C) (path : String)
    (task : RetryTask) (now : ℤ)
    → get_retry_status u.retry_queue path ≡ some task
    → should_escalate task.error_context ≡ true
    → current_at u.session_status.current_file path ≡ none
    → execute_retry fl u path now ≡ record u { retry_queue = cancel_retry u.retry_queue path }
unfolding execute_retry get_retry_status cancel_retry
execute_retry-escalated fl u path task now due escalates idle = rw (due, escalates, idle) refl

module _ (fl : Float64) {C : Type 0} (u : UnifiedTransferManager fl.Float C) (path : String)
    (n : FileNode) (now : ℤ) (found : get_file u.structure path ≡ some n) where
  start_transfer_found : (start_transfer fl u path now).1 ≡ none
  unfolding start_transfer
  start_transfer_found = rw found refl

  restart_found :
      (task : RetryTask)
      → restart fl u (record task { file_path = path }) now ≡ (start_transfer fl u path now).0
  unfolding restart
  restart_found task = rw (restart, start_transfer_found) refl

  -- While the file at the path is in transfer, no other one is.
  started_elsewhere :
      (other : String) (cause : Error) (later : ℤ)
      → path ≢ other
      → let u' = (start_transfer fl u path now).0 in
        (u'.queues ≡ u.queues)
        × (complete_transfer fl u' other later ≡ (u', some (sentinel transfer_not_found)))
        × (fail_transfer fl u' other cause later ≡ (u', some (sentinel transfer_not_found)))
  unfolding start_transfer complete_transfer fail_transfer
  started_elsewhere other cause later differ =
      let elsewhere : path == other ≡ false =
        ground (arith, differ, string_eq.beq_iff path other) in
      rw (found, elsewhere) (refl, refl, refl)

-- A retry that is due and not escalated, of a file of the session, takes over the transfer: whatever other
-- file was in transfer, CompleteTransfer and FailTransfer of it then fail with ErrTransferNotFound, and its
-- place in the queues is as it was.
pub execute_retry-takes_over :
    (fl : Float64) {C : Type 0} (u : UnifiedTransferManager fl.Float C) (path other : String)
    (task : RetryTask) (n : FileNode) (cause : Error) (now later : ℤ)
    → get_retry_status u.retry_queue path ≡ some task
    → should_escalate task.error_context ≡ false
    → get_file u.structure path ≡ some n
    → path ≢ other
    → let u' = execute_retry fl u path now in
      (u'.queues ≡ u.queues)
      × (complete_transfer fl u' other later ≡ (u', some (sentinel transfer_not_found)))
      × (fail_transfer fl u' other cause later ≡ (u', some (sentinel transfer_not_found)))
unfolding execute_retry get_retry_status
execute_retry-takes_over fl u path other task n cause now later due calm found differ =
    let u1 = record u { retry_queue = cancel_retry u.retry_queue path } in
    let again = restart_found fl u1 path n now found task in
    rw (due, calm, again) (started_elsewhere fl u1 path n now found other cause later differ)
