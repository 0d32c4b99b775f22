-- ===== src/Manager/Ends.antt =====
-- Pausing, resuming, cancelling and ending a session of UnifiedTransferManager, and the status of
-- one file (pkg/transfer/unified_manager.go).
use lan_file_share.Common.{
  ℕ, ◌+◌, ◌<◌, ◌^◌, ◌≡◌, refl, ◌⊎◌, true, String, none, some, [], ◌∷◌, arith, string_eq,
  Option-cases, inl, inr,
}
use lan_file_share.Common.Int.{ℤ, pos, add64_exact}
use lan_file_share.Common.Maps.{lookup, delete, lookup-delete}
use lan_file_share.Errors.{Result, ok, err}
use lan_file_share.State.{TransferState, StatusSessionState}
use lan_file_share.FileNode.{FileNode}
use lan_file_share.FileStructure.{get_file}
use lan_file_share.Queue.{FileQueueState, pending, completed, failed}
use lan_file_share.Queue.View.{IsPartition, status_of}
use lan_file_share.Retry.Scheduler.{RetryTask, RetryQueue, cancel_all, get_retry_status}
use lan_file_share.Session.{Float64, TransferStatus}
use lan_file_share.Manager.{UnifiedTransferManager}
use lan_file_share.Manager.Transfers.{current_at, complete_transfer}
use lan_file_share.Manager.Control.{
  cancel_session, is_session_cancelled, is_session_paused, pause_session, resume_session,
  get_file_status,
}

lookup-cancel_all :
    (path : String) (queue tasks : RetryQueue)
    → lookup path tasks ≡ none
    → lookup path (cancel_all queue tasks) ≡ lookup path queue
unfolding cancel_all lookup
lookup-cancel_all path queue [] h = refl
lookup-cancel_all path queue ((k, task) ∷ tasks) h =
    ground (arith, lookup-cancel_all path (delete k queue) tasks, lookup-delete k path queue)

cancel_all-gone :
    (path : String) (queue tasks : RetryQueue)
    → lookup path queue ≡ none
    → lookup path (cancel_all queue tasks) ≡ none
unfolding cancel_all
cancel_all-gone path queue [] h = h
cancel_all-gone path queue ((k, task) ∷ tasks) h =
    cancel_all-gone path (delete k queue) tasks (ground (arith, lookup-delete k path queue))

cancel_all-lookup :
    (path : String) (queue tasks : RetryQueue) (task : RetryTask)
    → lookup path tasks ≡ some task
    → lookup path (cancel_all queue tasks) ≡ none
unfolding cancel_all lookup
cancel_all-lookup path queue [] task h = ground arith
cancel_all-lookup path queue ((k, t) ∷ tasks) task h = ground (
  arith,
  cancel_all-lookup path (delete k queue) tasks task,
  cancel_all-gone path (delete k queue) tasks,
  lookup-delete k path queue,
)

cancel_all-empty :
    (path : String) (queue : RetryQueue) → lookup path (cancel_all queue queue) ≡ none
cancel_all-empty path queue = elim (Option-cases (lookup path queue)) [
  | inl absent ↦ cancel_all-gone path queue queue absent
  | inr found ↦ cancel_all-lookup path queue queue found.0 found.1
]

-- CancelSession of an active or paused session succeeds: the session is cancelled, its current file
-- too, and no file has a retry left.
cancel_session-stops :
    {F C : Type 0} (u : UnifiedTransferManager F C) (now : ℤ)
    → (u.session_status.state ≡ StatusSessionState.active)
      ⊎ (u.session_status.state ≡ StatusSessionState.paused)
    → let (u', failure) = cancel_session u now in
      (failure ≡ none)
      × (u'.session_status.state ≡ StatusSessionState.cancelled)
      × ((file : TransferStatus F)
          → u'.session_status.current_file ≡ some file
          → file.state ≡ TransferState.cancelled)
      × ((path : String) → get_retry_status u'.retry_queue path ≡ none)
unfolding cancel_session get_retry_status
cancel_session-stops u now (inl active) =
    rw active (refl, refl, λ file h. ground arith, λ path. cancel_all-empty path u.retry_queue)
cancel_session-stops u now (inr paused) =
    rw paused (refl, refl, λ file h. ground arith, λ path. cancel_all-empty path u.retry_queue)

-- A cancelled session does not stay cancelled: completing the file that was in transfer, where it is
-- the last one open, makes the session a completed one.
complete-cancel :
    (fl : Float64) {C : Type 0} (u : UnifiedTransferManager fl.Float C) (path : String)
    (file : TransferStatus fl.Float) (total done lost : ℕ) (now later : ℤ)
    → u.session_status.state ≡ StatusSessionState.active
    → u.session_status.current_file ≡ some file
    → file.file_path ≡ path
    → u.session_status.total_files ≡ pos total
    → u.session_status.completed_files ≡ pos done
    → u.session_status.failed_files ≡ pos lost
    → done + lost + 1 ≡ total
    → total < 2 ^ 63
    → let u' = (cancel_session u now).0 in
      (is_session_cancelled u' ≡ true)
      × ((complete_transfer fl u' path later).0.session_status.state ≡ StatusSessionState.completed)
unfolding cancel_session complete_transfer is_session_cancelled
complete-cancel fl u path file total done lost now later ha hc hp ht hd hl last fits =
    rw (ha, hc, hp, ht, hd, hl)
      (ground (arith, string_eq.beq_iff path path, add64_exact done 1, add64_exact (done + 1) lost))

-- Pausing an active session and resuming it gives the session back with its current file active,
-- whatever state the file was in, and with nothing else changed but the update times.
resume-pause_session :
    {F C : Type 0} (u : UnifiedTransferManager F C) (file : TransferStatus F) (now later : ℤ)
    → u.session_status.state ≡ StatusSessionState.active
    → u.session_status.current_file ≡ some file
    → let u' = (pause_session u now).0 in
      (is_session_paused u' ≡ true)
      × (resume_session u' later ≡ (
        record u {
          session_status = record u.session_status {
            current_file =
                some (record file { state = TransferState.active; last_update_time = later });
            last_update_time = later;
          };
        },
        none,
      ))
unfolding pause_session resume_session is_session_paused
resume-pause_session u file now later ha hc = ground arith

-- The transfer state that a queue stands for.
abbrev pub state_in : FileQueueState → TransferState
state_in pending = TransferState.pending
state_in completed = TransferState.completed
state_in failed = TransferState.failed

-- GetFileStatus answers with a status for this path in the given state.
abbrev pub Reports : {F : Type 0} → Result (TransferStatus F) → String → TransferState → Type 0
Reports (err e) path state = ⊥
Reports (ok s) path state = (s.file_path ≡ path) × (s.state ≡ state)

-- For a file of the structure that is not the one in transfer, GetFileStatus reports the state of the
-- queue that holds it.
pub get_file_status-Reports :
    (fl : Float64) {C : Type 0} (u : UnifiedTransferManager fl.Float C) (path : String)
    (n : FileNode) (queue : FileQueueState)
    → IsPartition u.queues
    → get_file u.structure path ≡ some n
    → current_at u.session_status.current_file path ≡ none
    → status_of u.queues path ≡ some queue
    → Reports (get_file_status fl u path) path (state_in queue)
unfolding get_file_status get_file
get_file_status-Reports fl u path n pending v found idle h =
    rw (idle, found) (ground (arith, v.apart path))
get_file_status-Reports fl u path n completed v found idle h =
    rw (idle, found) (ground (arith, v.apart path))
get_file_status-Reports fl u path n failed v found idle h =
    rw (idle, found) (ground (arith, v.apart path))
