-- ===== src/Manager/Control.antt =====
-- The control of a session of UnifiedTransferManager and the status of one file
-- (pkg/transfer/unified_manager.go).
use lan_file_share.Common.{
  Bool, ◌&&◌, ◌||◌, not, String, Option, none, some, ◌++◌, ◌==◌, if◌then◌else◌,
}
use lan_file_share.Common.Int.{ℤ, pos, sub64, ltb_ℤ}
use lan_file_share.Common.Text.{codes}
use lan_file_share.Errors.{Error, sentinel, message, transfer_not_found, Result, ok, err}
use lan_file_share.State.{
  TransferState, StatusSessionState, session_state_eq, session_state_to_string,
}
use lan_file_share.FileNode.{FileNode, info}
use lan_file_share.FileStructure.{get_file}
use lan_file_share.Queue.{pending, completed, failed, is_file_in_queue}
use lan_file_share.Retry.Scheduler.{cancel_all}
use lan_file_share.Session.{Float64, TransferStatus, SessionTransferStatus, int_is_zero}
use lan_file_share.Manager.{UnifiedTransferManager}
use lan_file_share.Manager.Transfers.{current_at}

abbrev with_file_state :
    {F : Type 0} → Option (TransferStatus F) → TransferState → ℤ → Option (TransferStatus F)
with_file_state none to now = none
with_file_state (some file) to now = some (record file { state = to; last_update_time = now })

abbrev is_finished : StatusSessionState → Bool
is_finished state =
    state == StatusSessionState.completed
    || state == StatusSessionState.failed
    || state == StatusSessionState.cancelled

module _ {F C : Type 0} where
  set_session :
      UnifiedTransferManager F C
      → StatusSessionState
      → TransferState
      → ℤ
      → UnifiedTransferManager F C
  set_session u to file_to now =
      let s = u.session_status in
      record u {
        session_status = record s {
          state = to;
          last_update_time = now;
          current_file = with_file_state s.current_file file_to now;
        };
      }

  refuse : UnifiedTransferManager F C → String → UnifiedTransferManager F C × Option Error
  refuse u text = (
    u,
    some (
        message
          (codes text ++ codes (session_state_to_string u.session_status.state) ++ codes ")")),
  )

  -- PauseSession
  unfoldable pub pause_session :
      UnifiedTransferManager F C → ℤ → UnifiedTransferManager F C × Option Error
  unfolding set_session refuse
  pause_session u now =
      if u.session_status.state == StatusSessionState.active
      then (set_session u StatusSessionState.paused TransferState.paused now, none)
      else refuse u "cannot pause session: session is not active (current state: "

  -- ResumeSession
  unfoldable pub resume_session :
      UnifiedTransferManager F C → ℤ → UnifiedTransferManager F C × Option Error
  unfolding set_session refuse
  resume_session u now =
      if u.session_status.state == StatusSessionState.paused
      then (set_session u StatusSessionState.active TransferState.active now, none)
      else refuse u "cannot resume session: session is not paused (current state: "

  -- CancelSession
  unfoldable pub cancel_session :
      UnifiedTransferManager F C → ℤ → UnifiedTransferManager F C × Option Error
  unfolding set_session refuse
  cancel_session u now =
      if is_finished u.session_status.state
      then refuse u "cannot cancel session: session is already finished (current state: "
      else (
        record (set_session u StatusSessionState.cancelled TransferState.cancelled now) {
          retry_queue = cancel_all u.retry_queue u.retry_queue;
        },
        none,
      )

  -- IsSessionPaused, IsSessionCancelled
  unfoldable pub is_session_paused : UnifiedTransferManager F C → Bool
  is_session_paused u = u.session_status.state == StatusSessionState.paused

  unfoldable pub is_session_cancelled : UnifiedTransferManager F C → Bool
  is_session_cancelled u = u.session_status.state == StatusSessionState.cancelled

module _ (fl : Float64) where
  open fl use {Float, of_int, div, seconds}

  -- baseStatus of GetFileStatus, for a state and a number of bytes sent.
  base_status :
      SessionTransferStatus Float → FileNode → String → TransferState → ℤ → TransferStatus Float
  base_status s n path st sent = record {
    file_path = path;
    session_id = s.session_id;
    state = st;
    bytes_sent = sent;
    total_bytes = (info n).size;
    chunks_sent = pos 0;
    total_chunks = pos 0;
    transfer_rate = of_int (pos 0);
    eta = pos 0;
    start_time = pos 0;
    last_update_time = s.last_update_time;
    completion_time = none;
    last_error = none;
    retry_count = pos 0;
    max_retries = pos 0;
    file_size = pos 0;
    file_checksum = "";
    priority = pos 0;
  }

  -- The estimated rate of a completed file.
  estimated_rate : SessionTransferStatus Float → ℤ → Float
  estimated_rate s size =
      let elapsed = sub64 s.last_update_time s.start_time in
      if not (int_is_zero s.start_time)
        && ltb_ℤ s.start_time s.last_update_time
        && ltb_ℤ (pos 0) elapsed
      then div (of_int size) (seconds elapsed)
      else of_int (pos 0)

module _ (fl : Float64) {C : Type 0} where
  open fl use {Float}

  idle_status : UnifiedTransferManager Float C → FileNode → String → Result (TransferStatus Float)
  unfolding base_status estimated_rate is_file_in_queue
  idle_status u n path =
      let s = u.session_status in
      if is_file_in_queue u.queues path completed
      then ok (record (base_status fl s n path TransferState.completed (info n).size) {
        completion_time = s.completion_time;
        transfer_rate = estimated_rate fl s (info n).size;
      })
      else if is_file_in_queue u.queues path failed
      then ok (base_status fl s n path TransferState.failed (pos 0))
      else if is_file_in_queue u.queues path pending
      then ok (record (base_status fl s n path TransferState.pending (pos 0)) {
        start_time = s.start_time;
      })
      else err (sentinel transfer_not_found)

  status_of_file :
      UnifiedTransferManager Float C
      → String
      → Option (TransferStatus Float)
      → Option FileNode
      → Result (TransferStatus Float)
  unfolding idle_status
  status_of_file u path (some file) found = ok file
  status_of_file u path none none = err (sentinel transfer_not_found)
  status_of_file u path none (some n) = idle_status u n path

  -- GetFileStatus
  unfoldable pub get_file_status :
      UnifiedTransferManager Float C → String → Result (TransferStatus Float)
  unfolding status_of_file get_file
  get_file_status u path =
      status_of_file u path (current_at u.session_status.current_file path)
        (get_file u.structure path)
