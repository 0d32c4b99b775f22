-- ===== src/StatusManager.antt =====
-- TransferStatusManager of pkg/transfer/status_manager.go. Each method fails before it writes, so
-- its result is the new manager or the error. The readings of the clock within one call are one
-- argument `now`; the calls of listeners, which run in goroutines of their own, are left out.
pub mod Counters
pub mod Outcomes
use lan_file_share.Common.{
  Bool, true, false, not, ◌&&◌, String, Option, none, some, List, [], ◌∷◌, ◌++◌, ◌==◌, string_eq,
  if◌then◌else◌, ltb, leb, ◌+◌,
}
use lan_file_share.Common.Int.{ℤ, pos, pos_part, neg_part, add64, sub64, ltb_ℤ, leb_ℤ}
use lan_file_share.Common.Text.{codes}
use lan_file_share.Errors.{
  Error, Sentinel, sentinel, message, session_not_found, session_already_exists, transfer_not_found,
  invalid_state_transition, Result, ok, err,
}
use lan_file_share.State.{TransferState, state_eq, StatusSessionState}
use lan_file_share.Session.{
  Float64, TransferStatus, SessionTransferStatus, calculate_metrics, is_session_complete,
  get_session_progress_percentage, is_active_file, has_active_transfer,
}

-- `config_max_retries` is config.DefaultRetryPolicy.MaxRetries, all that is read of the
-- configuration. A listener is its ID.
pub record TransferStatusManager (F : Type 0) : Type 0 where
  pub session_status : Option (SessionTransferStatus F)
  pub config_max_retries : ℤ
  pub listeners : List String

-- The fields that a literal `&TransferStatus{…}` of an active transfer leaves at their zero.
abbrev pub new_transfer_status :
    (fl : Float64) → String → String → ℤ → ℤ → ℤ → TransferStatus fl.Float
new_transfer_status fl path session size retries now = record {
  file_path = path;
  session_id = session;
  state = TransferState.active;
  bytes_sent = pos 0;
  total_bytes = size;
  chunks_sent = pos 0;
  total_chunks = pos 0;
  transfer_rate = fl.of_int (pos 0);
  eta = pos 0;
  start_time = now;
  last_update_time = now;
  completion_time = none;
  last_error = none;
  retry_count = pos 0;
  max_retries = retries;
  file_size = size;
  file_checksum = "";
  priority = pos 0;
}

module _ (fl : Float64) where
  open fl use {Float}

  abbrev Manager : Type 0
  Manager = TransferStatusManager Float

  -- NewTransferStatusManagerWithConfig
  unfoldable pub new_manager : ℤ → TransferStatusManager Float
  new_manager retries = record {
    session_status = none;
    config_max_retries = retries;
    listeners = [];
  }

  create_session : Manager → String → ℤ → ℤ → ℤ → Result Manager
  create_session m id files bytes now = elim m.session_status [
    | some s ↦ err (sentinel session_already_exists)
    | none ↦ ok (record m {
      session_status = some (record {
        session_id = id;
        total_files = files;
        completed_files = pos 0;
        failed_files = pos 0;
        pending_files = files;
        total_bytes = bytes;
        bytes_completed = pos 0;
        overall_progress = fl.of_int (pos 0);
        current_file = none;
        start_time = now;
        last_update_time = now;
        completion_time = none;
        state = StatusSessionState.active;
      });
    })
  ]

  -- InitializeSession
  unfoldable pub initialize_session :
      TransferStatusManager Float → String → ℤ → ℤ → ℤ → Result (TransferStatusManager Float)
  unfolding create_session
  initialize_session m id files bytes now =
      if id == ""
      then err (message (codes "session ID cannot be empty"))
      else if ltb_ℤ files (pos 0)
      then err (message (codes "total files cannot be negative"))
      else if ltb_ℤ bytes (pos 0)
      then err (message (codes "total bytes cannot be negative"))
      else create_session m id files bytes now

  -- GetSessionStatus
  unfoldable pub get_session_status :
      TransferStatusManager Float → Result (SessionTransferStatus Float)
  get_session_status m = elim m.session_status [
    | none ↦ err (sentinel session_not_found)
    | some s ↦ ok s
  ]

  abbrev active_path : Option (TransferStatus Float) → String
  active_path none = ""
  active_path (some file) = file.file_path

  start_in : Manager → SessionTransferStatus Float → String → ℤ → ℤ → Result Manager
  start_in m s path size now =
      if has_active_transfer s
      then err (
          message (
            codes "session already has an active file transfer: "
            ++ codes (active_path s.current_file)))
      else ok (record m {
        session_status = some (record s {
          current_file =
              some (new_transfer_status fl path s.session_id size m.config_max_retries now);
          last_update_time = now;
        });
      })

  -- StartFileTransfer
  unfoldable pub start_file_transfer :
      TransferStatusManager Float → String → ℤ → ℤ → Result (TransferStatusManager Float)
  unfolding start_in has_active_transfer
  start_file_transfer m path size now =
      if path == ""
      then err (message (codes "file path cannot be empty"))
      else if ltb_ℤ size (pos 0)
      then err (message (codes "file size cannot be negative"))
      else elim m.session_status [
        | none ↦ err (sentinel session_not_found)
        | some s ↦ start_in m s path size now
      ]

  abbrev Body : Type 0
  Body = SessionTransferStatus Float → TransferStatus Float → Result (SessionTransferStatus Float)

  current_in :
      Option (TransferStatus Float)
      → SessionTransferStatus Float
      → Body
      → Result (SessionTransferStatus Float)
  current_in none s body = err (sentinel transfer_not_found)
  current_in (some file) s body = body s file

  session_in : Option (SessionTransferStatus Float) → Body → Result (SessionTransferStatus Float)
  unfolding current_in
  session_in none body = err (sentinel session_not_found)
  session_in (some s) body = current_in s.current_file s body

  put_session : Manager → Result (SessionTransferStatus Float) → Result Manager
  put_session m (ok t) = ok (record m { session_status = some t })
  put_session m (err e) = err e

  -- The checks that the methods on the current file begin with, and what they do then.
  with_current : Manager → Body → Result Manager
  unfolding session_in put_session
  with_current m body = put_session m (session_in m.session_status body)

  with_progress : SessionTransferStatus Float → SessionTransferStatus Float
  with_progress s = record s { overall_progress = get_session_progress_percentage fl s }

  progress_in :
      ℤ
      → ℤ
      → SessionTransferStatus Float
      → TransferStatus Float
      → Result (SessionTransferStatus Float)
  unfolding with_progress
  progress_in sent now s file =
      let file' =
        calculate_metrics fl (record file { bytes_sent = sent; last_update_time = now }) now in
      ok
        (record (with_progress (record s { current_file = some file' })) { last_update_time = now })

  -- UpdateFileProgress
  unfoldable pub update_file_progress :
      TransferStatusManager Float → ℤ → ℤ → Result (TransferStatusManager Float)
  unfolding with_current progress_in
  update_file_progress m sent now =
      if ltb_ℤ sent (pos 0)
      then err (message (codes "bytes sent cannot be negative"))
      else with_current m (progress_in sent now)

  complete_in :
      ℤ → SessionTransferStatus Float → TransferStatus Float → Result (SessionTransferStatus Float)
  unfolding with_progress is_session_complete
  complete_in now s file =
      let t = with_progress (record s {
        completed_files = add64 s.completed_files (pos 1);
        pending_files = sub64 s.pending_files (pos 1);
        bytes_completed = add64 s.bytes_completed file.total_bytes;
        current_file = none;
        last_update_time = now;
      }) in
      ok (
        if is_session_complete t
        then record t { completion_time = some now; state = StatusSessionState.completed }
        else t)

  -- CompleteCurrentFile
  unfoldable pub complete_current_file :
      TransferStatusManager Float → ℤ → Result (TransferStatusManager Float)
  unfolding with_current complete_in
  complete_current_file m now = with_current m (complete_in now)

  fail_in :
      ℤ → SessionTransferStatus Float → TransferStatus Float → Result (SessionTransferStatus Float)
  unfolding with_progress
  fail_in now s file =
      let t = with_progress (record s {
        failed_files = add64 s.failed_files (pos 1);
        pending_files = sub64 s.pending_files (pos 1);
        current_file = none;
        last_update_time = now;
      }) in
      ok (
        if leb_ℤ t.total_files t.failed_files
        then record t { completion_time = some now; state = StatusSessionState.failed }
        else t)

  -- FailCurrentFile; the error it is given is kept only in the file's own status, which the
  -- session drops.
  unfoldable pub fail_current_file :
      TransferStatusManager Float → Error → ℤ → Result (TransferStatusManager Float)
  unfolding with_current fail_in
  fail_current_file m cause now = with_current m (fail_in now)

  move_in :
      TransferState
      → TransferState
      → ℤ
      → SessionTransferStatus Float
      → TransferStatus Float
      → Result (SessionTransferStatus Float)
  move_in from to now s file =
      if file.state == from
      then ok (record s {
        current_file = some (record file { state = to; last_update_time = now });
        last_update_time = now;
      })
      else err (sentinel invalid_state_transition)

  -- PauseCurrentFile
  unfoldable pub pause_current_file :
      TransferStatusManager Float → ℤ → Result (TransferStatusManager Float)
  unfolding with_current move_in
  pause_current_file m now = with_current m (move_in TransferState.active TransferState.paused now)

  -- ResumeCurrentFile
  unfoldable pub resume_current_file :
      TransferStatusManager Float → ℤ → Result (TransferStatusManager Float)
  unfolding with_current move_in
  resume_current_file m now = with_current m (move_in TransferState.paused TransferState.active now)

  abbrev current_of : Option (SessionTransferStatus Float) → Result (TransferStatus Float)
  current_of none = err (sentinel session_not_found)
  current_of (some s) = elim s.current_file [
    | none ↦ err (sentinel transfer_not_found)
    | some file ↦ ok file
  ]

  -- GetCurrentFile
  unfoldable pub get_current_file : TransferStatusManager Float → Result (TransferStatus Float)
  get_current_file m = current_of m.session_status

  -- IsSessionActive
  unfoldable pub is_session_active : TransferStatusManager Float → Bool
  unfolding is_session_complete
  is_session_active m = elim m.session_status [
    | none ↦ false
    | some s ↦ not (is_session_complete s)
  ]

  -- ResetSession
  unfoldable pub reset_session : TransferStatusManager Float → TransferStatusManager Float
  reset_session m = record m { session_status = none }

  -- AddStatusListener
  unfoldable pub add_status_listener :
      TransferStatusManager Float → String → TransferStatusManager Float
  add_status_listener m id = record m { listeners = m.listeners ++ id ∷ [] }

-- The loop of RemoveStatusListener.
unfoldable pub without_listener : String → List String → List String
without_listener id [] = []
without_listener id (l ∷ ls) =
    let rest = without_listener id ls in if l == id then rest else l ∷ rest

-- RemoveStatusListener
unfoldable pub remove_status_listener :
    {F : Type 0} → TransferStatusManager F → String → TransferStatusManager F
unfolding without_listener
remove_status_listener m id = record m { listeners = without_listener id m.listeners }
